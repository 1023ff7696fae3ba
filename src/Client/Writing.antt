-- ===== src/Client/Writing.antt =====
-- Writing to the socket (protocol/client3.py): each sequence of messages gets to it once, in order,
-- whatever the calls of `send` take or raise.
use pg_cluster.Base.{
  ==-refl, All, Bool-cases, Bytes, List, Option, [], ap, append-nil, append_assoc, drop,
  if◌then◌else◌, inl, inr, none, ok, raise, refl, some, sym, take, take-append-drop, true, ◌++◌,
  ◌∙◌, ◌∷◌, ◌≡◌, ◌≢◌,
}
use pg_cluster.Client.Transport.{
  Batch, Delivery, Reply, Transport, add_batch, add_data, add_unwritten, cat_writing, done, is_same,
  send_fails, send_interrupted, send_loop, send_message_data, standard_write_messages, taken,
  then_add, then_send,
}
use pg_cluster.Element.Wire.{cat_messages}

-- What the connection has been given to send: what is sent, and what waits to be.
unfoldable pub outgoing_data : Transport → Bytes
outgoing_data t = t.sent ++ t.message_data

-- A reply of sending: it did send everything, or bytes are left.
abbrev pub IsSentAs : Reply → Transport → Type 0
IsSentAs done u = u.message_data ≡ []
IsSentAs _ u = u.message_data ≢ []

-- What has been given is the same, the attributes of the two sequences too.
abbrev pub IsKeptBy : Transport → Transport → Type 0
IsKeptBy t u =
    (outgoing_data u ≡ outgoing_data t) × (u.writing ≡ t.writing) × (u.written ≡ t.written)

send_loop-IsKeptBy :
    (ds : List Delivery) (v : Bytes) (t : Transport)
    → IsSentAs (send_loop ds v t).0 (send_loop ds v t).1
      × ((send_loop ds v t).1.writing ≡ t.writing)
      × ((send_loop ds v t).1.written ≡ t.written)
      × (outgoing_data (send_loop ds v t).1 ≡ t.sent ++ v)
unfolding send_loop outgoing_data
send_loop-IsKeptBy ds [] t = (refl, refl, refl, refl)
send_loop-IsKeptBy [] (b ∷ v) t = ((λ e. cc), refl, refl, refl)
send_loop-IsKeptBy (taken n ∷ ds) (b ∷ v) t =
    let (a, x, y, rest) =
      send_loop-IsKeptBy ds (drop n (b ∷ v)) (record t { sent = t.sent ++ take n (b ∷ v) }) in
    (
      a,
      x,
      y,
      rest
          ∙ append_assoc t.sent (take n (b ∷ v)) (drop n (b ∷ v))
          ∙ ap (λ (w : Bytes). t.sent ++ w) (take-append-drop n (b ∷ v)),
    )
send_loop-IsKeptBy (send_fails m ∷ ds) (b ∷ v) t = ((λ e. cc), refl, refl, refl)
send_loop-IsKeptBy (send_interrupted a ∷ ds) (b ∷ v) t = ((λ e. cc), refl, refl, refl)

is_same_refl : (o : Option Batch) → is_same o o ≡ true
unfolding is_same
is_same_refl none = refl
is_same_refl (some b) = ==-refl b.0

-- The sequence that `standard_write_messages` was given last is in the data.
abbrev pub IsSettled : Transport → Type 0
IsSettled t = t.writing ≡ t.written

abbrev pub batch_bytes : Batch → Bytes
batch_bytes b = elim (cat_messages b.1) [ ok v ↦ v | raise e ↦ [] ]

-- The messages of the sequence can be turned into bytes.
abbrev pub IsEncodable : Batch → Type 0
IsEncodable b = cat_messages b.1 ≡ ok (batch_bytes b)

-- What a call adds to the data, and what it leaves as `writing`, by the sequence of the last call.
abbrev pub added : Batch → Option Batch → Bytes
added b last = if is_same (some b) last then [] else batch_bytes b

abbrev pub next_of_batch : Batch → Option Batch → Option Batch
next_of_batch b last = if is_same (some b) last then last else some b

-- All the data is this, and the last sequence that one; the reply is true just where all is sent.
abbrev IsWritten : Bytes → Option Batch → Reply × Transport → Type 0
IsWritten bytes last x =
    (outgoing_data x.1 ≡ bytes) × (x.1.writing ≡ last) × IsSettled x.1 × IsSentAs x.0 x.1

send-IsWritten :
    (bytes : Bytes) (last : Option Batch) (u : Transport)
    → outgoing_data u ≡ bytes
    → u.writing ≡ last
    → IsSettled u
    → IsWritten bytes last (send_message_data u)
unfolding send_message_data outgoing_data
send-IsWritten bytes last u d w h =
    let (a, x, y, k) = send_loop-IsKeptBy u.deliveries u.message_data u in
    (k ∙ d, x ∙ w, x ∙ h ∙ sym y, a)

module _ (b : Batch) (t : Transport) (e : IsEncodable b) (h : IsSettled t) where
  add_batch-IsWritten :
      IsWritten
        (outgoing_data t ++ added b t.writing)
        (next_of_batch b t.writing)
        (then_send (add_batch b t))
  unfolding add_batch add_data cat_writing then_send
  add_batch-IsWritten = elim (Bool-cases (is_same (some b) t.writing)) [
    | inl same ↦ rw same (
        send-IsWritten (outgoing_data t ++ []) t.writing t (sym (append-nil (outgoing_data t))) refl
          h)
    | inr new ↦
        rw (new, e)
          (send-IsWritten (outgoing_data t ++ batch_bytes b) (some b) _
            (unfold outgoing_data in sym (append_assoc t.sent t.message_data (batch_bytes b))) refl
            refl)
  ]

  -- One call adds the bytes of a new sequence, and nothing for the one that it was given last; the
  -- reply is true just where everything is sent.
  write-IsWritten :
      IsWritten
        (outgoing_data t ++ added b t.writing)
        (next_of_batch b t.writing)
        (standard_write_messages b t)
  unfolding standard_write_messages add_unwritten then_add
  write-IsWritten =
      let settled : is_same t.writing t.written ≡ true =
        ap (λ (o : Option Batch). is_same t.writing o) (sym h) ∙ is_same_refl t.writing in
      rw settled add_batch-IsWritten

-- The calls of `standard_write_messages` with these sequences, one behind the other
unfoldable pub write_each : List Batch → Transport → Transport
write_each [] t = t
write_each (b ∷ bs) t = write_each bs (standard_write_messages b t).1

-- The bytes of the sequences, each once where it is given several times in a row
unfoldable pub bytes_of : Option Batch → List Batch → Bytes
bytes_of last [] = []
bytes_of last (b ∷ bs) = added b last ++ bytes_of (next_of_batch b last) bs

-- Over any calls of `standard_write_messages`, from a state where the last sequence is in the data,
-- with sequences that can be turned into bytes, and whatever the calls of `send` take or raise: what the socket has taken and the data that waits
-- are together the bytes of the sequences, in order, and a sequence that is given again after an
-- interruption is not sent again.
pub write_each_lem :
    (bs : List Batch) (t : Transport)
    → All IsEncodable bs
    → IsSettled t
    → ((write_each bs t).sent ++ (write_each bs t).message_data
        ≡ t.sent ++ t.message_data ++ bytes_of t.writing bs)
      × IsSettled (write_each bs t)
unfolding write_each bytes_of outgoing_data
write_each_lem [] t e h = (sym (append-nil (t.sent ++ t.message_data)), h)
write_each_lem (b ∷ bs) t e h =
    let (d, w, settled, _) = write-IsWritten b t e.0 h in
    let (all, still) = write_each_lem bs (standard_write_messages b t).1 e.1 settled in
    (
      rw
          (
            d,
            w,
            append_assoc (t.sent ++ t.message_data) (added b t.writing)
                (bytes_of (next_of_batch b t.writing) bs),
          )
          at all,
      still,
    )
