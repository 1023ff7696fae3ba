-- ===== src/Buffer/Fragments.antt =====
-- The purpose of `pq_message_stream`: the messages that come out do not depend on how the network
-- cut the data, and framed messages come out as they were framed.
use pg_cluster.Base.{
  All, Bytes, List, Outcome, [], ap, append-nil, append_assoc, arith, drop-append, length,
  length-append, none, ok, raise, refl, some, suc, sym, take-append, zero, ℕ, ◌++◌, ◌+◌, ◌-◌, ◌<◌,
  ◌>>=◌, ◌∙◌, ◌∷◌, ◌≡◌, ◌≤◌,
}
use pg_cluster.Buffer.Cut.{cut, not_less}
use pg_cluster.Buffer.Observe.{pending-write, take_test}
use pg_cluster.Buffer.Refine.{Refines, read-Refines}
use pg_cluster.Buffer.Spec.{
  IsStream, pending, read_of, take_message, take_messages, take_more, take_parts,
}
use pg_cluster.Buffer.Stream.{Frame, MessageStream, new_stream, read, read_header, write}
use pg_cluster.Element.Fields.{concat}
use pg_cluster.Element.RoundTrip.Arrays.{drop-be4}
use pg_cluster.Struct.{be4}
use pg_cluster.Struct.RoundTrip.{be4_value}

-- The client's use of a stream: each chunk is written, and then what is whole is read.
unfoldable pub receive_more :
    (MessageStream → Outcome (List Frame) × MessageStream)
    → Outcome (List Frame) × MessageStream
    → Outcome (List Frame) × MessageStream
receive_more again (raise e, s) = (raise e, s)
receive_more again (ok ms, s) = let (o, t) = again s in (o >>= λ ns. ok (ms ++ ns), t)

unfoldable pub receive : ℕ → List Bytes → MessageStream → Outcome (List Frame) × MessageStream
receive num [] s = (ok [], s)
receive num (chunk ∷ chunks) s = receive_more (λ t. receive num chunks t) (read num (write chunk s))

drained_read : (num : ℕ) (v : Bytes) → take_message v ≡ ok none → take_messages num v ≡ ok ([], v)
unfolding take_messages take_more
drained_read zero v e = refl
drained_read (suc num) v e = rw e

ok_pair :
    (a b : List Frame) (v w : Bytes)
    → ◌≡◌ {A = Outcome (List Frame × Bytes)} (ok (a, v)) (ok (b, w))
    → (a ≡ b) × (v ≡ w)
ok_pair a b v w e = ((cc), (cc))

receive_more_lem :
    (again : MessageStream → Outcome (List Frame) × MessageStream)
    (r : Outcome (List Frame) × MessageStream) (first later : List Frame) (rest : Bytes)
    → r.0 ≡ ok first
    → Refines (again r.1) (ok later, rest)
    → Refines (receive_more again r) (ok (first ++ later), rest)
unfolding receive_more
receive_more_lem again (o, t) first later rest e h = rw (e, receive_more) (rw h.0 refl, h.1, h.2)

-- One chunk: what the read after it gives.
chunk_read :
    (num : ℕ) (chunk : Bytes) (s : MessageStream) (first : List Frame) (left : Bytes)
    → IsStream s
    → take_messages num (pending s ++ chunk) ≡ ok (first, left)
    → Refines (read num (write chunk s)) (ok first, left)
chunk_read num chunk s first left h e =
    let (p, ok') = pending-write chunk s h in
    unfold read_of in rw (p, e) at (read-Refines num (write chunk s) ok')

-- Whatever the chunks, a stream with no whole message pending gives exactly the messages, and
-- keeps exactly the bytes, that one read of all the data gives.
pub receive_lem :
    (num : ℕ) (chunks : List Bytes) (s : MessageStream) (all : List Frame) (rest : Bytes)
    → IsStream s
    → take_message (pending s) ≡ ok none
    → length (pending s) + length (concat chunks) ≤ num
    → take_messages num (pending s ++ concat chunks) ≡ ok (all, rest)
    → Refines (receive num chunks s) (ok all, rest)
unfolding receive
receive_lem num [] s all rest h drained fits e =
    let whole : take_messages num (pending s) ≡ ok (all, rest) = rw append-nil at e in
    let (none_read, kept) =
      ok_pair [] all (pending s) rest (sym (drained_read num (pending s) drained) ∙ whole) in
    (ap ok none_read, kept, h)
receive_lem num (chunk ∷ chunks) s all rest h drained fits e =
    let v = pending s ++ chunk in
    let more = concat chunks in
    let c =
      cut num v more all rest
        (omega (arith, length-append (pending s) chunk, length-append chunk more))
        (rw (← append_assoc (pending s) chunk more) at e) in
    let r = chunk_read num chunk s c.first c.left h c.first_read in
    let again =
      receive_lem num chunks (read num (write chunk s)).1 c.later rest r.2 (rw r.1 c.drained)
        (omega (
          arith,
          ap (λ (t : Bytes). length t) r.1,
          c.shorter,
          length-append (pending s) chunk,
          length-append chunk more,
        ))
        (rw r.1 c.later_read) in
    rw c.together (receive_more_lem (λ t. receive num chunks t) _ c.first c.later rest r.0 again)

-- A message as `Message.bytes` frames it.
abbrev pub frame_bytes : Frame → Bytes
frame_bytes (t, body) = t ∷ (be4 (length body + 4) ++ body)

abbrev pub frames_bytes : List Frame → Bytes
frames_bytes [] = []
frames_bytes (m ∷ ms) = frame_bytes m ++ frames_bytes ms

abbrev pub IsFrame : Frame → Type 0
IsFrame (t, body) = length body + 4 < 4294967296

header-be4 : (t n : ℕ) (v : Bytes) → read_header (t ∷ (be4 n ++ v)) ≡ some (t, n)
unfolding read_header be4
header-be4 t n v = ap (λ (k : ℕ). some (t, k)) (be4_value n)

take_message-frame :
    (m : Frame) (rest : Bytes)
    → IsFrame m
    → take_message (frame_bytes m ++ rest) ≡ ok (some (m, rest))
unfolding take_message take_parts
take_message-frame (t, body) rest h =
    let size = length body + 4 in
    let four : size - 4 ≡ length body = omega arith in
    rw (
      append_assoc (be4 size) body rest,
      header-be4 t size (body ++ rest),
      drop-be4 size (body ++ rest),
      not_less size 4 (omega arith),
      four,
      take_test (length body) (body ++ rest),
      not_less (length (body ++ rest)) (length body) (omega (arith, length-append body rest)),
      take-append body rest,
      drop-append body rest,
    )

-- Frames, one after the other, are read one after the other.
pub take_messages-frames :
    (num : ℕ) (ms : List Frame)
    → All IsFrame ms
    → length ms ≤ num
    → take_messages num (frames_bytes ms) ≡ ok (ms, [])
unfolding take_messages take_more
take_messages-frames zero [] h fits = refl
take_messages-frames zero (m ∷ ms) h fits = absurd (omega arith)
take_messages-frames (suc num) [] h fits = unfold take_message take_parts read_header in refl
take_messages-frames (suc num) (m ∷ ms) h fits =
    rw (take_message-frame m (frames_bytes ms) h.0, take_messages-frames num ms h.1 (omega arith))

length-frames : (ms : List Frame) → length ms ≤ length (frames_bytes ms)
length-frames [] = omega arith
length-frames (m ∷ ms) =
    omega (arith, length-append (frame_bytes m) (frames_bytes ms), length-frames ms)

-- Frames that are sent in any chunks are received as they were sent, and nothing is left.
pub receive-frames :
    (num : ℕ) (chunks : List Bytes) (ms : List Frame)
    → All IsFrame ms
    → concat chunks ≡ frames_bytes ms
    → length (frames_bytes ms) ≤ num
    → Refines (receive num chunks new_stream) (ok ms, [])
receive-frames num chunks ms h same fits =
    receive_lem num chunks new_stream ms [] (omega arith)
      (unfold pending take_message take_parts read_header in refl)
      (unfold pending in rw same (omega arith))
      (unfold pending in rw same (take_messages-frames num ms h (omega (arith, length-frames ms))))
