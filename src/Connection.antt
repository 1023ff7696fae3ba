-- ===== src/Connection.antt =====
-- The way of a message through tools/pg_cluster_backend/psc/postgresql/protocol: `bytes` and
-- `cat_messages` of element3.py on one side, `pq_message_stream` of pbuffer.py and `parse` of
-- element3.py on the other.
use pg_cluster.Base.{
  All, Bytes, List, Outcome, [], ap, arith, length, ok, raise, refl, sym, ℕ, ◌+◌, ◌<◌, ◌∙◌, ◌∷◌,
  ◌≡◌, ◌≤◌,
}
use pg_cluster.Buffer.Fragments.{IsFrame, frame_bytes, frames_bytes, receive, receive-frames}
use pg_cluster.Buffer.Refine.{Refines}
use pg_cluster.Buffer.Stream.{Frame, new_stream}
use pg_cluster.Element.Fields.{concat, join_all}
use pg_cluster.Element.Framing.{IsTyped, frame_as-typed, type_byte}
use pg_cluster.Element.Message.{Message, class_of}
use pg_cluster.Element.RoundTrip.Every.{IsWellFormed, parse-serialize, received_as}
use pg_cluster.Element.Wire.{parse, serialize, to_bytes}

-- The body is short enough for the size field.
abbrev pub BodyFits : Outcome Bytes → Type 0
BodyFits (ok v) = length v + 4 < 4294967296
BodyFits (raise e) = ⊥

-- A message that is received as it was sent: framed with its type byte, in range, and short
-- enough for the size field.
abbrev pub IsSendable : Message → Type 0
IsSendable m = IsWellFormed m × IsTyped (class_of m) × BodyFits (serialize m)

-- A frame whose body the class of the message parses back.
abbrev pub Carries : Message → Frame → Type 0
Carries m (t, body) = (t ≡ type_byte (class_of m)) × (parse (class_of m) body ≡ ok (received_as m))

-- Frames that carry messages, one by one.
abbrev pub CarryAll : List Message → List Frame → Type 0
CarryAll [] [] = Unit
CarryAll (m ∷ ms) (f ∷ fs) = Carries m f × CarryAll ms fs
CarryAll _ _ = ⊥

fits_of : (v : Bytes) (o : Outcome Bytes) → o ≡ ok v → BodyFits o → length v + 4 < 4294967296
fits_of v (ok w) e h = let same : w ≡ v = cc in omega (arith, h, ap (λ (t : Bytes). length t) same)
fits_of v (raise x) e h = absurd h

-- What one message is on the wire.
message_frame :
    (m : Message)
    → IsSendable m
    → (f : Frame) × (to_bytes m ≡ ok (frame_bytes f)) × IsFrame f × Carries m f
unfolding to_bytes
message_frame m h =
    let (v, written, back) = parse-serialize m h.0 in
    let fits = fits_of v (serialize m) written h.2 in
    (
      (type_byte (class_of m), v),
      rw (written, frame_as-typed (class_of m) v h.1 fits),
      fits,
      (refl, back),
    )

messages_frames :
    (ms : List Message)
    → All IsSendable ms
    → (fs : List Frame) × (join_all to_bytes ms ≡ ok (frames_bytes fs))
      × All IsFrame fs
      × CarryAll ms fs
unfolding join_all
messages_frames [] h = ([], refl, tt, tt)
messages_frames (m ∷ ms) h =
    let (f, e, ok', c) = message_frame m h.0 in
    let (fs, es, oks, cs) = messages_frames ms h.1 in (f ∷ fs, rw (e, es), (ok', oks), (c, cs))

-- What a call gives, and no bytes where it raises.
abbrev pub bytes_of : Outcome Bytes → Bytes
bytes_of (ok v) = v
bytes_of (raise e) = []

-- Well-formed messages, each with a type byte and with a body that is short enough for the size
-- field, are turned into bytes without an exception; in whatever chunks those bytes arrive, and
-- where the stream may read as many messages as there are bytes, it gives as many frames in the same
-- order, each parsed by its class to what was sent, a row to the plain tuple of its attributes, and
-- no byte is left.
pub transmission :
    (num : ℕ) (ms : List Message) (chunks : List Bytes)
    → All IsSendable ms
    → concat chunks ≡ bytes_of (join_all to_bytes ms)
    → length (concat chunks) ≤ num
    → (join_all to_bytes ms ≡ ok (concat chunks))
      × ((fs : List Frame) × Refines (receive num chunks new_stream) (ok fs, []) × CarryAll ms fs)
transmission num ms chunks h cut' fits =
    let (fs, e, oks, carried) = messages_frames ms h in
    let same : concat chunks ≡ frames_bytes fs = cut' ∙ ap bytes_of e in
    (e ∙ ap ok (sym same), (fs, receive-frames num chunks fs oks same (rw same at fits), carried))
