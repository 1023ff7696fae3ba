-- ===== src/Buffer/Stream.antt =====
-- The class `pq_message_stream` of protocol/pbuffer.py. A method returns what it returns or
-- raises, and the new state.
use pg_cluster.Base.{
  Bool, Bytes, List, Option, Outcome, [], false, if◌then◌else◌, leb, length, ltb, none, ok, raise,
  some, suc, value_error, zero, ℕ, ◌*◌, ◌++◌, ◌+◌, ◌-◌, ◌==◌, ◌∷◌,
}
use pg_cluster.Buffer.File.{
  File, empty_file, read_bytes, seek, seek_end, truncate_file, write_bytes,
}

pub record MessageStream : Type 0 where
  pub file : File
  pub start : ℕ

abbrev pub block : ℕ
block = 512

-- `_limit = _block * 4`
abbrev pub limit : ℕ
limit = 2048

-- A message: the byte of its type, and its body.
abbrev pub Frame : Type 0
Frame = ℕ × Bytes

abbrev pub new_stream : MessageStream
new_stream = record { file = empty_file; start = 0 }

-- `truncate`
unfoldable pub clear : MessageStream → MessageStream
clear s = record { file = truncate_file 0 s.file; start = 0 }

-- The loop of `_rtruncate`, a block for each round. The size of the file bounds the rounds.
unfoldable pub compact_loop : ℕ → ℕ → ℕ → File → File
compact_loop zero copyto copyfrom f = f
compact_loop (suc fuel) copyto copyfrom f =
    let (v, g) = read_bytes block (seek copyfrom f) in
    let h = write_bytes v (seek copyto g) in
    let again = compact_loop fuel h.pos g.pos h in if length v == block then again else h

-- `_rtruncate(amt)`
unfoldable pub rtruncate : ℕ → File → File
rtruncate amt f =
    let size = length f.bytes in
    if size == amt
    then truncate_file 0 (seek_end f)
    else truncate_file (size - amt) (compact_loop (suc size) 0 amt (seek_end f))

-- The first lines of `next_message`, `__next__` and `read`.
unfoldable pub trim : MessageStream → MessageStream
trim s = if ltb limit s.start then record { file = rtruncate s.start s.file; start = 0 } else s

-- `Struct('!xL').unpack_from(header)`, with the type byte in front; `none` if `len(header) < 5`
unfoldable pub read_header : Bytes → Option (ℕ × ℕ)
read_header (t ∷ a ∷ b ∷ c ∷ d ∷ v) = some (t, a * 16777216 + b * 65536 + c * 256 + d)
read_header _ = none

-- The rest of `_get_message`, after the header.
unfoldable pub get_body : ℕ → ℕ → File → Outcome (Option Frame) × File
get_body typ size f =
    let (body, g) = read_bytes (size - 4) f in
    if ltb size 4
    then (raise value_error, f)
    else if ltb (length body) (size - 4)
    then (ok none, g)
    else (ok (some (typ, body)), g)

unfoldable pub get_parts : Option (ℕ × ℕ) → File → Outcome (Option Frame) × File
get_parts none f = (ok none, f)
get_parts (some (typ, size)) f = get_body typ size f

-- `_get_message`
unfoldable pub get_message : File → Outcome (Option Frame) × File
get_message f = let (header, g) = read_bytes 5 f in get_parts (read_header header) g

-- What `next_message` does with what `_get_message` gave.
unfoldable pub advance :
    MessageStream → Outcome (Option Frame) × File → Outcome (Option Frame) × MessageStream
advance s (raise e, f) = (raise e, record s { file = f })
advance s (ok none, f) = (ok none, record s { file = f })
advance s (ok (some m), f) = (ok (some m), record { file = f; start = f.pos })

-- `next_message`; `__next__` is the same, with StopIteration for `none`.
unfoldable pub next_message : MessageStream → Outcome (Option Frame) × MessageStream
next_message s = let t = trim s in advance t (get_message (seek t.start t.file))

-- The loop of `read`, after a call of `_get_message`.
unfoldable pub read_more :
    (List Frame → ℕ → File → Outcome (List Frame × ℕ) × File)
    → List Frame
    → ℕ
    → Outcome (Option Frame) × File
    → Outcome (List Frame × ℕ) × File
read_more again l new_start (raise e, f) = (raise e, f)
read_more again l new_start (ok none, f) = (ok (l, new_start), f)
read_more again l new_start (ok (some m), f) = again (l ++ m ∷ []) (new_start + (5 + length m.1)) f

-- `while len(l) < num`, by the rounds that are left
unfoldable pub read_loop : ℕ → List Frame → ℕ → File → Outcome (List Frame × ℕ) × File
read_loop zero l new_start f = (ok (l, new_start), f)
read_loop (suc num) l new_start f =
    read_more (λ l' n g. read_loop num l' n g) l new_start (get_message f)

-- On an exception `_start` is what it was.
unfoldable pub finish_read :
    MessageStream → Outcome (List Frame × ℕ) × File → Outcome (List Frame) × MessageStream
finish_read s (raise e, f) = (raise e, record s { file = f })
finish_read s (ok (l, new_start), f) = (ok l, record { file = f; start = new_start })

-- `read(num)`
unfoldable pub read : ℕ → MessageStream → Outcome (List Frame) × MessageStream
read num s = let t = trim s in finish_read t (read_loop num [] t.start (seek t.start t.file))

-- `write(data)`
unfoldable pub write : Bytes → MessageStream → MessageStream
write v s = record s { file = write_bytes v (seek_end s.file) }

-- `getvalue`
unfoldable pub getvalue : MessageStream → Bytes
getvalue s = (read_bytes (length s.file.bytes) (seek s.start s.file)).0

-- `has_message`: what is left in the file is not changed, but for the position.
unfoldable pub has_parts : Option (ℕ × ℕ) → MessageStream → Outcome Bool
has_parts none s = ok false
has_parts (some (typ, size)) s =
    if ltb size 4 then raise value_error else ok (leb (size + 1) ((seek_end s.file).pos - s.start))

unfoldable pub has_message : MessageStream → Outcome Bool
has_message s = has_parts (read_header (read_bytes 5 (seek s.start s.file)).0) s

-- One round of `__len__` behind the header: a seek to the last byte of the message, and a read of
-- it. Where it is not there, the loop ends.
unfoldable pub count_round :
    (ℕ → File → Option (Outcome ℕ)) → ℕ → Option (ℕ × ℕ) → File → Option (Outcome ℕ)
count_round again count none f = some (ok count)
count_round again count (some (typ, size)) f =
    let (last, g) = read_bytes 1 (seek (f.pos + size - 4 - 1) f) in
    if ltb size 4
    then some (raise value_error)
    else if length last == 1
    then again (count + 1) g
    else some (ok count)

-- `while True` of `__len__`; `none` means that the fuel ran out.
unfoldable pub count_loop : ℕ → ℕ → File → Option (Outcome ℕ)
count_loop zero count f = none
count_loop (suc fuel) count f =
    let (header, g) = read_bytes 5 f in
    count_round (λ n h. count_loop fuel n h) count (read_header header) g

-- `__len__`
unfoldable pub message_count : MessageStream → Option (Outcome ℕ)
message_count s = count_loop (suc (length s.file.bytes)) 0 (seek s.start s.file)
