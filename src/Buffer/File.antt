-- ===== src/Buffer/File.antt =====
-- Python's `io.BytesIO`, as protocol/pbuffer.py uses it: the bytes and the position.
use pg_cluster.Base.{Bytes, [], drop, length, replicate, take, ℕ, ◌++◌, ◌+◌, ◌-◌, ◌∷◌}

pub record File : Type 0 where
  pub bytes : Bytes
  pub pos : ℕ

abbrev pub empty_file : File
empty_file = record { bytes = []; pos = 0 }

-- `seek(n)`
unfoldable pub seek : ℕ → File → File
seek n f = record f { pos = n }

-- `seek(0, 2)`
unfoldable pub seek_end : File → File
seek_end f = record f { pos = length f.bytes }

-- `read(n)`: past the end it reads nothing, and stays.
unfoldable pub read_bytes : ℕ → File → Bytes × File
read_bytes n f = let v = take n (drop f.pos f.bytes) in (v, record f { pos = f.pos + length v })

-- `write(v)`: it overwrites what stands at the position; a gap is filled with zeros.
unfoldable pub write_bytes : Bytes → File → File
write_bytes [] f = f
write_bytes (b ∷ v) f = record f {
  bytes =
      take f.pos f.bytes
      ++ (replicate (f.pos - length f.bytes) 0
          ++ ((b ∷ v) ++ drop (f.pos + length (b ∷ v)) f.bytes));
  pos = f.pos + length (b ∷ v);
}

-- `truncate(n)` leaves the position where it is.
unfoldable pub truncate_file : ℕ → File → File
truncate_file n f = record f { bytes = take n f.bytes }
