-- ===== src/Driver/Cursor.antt =====
-- The class `Cursor` of driver/pq3.py: a scrollable cursor, which may go backward.
use pg_cluster.Base.{
  Bool, Bytes, List, Option, Outcome, [], attribute_error, bytes_eq, codes, false, if◌then◌else◌,
  none, not, ok, raise, some, suc, true, type_error, upper, value_error, zero, ℕ, ◌>>=◌, ◌∷◌,
}
use pg_cluster.Base.Int.{negsuc, pos, ℤ}

-- 'FORWARD' or 'BACKWARD', or a truth value, or something else
pub data Direction : Type 0 where
  direction_word : Bytes → Direction
  is_forward : Bool → Direction
  odd_value : Direction

unfoldable pub direction_str_to_bool : Bytes → Outcome Bool
direction_str_to_bool str =
    if bytes_eq (upper str) (codes "FORWARD")
    then ok true
    else if bytes_eq (upper str) (codes "BACKWARD")
    then ok false
    else raise value_error

unfoldable pub direction_to_bool : Direction → Outcome Bool
direction_to_bool (direction_word str) = direction_str_to_bool str
direction_to_bool (is_forward b) = ok b
direction_to_bool odd_value = raise type_error

-- `not ((not a) ^ (not b))`
unfoldable pub same_sign : Bool → Bool → Bool
same_sign true b = b
same_sign false b = not b

-- `_which_way`, for a cursor with the direction `forward`
unfoldable pub which_way : Bool → Option Direction → Outcome Bool
which_way forward none = ok forward
which_way forward (some d) = do b ← direction_to_bool d; ok (same_sign forward b)

-- A count in a command: none, ALL, or a number
pub data Count : Type 0 where
  no_count all_rows : Count
  row_count : ℤ → Count

-- `_pq_xp_fetch(direction, quantity)`: whether it is FETCH FORWARD, and the count
abbrev pub Fetch : Type 0
Fetch = Bool × Count

unfoldable pub fetch_of : Bool → Option ℕ → Fetch
fetch_of forward none = (forward, all_rows)
fetch_of forward (some n) = (forward, row_count (pos n))

-- `read(quantity, direction)`: no command for the quantity 0
unfoldable pub fetch_some : Bool → Option ℕ → Option Direction → Outcome (List Fetch)
fetch_some forward quantity direction = do
  b ← which_way forward direction
  ok (fetch_of b quantity ∷ [])

unfoldable pub read_rows : Bool → Option ℕ → Option Direction → Outcome (List Fetch)
read_rows forward (some zero) direction = ok []
read_rows forward quantity direction = fetch_some forward quantity direction

-- The argument `whence`: a number, a text, or None
pub data WhenceArgument : Type 0 where
  whence_number : ℕ → WhenceArgument
  whence_text : Bytes → WhenceArgument
  no_whence : WhenceArgument

-- The values of `_seek_whence_map`
pub data Whence : Type 0 where
  absolute relative from_end forward backward : Whence

unfoldable pub seek_whence_map : ℕ → Outcome Whence
seek_whence_map zero = ok absolute
seek_whence_map (suc zero) = ok relative
seek_whence_map (suc (suc zero)) = ok from_end
seek_whence_map (suc (suc (suc zero))) = ok forward
seek_whence_map (suc (suc (suc (suc zero)))) = ok backward
seek_whence_map (suc (suc (suc (suc (suc n))))) = raise attribute_error

unfoldable pub whence_named : Bytes → Outcome Whence
whence_named name =
    if bytes_eq name (codes "ABSOLUTE")
    then ok absolute
    else if bytes_eq name (codes "RELATIVE")
    then ok relative
    else if bytes_eq name (codes "FROM_END")
    then ok from_end
    else if bytes_eq name (codes "FORWARD")
    then ok forward
    else if bytes_eq name (codes "BACKWARD")
    then ok backward
    else raise type_error

unfoldable pub resolve_whence : WhenceArgument → Outcome Whence
resolve_whence (whence_number n) = seek_whence_map n
resolve_whence (whence_text name) = whence_named (upper name)
resolve_whence no_whence = raise type_error

-- `offset`: 'ALL' or a number
pub data Offset : Type 0 where
  all_the_way : Offset
  by_rows : ℤ → Offset

unfoldable pub negate : ℤ → ℤ
negate (pos zero) = pos zero
negate (pos (suc n)) = negsuc n
negate (negsuc n) = pos (suc n)

-- `if offset < 0 and rwhence == 'BACKWARD'`
unfoldable pub turn_forward : ℤ → Whence → ℤ × Whence
turn_forward (negsuc n) backward = (pos (suc n), forward)
turn_forward z w = (z, w)

-- `if self.direction is False`, for a number
unfoldable pub turn_backward : ℤ × Whence → ℤ × Whence
turn_backward (z, relative) = (negate z, relative)
turn_backward (z, absolute) = (z, from_end)
turn_backward (z, _) = (z, absolute)

unfoldable pub adjust_number : Bool → ℤ → Whence → ℤ × Whence
adjust_number true z w = turn_forward z w
adjust_number false z w = turn_backward (turn_forward z w)

-- `_pq_xp_move(position, whence)`
pub record Move : Type 0 where
  pub position : Count
  pub whence : Bytes

abbrev pub move : Count → Bytes → Move
move position whence = record { position = position; whence = whence }

-- `if offset < 0`
unfoldable pub move_relative : ℤ → Bytes → List Move
move_relative (negsuc n) name = move (row_count (pos (suc n))) (codes "BACKWARD") ∷ []
move_relative (pos n) name = move (row_count (pos n)) name ∷ []

unfoldable pub moves_of : ℤ × Whence → List Move
moves_of (z, relative) = move_relative z (codes "RELATIVE")
moves_of (z, backward) = move_relative z (codes "BACKWARD")
moves_of (z, forward) = move_relative z (codes "FORWARD")
moves_of (z, absolute) = move (row_count z) (codes "ABSOLUTE") ∷ []
moves_of (z, from_end) =
    move no_count (codes "LAST")
    ∷ move no_count (codes "NEXT")
    ∷ move (row_count z) (codes "BACKWARD")
    ∷ []

unfoldable pub move_all : Bool → Whence → List Move
move_all b forward = move all_rows (codes "FORWARD") ∷ []
move_all b backward = move all_rows (codes "BACKWARD") ∷ []
move_all true w = move all_rows (codes "FORWARD") ∷ []
move_all false w = move all_rows (codes "BACKWARD") ∷ []

-- `seek(offset, whence)`, for a cursor with the direction `b`
unfoldable pub seek_moves : Bool → Offset → Whence → List Move
seek_moves b all_the_way w = move_all b w
seek_moves b (by_rows z) w = moves_of (adjust_number b z w)

unfoldable pub seek : Bool → Offset → WhenceArgument → Outcome (List Move)
seek b offset argument = do w ← resolve_whence argument; ok (seek_moves b offset w)
