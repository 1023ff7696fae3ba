-- ===== src/Element/RoundTrip/Arguments.antt =====
-- The argument part that Bind and Function of protocol/element3.py share: the count, the formats,
-- the count again, and the data, behind `front` and before `tail`.
use pg_cluster.Base.{
  All, Bytes, List, ap, append_assoc, arith, drop, drop-append, drop-skip, length, length-append,
  ok, slice, slice-append, sym, take, ℕ, ◌*◌, ◌++◌, ◌+◌, ◌-◌, ◌∙◌, ◌∷◌, ◌≡◌,
}
use pg_cluster.Element.Attributes.{read_attributes}
use pg_cluster.Element.Fields.{concat}
use pg_cluster.Element.Message.{Datum}
use pg_cluster.Element.RoundTrip.Arrays.{IsPair, length-concat}
use pg_cluster.Element.RoundTrip.Rows.{
  IsDatum, attribute_bytes, length-be2, read_attributes_lem, row_bytes,
}
use pg_cluster.Struct.{be2}

pub length-row_bytes_cons :
    (x : Datum) (xs : List Datum)
    → length (row_bytes (x ∷ xs)) ≡ length (attribute_bytes x) + length (row_bytes xs)
length-row_bytes_cons x xs = length-append (attribute_bytes x) (row_bytes xs)

pub slice-drop {ℓ} :
    {A : Type ℓ} (lo hi n : ℕ) (xs tail : List A)
    → drop lo xs ≡ tail
    → hi ≡ lo + n
    → slice lo hi xs ≡ take n tail
unfolding slice
slice-drop lo hi n xs tail e h = let m : hi - lo ≡ n = omega arith in rw (m, e)

module _ (front tail : Bytes) (p : ℕ) (at_front : p ≡ length front) (formats : List Bytes)
    (args : List Datum) (pairs : All IsPair formats) (same : length formats ≡ length args)
    (data_ok : All IsDatum args) where
  abbrev count : Bytes
  count = be2 (length args)

  abbrev pub argument_part : Bytes
  argument_part = front ++ (count ++ (concat formats ++ (count ++ (row_bytes args ++ tail))))

  abbrev pub args_end : ℕ
  args_end = p + 4 + 2 * length args + length (row_bytes args)

  length-formats : length (concat formats) ≡ 2 * length args
  length-formats = length-concat formats pairs ∙ ap (λ (n : ℕ). 2 * n) same

  pub first_count : (lo hi : ℕ) → lo ≡ p → hi ≡ p + 2 → slice lo hi argument_part ≡ count
  first_count lo hi e f =
      slice-append lo hi front count _ (omega (arith, at_front))
        (omega (arith, at_front, length-be2 (length args)))

  pub formats_slice :
      (lo hi : ℕ)
      → lo ≡ p + 2
      → hi ≡ p + 2 + 2 * length args
      → slice lo hi argument_part ≡ concat formats
  formats_slice lo hi e f = rw (append_assoc front count) at (
      slice-append lo hi (front ++ count) (concat formats) (count ++ (row_bytes args ++ tail))
        (omega (arith, at_front, length-append front count, length-be2 (length args)))
        (omega
          (arith, at_front, length-append front count, length-be2 (length args), length-formats)))

  abbrev before : Bytes
  before = front ++ (count ++ concat formats)

  before-eq : (rest : Bytes) → before ++ rest ≡ front ++ (count ++ (concat formats ++ rest))
  before-eq rest =
      rw (
        append_assoc front (count ++ concat formats) rest,
        append_assoc count (concat formats) rest,
      )

  length-before : length before ≡ p + 2 + 2 * length args
  length-before = omega (
    arith,
    at_front,
    length-append front (count ++ concat formats),
    length-append count (concat formats),
    length-be2 (length args),
    length-formats,
  )

  pub second_count :
      (lo hi : ℕ) → lo ≡ p + 2 + 2 * length args → hi ≡ lo + 2 → slice lo hi argument_part ≡ count
  second_count lo hi e f = rw (before-eq) at (
      slice-append lo hi before count (row_bytes args ++ tail) (omega (arith, length-before))
        (omega (arith, length-before, length-be2 (length args))))

  abbrev ahead : Bytes
  ahead = before ++ count

  ahead-eq :
      (rest : Bytes) → ahead ++ rest ≡ front ++ (count ++ (concat formats ++ (count ++ rest)))
  ahead-eq rest = append_assoc before count rest ∙ before-eq (count ++ rest)

  length-ahead : length ahead ≡ p + 4 + 2 * length args
  length-ahead = omega (arith, length-before, length-append before count, length-be2 (length args))

  pub arguments_read :
      (off : ℕ)
      → off ≡ p + 4 + 2 * length args
      → read_attributes (length args) argument_part off ≡ ok (args, args_end)
  arguments_read off e =
      rw (ahead-eq) at
        (read_attributes_lem ahead tail off args (omega (arith, length-ahead)) data_ok)
      ∙ ap (λ (n : ℕ). ok (args, n)) (omega arith)

  pub drop_arguments : drop args_end argument_part ≡ tail
  drop_arguments =
      ap (λ (v : Bytes). drop args_end v) (sym (ahead-eq (row_bytes args ++ tail)))
      ∙ drop-skip args_end (length (row_bytes args)) ahead (row_bytes args ++ tail)
          (omega (arith, length-ahead))
      ∙ drop-append (row_bytes args) tail
