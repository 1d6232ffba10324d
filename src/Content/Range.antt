-- ===== src/Content/Range.antt =====
-- `parseRange` of apps/api/src/vfs/range.ts, behind the match of the header. A text of digits is its number, and
-- an empty one is `none`; a header with a comma or without a match is `unmatched`. All errors of the
-- source are one.
use storix.Base.{
  ℕ, ◌+◌, ◌-◌, ◌≤◌, ◌<◌, ◌↔◌, ◌||◌, Option, none, some, ltb, leb, ◌==◌, if◌then◌else◌, Result, ok,
  err, arith,
}

pub data RangeHeader : Type 0 where
  unmatched : RangeHeader
  matched : (start_text end_text : Option ℕ) → RangeHeader

pub record ByteRange : Type 0 where
  pub start : ℕ
  pub end : ℕ

pub data RangeError : Type 0 where
  not_satisfiable : RangeError

-- Number.MAX_SAFE_INTEGER
abbrev pub max_safe_integer : ℕ
max_safe_integer = 9007199254740991

unfoldable pub parse_decimal : ℕ → ℕ
parse_decimal n = if ltb n max_safe_integer then n else max_safe_integer

-- The last test of the source, and the cut at the end of the file.
unfoldable pub within_size : (start end size : ℕ) → Result RangeError ByteRange
within_size start end size =
    if size == 0 || leb size start
    then err not_satisfiable
    else ok (record { start = start; end = if ltb end (size - 1) then end else size - 1 })

-- Where `size - 1` is -1 in the source, the size is 0, which is refused in any case.
unfoldable pub parse_range : RangeHeader → (size : ℕ) → Result RangeError ByteRange
unfolding parse_decimal within_size
parse_range unmatched size = err not_satisfiable
parse_range (matched none none) size = err not_satisfiable
parse_range (matched none (some suffix)) size =
    if parse_decimal suffix == 0
    then err not_satisfiable
    else within_size (size - parse_decimal suffix) (size - 1) size
parse_range (matched (some first) none) size =
    if ltb (size - 1) (parse_decimal first)
    then err not_satisfiable
    else within_size (parse_decimal first) (size - 1) size
parse_range (matched (some first) (some last)) size =
    if ltb (parse_decimal last) (parse_decimal first)
    then err not_satisfiable
    else within_size (parse_decimal first) (parse_decimal last) size

-- The bytes that a header asks for, by RFC 9110: from the first on, up to the last, or so many at the end.
abbrev pub Asks : RangeHeader → (size i : ℕ) → Type 0
Asks unmatched size i = ⊥
Asks (matched none none) size i = ⊥
Asks (matched none (some suffix)) size i = size ≤ i + suffix
Asks (matched (some first) none) size i = first ≤ i
Asks (matched (some first) (some last)) size i = (first ≤ i) × (i ≤ last)

abbrev pub Selects : Result RangeError ByteRange → ℕ → Type 0
Selects (err e) i = ⊥
Selects (ok r) i = (r.start ≤ i) × (i ≤ r.end)

abbrev pub IsInside : Result RangeError ByteRange → ℕ → Type 0
IsInside (err e) size = Unit
IsInside (ok r) size = (r.start ≤ r.end) × (r.end < size)

-- For a file of a safe size, the range has the bytes of the file that the header asks for and no others, and an
-- error means that it asks for none; a range that is answered is not empty and inside the file.
pub parse_range_lem :
    (h : RangeHeader) (size : ℕ)
    → size ≤ max_safe_integer
    → ((i : ℕ) → i < size → Selects (parse_range h size) i ↔ Asks h size i)
      × IsInside (parse_range h size) size
unfolding parse_range parse_decimal within_size
parse_range_lem unmatched size safe = (λ i below. (λ s. s, λ a. a), tt)
parse_range_lem (matched none none) size safe = (λ i below. (λ s. s, λ a. a), tt)
parse_range_lem (matched none (some suffix)) size safe =
    (λ i below. (λ s. ground arith, λ a. ground arith), ground arith)
parse_range_lem (matched (some first) none) size safe =
    (λ i below. (λ s. ground arith, λ a. ground arith), ground arith)
parse_range_lem (matched (some first) (some last)) size safe =
    (λ i below. (λ s. ground arith, λ a. ground arith), ground arith)
