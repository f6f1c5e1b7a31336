-- ===== src/Update/Versions.antt =====
-- compareVersions of controller/internal/update/checker.go, and what fmt.Sscanf reads by "%d".
use torvmremix.Base.{
  ℕ, zero, suc, ◌+◌, ◌-◌, ◌*◌, ◌^◌, Bool, true, false, ◌&&◌, Option, none, some, List, [], ◌∷◌, ℤ,
  pos, negsuc, lt_int, leb, ltb, ◌==◌, if◌then◌else◌, length, take, drop, get_elem?, Bytes, bytes,
  has_prefix, has_byte, split, trim_left,
}

-- The digits at the head of a text, as a number on top of `n`.
unfoldable pub read_digits : ℕ → Bytes → ℕ
read_digits n [] = n
read_digits n (c ∷ s) =
    let rest = read_digits (n * 10 + (c - b'0')) s in if leb b'0' c && leb c b'9' then rest else n

-- strconv.ParseInt, for 64 bits: an error outside their range.
abbrev pub fit_int : Bool → ℕ → Option ℤ
fit_int negative n =
    if negative
    then (if leb n (2 ^ 63) then some (negated n) else none)
    else (if ltb n (2 ^ 63) then some (pos n) else none)
  where
    negated : ℕ → ℤ
    negated zero = pos zero
    negated (suc m) = negsuc m

-- A digit has to come first.
abbrev pub unsigned : Bool → Bytes → Option ℤ
unsigned negative [] = none
unsigned negative (c ∷ s) =
    if leb b'0' c && leb c b'9' then fit_int negative (read_digits 0 (c ∷ s)) else none

abbrev pub signed : Bytes → Option ℤ
signed [] = none
signed (c ∷ s) =
    if c == b'-'
    then unsigned true s
    else if c == b'+'
    then unsigned false s
    else unsigned false (c ∷ s)

-- fmt.Sscanf(s, "%d", &v): white space goes first, in which a newline is an error.
unfoldable pub scan_int : Bytes → Option ℤ
scan_int s =
    let t = trim_left s in if has_byte 10 (take (length s - length t) s) then none else signed t

-- The number of a part, 0 if there is none or it is not read.
abbrev pub number_at : List Bytes → ℕ → ℤ
number_at parts i = elim (get_elem? parts i) [
  | none ↦ pos 0
  | some p ↦ elim (scan_int p) [ none ↦ pos 0 | some v ↦ v ]
]

-- The loop over the positions.
unfoldable pub compare_from : (ℕ → ℤ) → (ℕ → ℤ) → List ℕ → ℤ
compare_from a b [] = pos 0
compare_from a b (i ∷ is) =
    let rest = compare_from a b is in
    if lt_int (a i) (b i) then negsuc 0 else if lt_int (b i) (a i) then pos 1 else rest

abbrev pub trim_v : Bytes → Bytes
trim_v s = if has_prefix s (bytes "v") then drop 1 s else s

unfoldable pub numbers : Bytes → ℕ → ℤ
numbers s = number_at (split b'.' (trim_v s))

unfoldable pub compare_versions : Bytes → Bytes → ℤ
compare_versions a b = compare_from (numbers a) (numbers b) (0 ∷ 1 ∷ 2 ∷ [])
