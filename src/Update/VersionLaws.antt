-- ===== src/Update/VersionLaws.antt =====
-- compareVersions (controller/internal/update/checker.go) on the texts of releases.
use torvmremix.Base.{
  ℕ, zero, suc, ◌+◌, ◌-◌, ◌*◌, ◌/◌, ◌%◌, ◌^◌, ◌<◌, ◌≤◌, ◌≡◌, ◌↔◌, refl, ap, ◌∙◌, Bool, true, false,
  Option, none, some, [], ◌∷◌, ◌++◌, ℤ, pos, negsuc, if◌then◌else◌, Bytes, bytes, is_nil, All, Free,
  decimal, decimal_fuel, ltb, Bool-cases, arith, ◌⊎◌, inl, inr, split, has_prefix,
  trim_left-Visible, length, take, has_byte, split-Free-cons, split-Free,
}
use torvmremix.Update.Versions.{
  read_digits, signed, scan_int, number_at, trim_v, numbers, compare_from, compare_versions,
}

abbrev Digit : ℕ → Type 0
Digit c = (48 ≤ c) × (c ≤ 57)

-- One more digit at the end.
read_digits-snoc :
    (n : ℕ) (s : Bytes) (d : ℕ)
    → All Digit s
    → d < 10
    → read_digits n (s ++ ((48 + d) ∷ [])) ≡ read_digits n s * 10 + d
unfolding read_digits
read_digits-snoc n [] d h k = ground arith
read_digits-snoc n (c ∷ s) d h k =
    ground (arith, h.0.0, h.0.1, read_digits-snoc (n * 10 + (c - 48)) s d h.1 k)

All-snoc : (s : Bytes) (d : ℕ) → All Digit s → Digit d → All Digit (s ++ (d ∷ []))
All-snoc [] d h k = (k, tt)
All-snoc (c ∷ s) d h k = (h.0, All-snoc s d h.1 k)

decimal-Digit : (f n : ℕ) → All Digit (decimal_fuel f n)
unfolding decimal_fuel
decimal-Digit zero n = ((omega arith, omega arith), tt)
decimal-Digit (suc f) n = elim (Bool-cases (ltb n 10)) [
  | inl h ↦ rw h ((omega arith, ground (arith, h)), tt)
  | inr h ↦ rw h (
      All-snoc (decimal_fuel f (n / 10)) (48 + n % 10) (decimal-Digit f (n / 10))
        (omega arith, omega arith))
]

read_digits-decimal : (f n : ℕ) → n ≤ f → read_digits 0 (decimal_fuel f n) ≡ n
unfolding decimal_fuel read_digits
read_digits-decimal zero n h = ground arith
read_digits-decimal (suc f) n h = elim (Bool-cases (ltb n 10)) [
  | inl k ↦ rw k (ground (arith, k))
  | inr k ↦
      let big : 10 ≤ n = ground (arith, k) in
      rw k (
        read_digits-snoc 0 (decimal_fuel f (n / 10)) (n % 10) (decimal-Digit f (n / 10))
          (omega arith)
        ∙ ap (λ m. m * 10 + n % 10) (read_digits-decimal f (n / 10) (omega arith))
        ∙ omega arith)
]

snoc-filled : (s : Bytes) (d : ℕ) → is_nil (s ++ (d ∷ [])) ≡ false
snoc-filled [] d = refl
snoc-filled (c ∷ s) d = refl

decimal-filled : (f n : ℕ) → is_nil (decimal_fuel f n) ≡ false
unfolding decimal_fuel
decimal-filled zero n = refl
decimal-filled (suc f) n = elim (Bool-cases (ltb n 10)) [
  | inl h ↦ rw h refl
  | inr h ↦ rw h (snoc-filled (decimal_fuel f (n / 10)) (48 + n % 10))
]

signed-Digit :
    (c : ℕ) (s : Bytes)
    → Digit c
    → read_digits 0 (c ∷ s) < 2 ^ 63
    → signed (c ∷ s) ≡ some (pos (read_digits 0 (c ∷ s)))
signed-Digit c s (low, high) b = ground (arith, low, high, b)

nothing_cut : (s : Bytes) → take (length s - length s) s ≡ []
nothing_cut s = let z : length s - length s ≡ 0 = omega arith in ap (λ n. take n s) z

scan_int-Digit :
    (s : Bytes)
    → All Digit s
    → is_nil s ≡ false
    → read_digits 0 s < 2 ^ 63
    → scan_int s ≡ some (pos (read_digits 0 s))
unfolding scan_int has_byte
scan_int-Digit [] h k b = absurd (cc)
scan_int-Digit (c ∷ s) h k b =
    ap (scanned (c ∷ s)) (trim_left-Visible c s (omega (arith, h.0.0), omega (arith, h.0.1)))
    ∙ rw (nothing_cut (c ∷ s)) (signed-Digit c s h.0 b)
  where
    scanned : Bytes → Bytes → Option ℤ
    scanned l t = if has_byte 10 (take (length l - length t) l) then none else signed t

-- The three numbers of a release.
abbrev pub Release : Type 0
Release = ℕ × ℕ × ℕ

-- Each number is an `int`.
abbrev pub FitsInt : Release → Type 0
FitsInt r = (r.0 < 2 ^ 63) × (r.1 < 2 ^ 63) × (r.2 < 2 ^ 63)

-- How a release is written, with a v before it or without.
abbrev pub version_text : Bool → Release → Bytes
version_text v r =
    (if v then bytes "v" else []) ++ (decimal r.0 ++ (46 ∷ (decimal r.1 ++ (46 ∷ decimal r.2))))

-- A release comes before another one.
abbrev pub IsBefore : Release → Release → Type 0
IsBefore r s = (r.0 < s.0) ⊎ ((r.0 ≡ s.0) × ((r.1 < s.1) ⊎ ((r.1 ≡ s.1) × (r.2 < s.2))))

number-decimal : (n : ℕ) → n < 2 ^ 63 → scan_int (decimal n) ≡ some (pos n)
unfolding decimal
number-decimal n h =
    let e = read_digits-decimal n n (omega arith) in
    scan_int-Digit (decimal_fuel n n) (decimal-Digit n n) (decimal-filled n n) (rw e h)
    ∙ ap (λ m. some (pos m)) e

Digit-Free : (s : Bytes) → All Digit s → Free 46 s
Digit-Free [] h = tt
Digit-Free (c ∷ s) h = (λ e. ground (arith, h.0.0, e), Digit-Free s h.1)

parts :
    (r : Release) → split 46 (version_text false r) ≡ decimal r.0 ∷ decimal r.1 ∷ decimal r.2 ∷ []
unfolding decimal
parts r =
    split-Free-cons 46 (decimal r.0) _ (Digit-Free _ (decimal-Digit r.0 r.0))
    ∙ ap (λ x. decimal r.0 ∷ x)
        (split-Free-cons 46 (decimal r.1) _ (Digit-Free _ (decimal-Digit r.1 r.1))
          ∙ ap (λ x. decimal r.1 ∷ x) (split-Free 46 _ (Digit-Free _ (decimal-Digit r.2 r.2))))

trim_v-digits : (s t : Bytes) → All Digit s → is_nil s ≡ false → trim_v (s ++ t) ≡ s ++ t
unfolding has_prefix bytes
trim_v-digits [] t h k = absurd (cc)
trim_v-digits (c ∷ s) t h k = ground (arith, h.0.1)

trim_v-text : (v : Bool) (r : Release) → trim_v (version_text v r) ≡ version_text false r
unfolding has_prefix bytes decimal
trim_v-text true r = refl
trim_v-text false r = trim_v-digits (decimal r.0) _ (decimal-Digit r.0 r.0) (decimal-filled r.0 r.0)

abbrev read_or_0 : Option ℤ → ℤ
read_or_0 n = elim n [ none ↦ pos 0 | some v ↦ v ]

-- The three numbers that are read.
numbers-text :
    (v : Bool) (r : Release)
    → FitsInt r
    → (numbers (version_text v r) 0 ≡ pos r.0)
      × (numbers (version_text v r) 1 ≡ pos r.1)
      × (numbers (version_text v r) 2 ≡ pos r.2)
unfolding numbers
numbers-text v r (a, b, c) =
    let e = ap (split 46) (trim_v-text v r) ∙ parts r in
    (
      ap (λ ps. number_at ps 0) e ∙ ap read_or_0 (number-decimal r.0 a),
      ap (λ ps. number_at ps 1) e ∙ ap read_or_0 (number-decimal r.1 b),
      ap (λ ps. number_at ps 2) e ∙ ap read_or_0 (number-decimal r.2 c),
    )

-- Of two releases of three numbers below 2 ^ 63, each written in decimal with dots between them, with a v
-- before it or without, the comparison gives -1 exactly when the first comes before the second, number
-- by number and by the size of the numbers, 1 exactly when the second comes before the first, and 0
-- exactly when they are the same.
pub compare_versions-text :
    (v w : Bool) (r s : Release)
    → FitsInt r
    → FitsInt s
    → let o = compare_versions (version_text v r) (version_text w s) in
      ((o ≡ negsuc 0) ↔ IsBefore r s)
      × ((o ≡ pos 1) ↔ IsBefore s r)
      × ((o ≡ pos 0) ↔ ((r.0 ≡ s.0) × (r.1 ≡ s.1) × (r.2 ≡ s.2)))
unfolding compare_versions compare_from
compare_versions-text v w r s h k =
    let (a, b, c) = numbers-text v r h in
    let (d, e, f) = numbers-text w s k in
    rw (a, b, c, d, e, f)
      (
        (λ x. ground arith, λ x. ground arith),
        (λ x. ground arith, λ x. ground arith),
        (λ x. ground arith, λ x. ground arith),
      )
