-- ===== src/Base/Text.antt =====
-- Go strings as lists of bytes, with the functions of the packages `strings` and `strconv` that the
-- controller calls.
use Prim.Native.Char.{code}
use Prim.Native.String.{String}
use Prim.Native.Nat.{ℕ, zero, suc, ◌+◌, ◌-◌, ◌/◌, ◌%◌}
use mathlib.Core.Path.{◌≡◌, refl, ap}
use mathlib.Core.Logic.{◌↔◌, ◌⊎◌, inl, inr, ◌≢◌}
use mathlib.Core.Bool.{Bool, true, false, ◌&&◌, ◌||◌}
use mathlib.Core.List.{List, [], ◌∷◌, ◌++◌}
use mathlib.Core.Option
use mathlib.Core.Option.{Option, none, some}
use native.Mathlib.Omega.{arith}
use torvmremix.Base.Int.{ℤ, pos, negsuc}
use torvmremix.Base.Tests.{ltb, ◌==◌, if◌then◌else◌, Bool-cases}
use torvmremix.Base.Lists.{length, any, All, drop}

abbrev pub Bytes : Type 0
Bytes = List ℕ

abbrev code_list : String → Bytes
code_list String.[] = []
code_list (String.◌∷◌ c s) = code c ∷ code_list s

-- A literal of the source, which is ASCII. Shut, so that proofs do not compute with its bytes.
unfoldable pub bytes : String → Bytes
bytes s = code_list s

abbrev pub is_nil {ℓ} : {A : Type ℓ} → List A → Bool
is_nil [] = true
is_nil (x ∷ xs) = false

unfoldable pub eq_bytes : Bytes → Bytes → Bool
eq_bytes [] [] = true
eq_bytes [] (b ∷ t) = false
eq_bytes (a ∷ s) [] = false
eq_bytes (a ∷ s) (b ∷ t) = a == b && eq_bytes s t

pub eq_bytes_refl : (s : Bytes) → eq_bytes s s ≡ true
unfolding eq_bytes
eq_bytes_refl [] = refl
eq_bytes_refl (a ∷ s) = ground (arith, eq_bytes_refl s)

pub eq_bytes_sound : (s t : Bytes) → eq_bytes s t ≡ true → s ≡ t
unfolding eq_bytes
eq_bytes_sound [] [] h = refl
eq_bytes_sound [] (b ∷ t) h = cc
eq_bytes_sound (a ∷ s) [] h = cc
eq_bytes_sound (a ∷ s) (b ∷ t) h = ground (arith, eq_bytes_sound s t)

pub eq_bytes_iff : (s t : Bytes) → (eq_bytes s t ≡ true) ↔ (s ≡ t)
eq_bytes_iff s t = (eq_bytes_sound s t, λ e. rw e (eq_bytes_refl t))

-- strings.HasPrefix
unfoldable pub has_prefix : Bytes → Bytes → Bool
has_prefix s [] = true
has_prefix [] (b ∷ p) = false
has_prefix (a ∷ s) (b ∷ p) = a == b && has_prefix s p

pub has_prefix_sound : (s p : Bytes) → has_prefix s p ≡ true → (rest : Bytes) × (s ≡ p ++ rest)
unfolding has_prefix
has_prefix_sound s [] h = (s, refl)
has_prefix_sound [] (b ∷ p) h = absurd (cc)
has_prefix_sound (a ∷ s) (b ∷ p) h =
    let (r, e) = has_prefix_sound s p (ground arith) in (r, ground (arith, e))

-- strings.Index, as the text behind the first occurrence, and strings.Contains.
unfoldable pub after_first : Bytes → Bytes → Option Bytes
after_first [] p = if is_nil p then some [] else none
after_first (a ∷ s) p =
    if has_prefix (a ∷ s) p then some (drop (length p) (a ∷ s)) else after_first s p

unfoldable pub contains : Bytes → Bytes → Bool
contains [] p = is_nil p
contains (a ∷ s) p = has_prefix (a ∷ s) p || contains s p

-- strings.IndexByte, as the text before and behind the first occurrence.
unfoldable pub split_at_byte : ℕ → Bytes → Option (Bytes × Bytes)
split_at_byte c [] = none
split_at_byte c (a ∷ s) =
    if a == c
    then some ([], s)
    else Option.map (λ (p : Bytes × Bytes). (a ∷ p.0, p.1)) (split_at_byte c s)

-- What stands before the first occurrence of a byte, or everything.
abbrev pub up_to_byte : ℕ → Bytes → Bytes
up_to_byte c s = elim (split_at_byte c s) [ none ↦ s | some p ↦ p.0 ]

-- strings.ContainsRune and strings.IndexByte(…) >= 0 for one byte.
unfoldable pub has_byte : ℕ → Bytes → Bool
has_byte c [] = false
has_byte c (a ∷ s) = a == c || has_byte c s

abbrev pub Free : ℕ → Bytes → Type 0
Free c s = All (λ a. a ≢ c) s

pub has_byte-Free : (c : ℕ) (s : Bytes) → has_byte c s ≡ false → Free c s
unfolding has_byte
has_byte-Free c [] h = tt
has_byte-Free c (a ∷ s) h = (ground arith, has_byte-Free c s (ground arith))

pub Free-has_byte : (c : ℕ) (s : Bytes) → Free c s → has_byte c s ≡ false
unfolding has_byte
Free-has_byte c [] h = refl
Free-has_byte c (a ∷ s) h = ground (arith, Free-has_byte c s h.1, h.0)

-- strconv.Itoa for a number that is not negative. The fuel is the number itself.
unfoldable pub decimal_fuel : ℕ → ℕ → Bytes
decimal_fuel zero n = (48 + n % 10) ∷ []
decimal_fuel (suc f) n =
    let rest = decimal_fuel f (n / 10) ++ ((48 + n % 10) ∷ []) in
    if ltb n 10 then (48 + n) ∷ [] else rest

unfoldable pub decimal : ℕ → Bytes
unfolding decimal_fuel
decimal n = decimal_fuel n n

-- %d of an `int`.
abbrev pub port_text : ℤ → Bytes
port_text (pos n) = decimal n
port_text (negsuc n) = bytes "-" ++ decimal (n + 1)

-- strings.Join
unfoldable pub join : Bytes → List Bytes → Bytes
join sep [] = []
join sep (s ∷ []) = s
join sep (s ∷ t ∷ ss) = s ++ sep ++ join sep (t ∷ ss)

unfoldable pub hex_digit : ℕ → ℕ
hex_digit n = if ltb n 10 then b'0' + n else b'a' + (n - 10)

quote_byte : ℕ → Bytes
quote_byte c =
    if c == b'"' || c == b'\\'
    then b'\\' ∷ c ∷ []
    else if c == 7
    then bytes "\\a"
    else if c == 8
    then bytes "\\b"
    else if c == 9
    then bytes "\\t"
    else if c == 10
    then bytes "\\n"
    else if c == 11
    then bytes "\\v"
    else if c == 12
    then bytes "\\f"
    else if c == 13
    then bytes "\\r"
    else if ltb c 32 || c == 127
    then b'\\' ∷ b'x' ∷ hex_digit (c / 16) ∷ hex_digit (c % 16) ∷ []
    else c ∷ []

quote_bytes : Bytes → Bytes
quote_bytes [] = b'"' ∷ []
quote_bytes (c ∷ s) = quote_byte c ++ quote_bytes s

-- The verb %q, for text whose characters beyond ASCII are printable.
unfoldable pub quote : Bytes → Bytes
unfolding quote_bytes quote_byte hex_digit
quote s = b'"' ∷ quote_bytes s

-- What `has_prefix` and `contains` decide.
pub has_prefix_complete : (s p rest : Bytes) → s ≡ p ++ rest → has_prefix s p ≡ true
unfolding has_prefix
has_prefix_complete s [] rest e = refl
has_prefix_complete [] (b ∷ p) rest e = absurd (cc)
has_prefix_complete (a ∷ s) (b ∷ p) rest e = ground (arith, has_prefix_complete s p rest)

abbrev pub Contains : Bytes → Bytes → Type 0
Contains s p = (before : Bytes) × (behind : Bytes) × (s ≡ before ++ (p ++ behind))

pub contains_sound : (s p : Bytes) → contains s p ≡ true → Contains s p
unfolding contains
contains_sound [] [] h = ([], [], refl)
contains_sound [] (b ∷ p) h = absurd (cc)
contains_sound (a ∷ s) p h = elim (Bool-cases (has_prefix (a ∷ s) p)) [
  | inl here ↦ let (r, e) = has_prefix_sound (a ∷ s) p here in ([], r, e)
  | inr not_here ↦
      let (b, r, e) = contains_sound s p (ground arith) in (a ∷ b, r, ap (λ (t : Bytes). a ∷ t) e)
]

pub contains_complete :
    (s p before behind : Bytes) → s ≡ before ++ (p ++ behind) → contains s p ≡ true
unfolding contains
contains_complete [] [] before behind e = refl
contains_complete [] (b ∷ p) [] behind e = absurd (cc)
contains_complete [] (b ∷ p) (c ∷ before) behind e = absurd (cc)
contains_complete (a ∷ s) p [] behind e = rw (has_prefix_complete (a ∷ s) p behind e) refl
contains_complete (a ∷ s) p (c ∷ before) behind e =
    ground (arith, contains_complete s p before behind)

pub contains-false : (s p : Bytes) → contains s p ≡ false → ¬ Contains s p
contains-false s p h (b, r, e) = cc (contains_complete s p b r e)

pub not-Contains : (s p : Bytes) → ¬ Contains s p → contains s p ≡ false
not-Contains s p n = elim (Bool-cases (contains s p)) [
  | inl h ↦ absurd (n (contains_sound s p h))
  | inr h ↦ h
]

-- A switch with one case for some texts.
abbrev pub one_of : Bytes → List Bytes → Bool
one_of v xs = any (eq_bytes v) xs

abbrev pub OneOf : Bytes → List Bytes → Type 0
OneOf v [] = ⊥
OneOf v (x ∷ xs) = (v ≡ x) ⊎ OneOf v xs

pub one_of-OneOf : (v : Bytes) (xs : List Bytes) → one_of v xs ≡ true → OneOf v xs
one_of-OneOf v [] h = absurd (cc)
one_of-OneOf v (x ∷ xs) h = elim (Bool-cases (eq_bytes v x)) [
  | inl e ↦ inl (eq_bytes_sound v x e)
  | inr n ↦ inr (one_of-OneOf v xs (ground arith))
]

pub OneOf-one_of : (v : Bytes) (xs : List Bytes) → OneOf v xs → one_of v xs ≡ true
OneOf-one_of v [] h = absurd h
OneOf-one_of v (x ∷ xs) (inl e) = rw ((eq_bytes_iff v x).1 e) refl
OneOf-one_of v (x ∷ xs) (inr h) = ground (arith, OneOf-one_of v xs h)
