-- ===== src/Base/Space.antt =====
-- White space, and the functions of `strings` that cut a text: TrimSpace, Split and ToLower.
use Prim.Native.Nat.{ℕ, zero, suc, ◌+◌, ◌<◌}
use mathlib.Core.Path.{◌≡◌, refl, ap, sym, ◌∙◌}
use mathlib.Core.Bool.{Bool, true, false, ◌&&◌, ◌||◌}
use mathlib.Core.List.{List, [], ◌∷◌, ◌++◌, reverse, map, reverse-append, reverse-reverse}
use native.Mathlib.Omega.{arith}
use torvmremix.Base.Tests.{leb, ◌==◌, if◌then◌else◌}
use torvmremix.Base.Lists.{length, drop, all}
use torvmremix.Base.Text.{Bytes, has_prefix, Free}

-- The characters that unicode.IsSpace holds of, in UTF-8.
abbrev pub white_space : List Bytes
white_space =
    (9 ∷ [])
    ∷ (10 ∷ [])
    ∷ (11 ∷ [])
    ∷ (12 ∷ [])
    ∷ (13 ∷ [])
    ∷ (32 ∷ [])
    ∷ (0xc2 ∷ 0x85 ∷ [])
    ∷ (0xc2 ∷ 0xa0 ∷ [])
    ∷ (0xe1 ∷ 0x9a ∷ 0x80 ∷ [])
    ∷ (0xe2 ∷ 0x80 ∷ 0x80 ∷ [])
    ∷ (0xe2 ∷ 0x80 ∷ 0x81 ∷ [])
    ∷ (0xe2 ∷ 0x80 ∷ 0x82 ∷ [])
    ∷ (0xe2 ∷ 0x80 ∷ 0x83 ∷ [])
    ∷ (0xe2 ∷ 0x80 ∷ 0x84 ∷ [])
    ∷ (0xe2 ∷ 0x80 ∷ 0x85 ∷ [])
    ∷ (0xe2 ∷ 0x80 ∷ 0x86 ∷ [])
    ∷ (0xe2 ∷ 0x80 ∷ 0x87 ∷ [])
    ∷ (0xe2 ∷ 0x80 ∷ 0x88 ∷ [])
    ∷ (0xe2 ∷ 0x80 ∷ 0x89 ∷ [])
    ∷ (0xe2 ∷ 0x80 ∷ 0x8a ∷ [])
    ∷ (0xe2 ∷ 0x80 ∷ 0xa8 ∷ [])
    ∷ (0xe2 ∷ 0x80 ∷ 0xa9 ∷ [])
    ∷ (0xe2 ∷ 0x80 ∷ 0xaf ∷ [])
    ∷ (0xe2 ∷ 0x81 ∷ 0x9f ∷ [])
    ∷ (0xe3 ∷ 0x80 ∷ 0x80 ∷ [])
    ∷ []

-- How many bytes the first of some texts takes that stands at the head of `s`; 0 if none does.
unfoldable pub prefix_length : List Bytes → Bytes → ℕ
prefix_length [] s = 0
prefix_length (p ∷ ps) s = if has_prefix s p then length p else prefix_length ps s

strip : ℕ → List Bytes → Bytes → Bytes
strip zero ps s = s
strip (suc f) ps s =
    let n = prefix_length ps s in let rest = strip f ps (drop n s) in if n == 0 then s else rest

-- strings.TrimSpace
unfoldable pub trim_space : Bytes → Bytes
unfolding strip prefix_length has_prefix
trim_space s =
    let t = strip (length s) white_space s in
    reverse (strip (length t) (map reverse white_space) (reverse t))

-- A byte before the first of the parts of a split, or a separator before them.
abbrev pub split_step : Bool → ℕ → List Bytes → List Bytes
split_step true a parts = [] ∷ parts
split_step false a [] = (a ∷ []) ∷ []
split_step false a (p ∷ parts) = (a ∷ p) ∷ parts

-- strings.Split by one byte.
unfoldable pub split : ℕ → Bytes → List Bytes
split c [] = [] ∷ []
split c (a ∷ s) = split_step (a == c) a (split c s)

-- strings.ToLower on ASCII.
unfoldable pub to_lower : Bytes → Bytes
to_lower [] = []
to_lower (c ∷ s) = (if leb b'A' c && leb c b'Z' then c + 32 else c) ∷ to_lower s

-- strings.TrimLeftFunc by unicode.IsSpace.
unfoldable pub trim_left : Bytes → Bytes
unfolding strip prefix_length has_prefix
trim_left s = strip (length s) white_space s

-- A character of ASCII that is seen.
abbrev pub Visible : ℕ → Type 0
Visible c = (32 < c) × (c < 127)

-- No visible character stands at the head of the text.
abbrev blank_head : Bytes → Bool
blank_head [] = false
blank_head (a ∷ p) = leb a 32 || leb 127 a

prefix_length-blank :
    (ps : List Bytes) (c : ℕ) (s : Bytes)
    → all blank_head ps ≡ true
    → Visible c
    → prefix_length ps (c ∷ s) ≡ 0
unfolding prefix_length has_prefix
prefix_length-blank [] c s h v = refl
prefix_length-blank ([] ∷ ps) c s h v = absurd (cc)
prefix_length-blank ((a ∷ p) ∷ ps) c s h v =
    ground (arith, prefix_length-blank ps c s (ground arith) v, v.0, v.1)

strip-blank :
    (f : ℕ) (ps : List Bytes) (c : ℕ) (s : Bytes)
    → all blank_head ps ≡ true
    → Visible c
    → strip f ps (c ∷ s) ≡ c ∷ s
unfolding strip
strip-blank zero ps c s h v = refl
strip-blank (suc f) ps c s h v = rw (prefix_length-blank ps c s h v) refl

-- TrimSpace leaves a text alone that begins and ends with a visible character.
pub trim_space-Visible :
    (c d : ℕ) (s u : Bytes)
    → c ∷ s ≡ u ++ (d ∷ [])
    → Visible c
    → Visible d
    → trim_space (c ∷ s) ≡ c ∷ s
unfolding trim_space
trim_space-Visible c d s u e v w = rw (strip-blank (length (c ∷ s)) white_space c s refl v) (
    ap reverse (
      ap (strip (length (c ∷ s)) (map reverse white_space)) turned
      ∙ strip-blank (length (c ∷ s)) (map reverse white_space) d (reverse u) refl w
      ∙ sym turned)
    ∙ reverse-reverse (c ∷ s))
  where
    turned : reverse (c ∷ s) ≡ d ∷ reverse u
    turned = ap reverse e ∙ reverse-append u (d ∷ [])

pub trim_left-Visible : (c : ℕ) (s : Bytes) → Visible c → trim_left (c ∷ s) ≡ c ∷ s
unfolding trim_left
trim_left-Visible c s v = strip-blank (length (c ∷ s)) white_space c s refl v

-- A part that does not hold the separator is the first of the split, or the only one.
pub split-Free-cons :
    (c : ℕ) (l rest : Bytes) → Free c l → split c (l ++ (c ∷ rest)) ≡ l ∷ split c rest
unfolding split
split-Free-cons c [] rest h = let same : c == c ≡ true = ground arith in rw same refl
split-Free-cons c (a ∷ l) rest h =
    let other : a == c ≡ false = ground (arith, h.0) in
    rw (other, split-Free-cons c l rest h.1) refl

pub split-Free : (c : ℕ) (l : Bytes) → Free c l → split c l ≡ l ∷ []
unfolding split
split-Free c [] h = refl
split-Free c (a ∷ l) h =
    let other : a == c ≡ false = ground (arith, h.0) in rw (other, split-Free c l h.1) refl
