-- ===== src/Tor/Directives.antt =====
-- parseTorrcOverlay of controller/internal/lifecycle/lifecycle.go: the overlay as a Go map for SETCONF.
-- A map is a list of its entries, each key once.
use torvmremix.Base.{
  ℕ, ◌++◌, append_assoc, Free, All, Visible, trim_space-Visible, split-Free-cons, ◌≡◌, refl, ◌∙◌,
  ap, sym, subst, true, false, Option, none, some, List, [], ◌∷◌, Bytes, is_nil, eq_bytes,
  eq_bytes_sound, split, split_at_byte, trim_space, if◌then◌else◌, Bool-cases, inl, inr, arith,
}

abbrev pub Directives : Type 0
Directives = List (Bytes × Bytes)

unfoldable pub lookup : Bytes → Directives → Option Bytes
lookup k [] = none
lookup k (e ∷ m) = if eq_bytes e.0 k then some e.1 else lookup k m

-- m[k] = v
unfoldable pub insert : Bytes → Bytes → Directives → Directives
insert k v [] = (k, v) ∷ []
insert k v (e ∷ m) = let rest = insert k v m in if eq_bytes e.0 k then (k, v) ∷ m else e ∷ rest

-- A line cut at its first space.
unfoldable pub directive_of : Bytes → Bytes × Bytes
directive_of line = elim (split_at_byte 32 line) [ none ↦ (line, []) | some p ↦ p ]

-- The loop over the lines.
unfoldable pub read_lines : Directives → List Bytes → Directives
read_lines m [] = m
read_lines m (l ∷ ls) =
    let line = trim_space l in
    read_lines (if is_nil line then m else insert (directive_of line).0 (directive_of line).1 m) ls

unfoldable pub parse_torrc_overlay : Bytes → Directives
parse_torrc_overlay overlay = read_lines [] (split 10 overlay)

-- The directives of a text in their order, a key as often as it stands there.
unfoldable pub directives : List Bytes → Directives
directives [] = []
directives (l ∷ ls) =
    let rest = directives ls in
    if is_nil (trim_space l) then rest else directive_of (trim_space l) ∷ rest

abbrev pub or_else : Option Bytes → Option Bytes → Option Bytes
or_else (some v) r = some v
or_else none r = r

-- The value of the last entry of a key.
unfoldable pub last_value : Bytes → Directives → Option Bytes
last_value k [] = none
last_value k (e ∷ m) = or_else (last_value k m) (if eq_bytes e.0 k then some e.1 else none)

pub lookup-insert :
    (k k' v : Bytes) (m : Directives)
    → lookup k (insert k' v m) ≡ (if eq_bytes k' k then some v else lookup k m)
unfolding lookup insert
lookup-insert k k' v [] = refl
lookup-insert k k' v (e ∷ m) = elim (Bool-cases (eq_bytes e.0 k')) [
  | inl h ↦
      let same : eq_bytes k' k ≡ eq_bytes e.0 k =
        ap (λ b. eq_bytes b k) (sym (eq_bytes_sound e.0 k' h)) in
      ground (arith, same)
  | inr h ↦ elim (Bool-cases (eq_bytes e.0 k)) [
    | inl q ↦
        let other : eq_bytes k' k ≡ false = differs k' e.0 k h q in
        ground (arith, other, lookup-insert k k' v m)
    | inr q ↦ ground (arith, lookup-insert k k' v m)
  ]
]
  where
    differs : (a b c : Bytes) → eq_bytes b a ≡ false → eq_bytes b c ≡ true → eq_bytes a c ≡ false
    differs a b c h q = elim (Bool-cases (eq_bytes a c)) [
      | inl r ↦ absurd (cc (h, subst (λ d. eq_bytes b d ≡ true) (sym (eq_bytes_sound a c r)) q))
      | inr r ↦ r
    ]

read_lines-lookup :
    (k : Bytes) (m : Directives) (ls : List Bytes)
    → lookup k (read_lines m ls) ≡ or_else (last_value k (directives ls)) (lookup k m)
unfolding read_lines last_value directives
read_lines-lookup k m [] = refl
read_lines-lookup k m (l ∷ ls) = elim (Bool-cases (is_nil (trim_space l))) [
  | inl h ↦ rw h (read_lines-lookup k m ls)
  | inr h ↦ rw h (
      read_lines-lookup k (insert (directive_of (trim_space l)).0 (directive_of (trim_space l)).1 m)
        ls
      ∙ fall_back (last_value k (directives ls))
          (lookup-insert k (directive_of (trim_space l)).0 (directive_of (trim_space l)).1 m))
]
  where
    d : Bytes × Bytes
    d = directive_of (trim_space l)

    fall_back :
        (r : Option Bytes)
        → lookup k (insert d.0 d.1 m) ≡ (if eq_bytes d.0 k then some d.1 else lookup k m)
        → or_else r (lookup k (insert d.0 d.1 m))
          ≡ or_else (or_else r (if eq_bytes d.0 k then some d.1 else none)) (lookup k m)
    fall_back (some v) e = refl
    fall_back none e = ground (arith, e)

-- A key begins with a visible character and has no space; a value ends with a visible character.
-- Neither has a newline.
abbrev pub IsKey : Bytes → Type 0
IsKey [] = ⊥
IsKey (c ∷ s) = Visible c × Free 32 (c ∷ s) × Free 10 (c ∷ s)

abbrev pub IsValue : Bytes → Type 0
IsValue v = (u : Bytes) × (d : ℕ) × (v ≡ u ++ (d ∷ [])) × Visible d × Free 10 v

abbrev pub IsEntry : Bytes × Bytes → Type 0
IsEntry e = IsKey e.0 × IsValue e.1

abbrev pub written_line : Bytes × Bytes → Bytes
written_line e = e.0 ++ (32 ∷ e.1)

-- The text of a torrc: each key, a space, its value and a newline.
unfoldable pub torrc_of : Directives → Bytes
torrc_of [] = []
torrc_of (e ∷ m) = written_line e ++ (10 ∷ torrc_of m)

Free-append : (c : ℕ) (s t : Bytes) → Free c s → Free c t → Free c (s ++ t)
Free-append c [] t h k = k
Free-append c (a ∷ s) t h k = (h.0, Free-append c s t h.1 k)

split-key : (s rest : Bytes) → Free 32 s → split_at_byte 32 (s ++ (32 ∷ rest)) ≡ some (s, rest)
unfolding split_at_byte
split-key [] rest h = refl
split-key (c ∷ s) rest h = rw (split-key s rest h.1) (ground (arith, h.0))

trim-written : (e : Bytes × Bytes) → IsEntry e → trim_space (written_line e) ≡ written_line e
trim-written ([], v) (k, n) = absurd k
trim-written (c ∷ s, v) (k, (u, d, q, w, n)) =
    trim_space-Visible c d (s ++ (32 ∷ v)) ((c ∷ s) ++ (32 ∷ u))
      (ap (λ x. (c ∷ s) ++ (32 ∷ x)) q ∙ sym (append_assoc (c ∷ s) (32 ∷ u) (d ∷ []))) k.0 w

line-Free : (e : Bytes × Bytes) → IsEntry e → Free 10 (written_line e)
line-Free ([], v) (k, n) = absurd k
line-Free (c ∷ s, v) (k, (u, d, q, w, n)) = Free-append 10 (c ∷ s) (32 ∷ v) k.2 (omega arith, n)

read_back : (e : Bytes × Bytes) → IsEntry e → directive_of (written_line e) ≡ e
unfolding directive_of
read_back ([], v) (k, n) = absurd k
read_back (c ∷ s, v) (k, n) =
    ap (λ r. elim r [ none ↦ (written_line (c ∷ s, v), []) | some p ↦ p ]) (split-key (c ∷ s) v k.1)

filled_line : (e : Bytes × Bytes) → is_nil (written_line e) ≡ false
filled_line ([], v) = refl
filled_line (c ∷ s, v) = refl

directives-torrc_of : (m : Directives) → All IsEntry m → directives (split 10 (torrc_of m)) ≡ m
unfolding directives torrc_of split trim_space
directives-torrc_of [] h = refl
directives-torrc_of (e ∷ m) h =
    ap directives (split-Free-cons 10 (written_line e) (torrc_of m) (line-Free e h.0))
    ∙ rw (trim-written e h.0, filled_line e, read_back e h.0)
        (ap (λ r. e ∷ r) (directives-torrc_of m h.1))

-- Of a torrc that was written line by line, each line a key that begins with a visible character and
-- has no space, a space, and a value that ends with a visible character, neither with a newline, the map
-- for SETCONF holds for every key the value that was written for it last, and nothing for a key that was
-- not written: of several lines with one key, such as the Bridge lines, all but the last are lost.
pub parse_torrc_overlay-torrc_of :
    (m : Directives) (k : Bytes)
    → All IsEntry m
    → lookup k (parse_torrc_overlay (torrc_of m)) ≡ last_value k m
unfolding parse_torrc_overlay lookup
parse_torrc_overlay-torrc_of m k h =
    read_lines-lookup k [] (split 10 (torrc_of m))
    ∙ same (last_value k (directives (split 10 (torrc_of m))))
    ∙ ap (last_value k) (directives-torrc_of m h)
  where
    same : (r : Option Bytes) → or_else r none ≡ r
    same (some v) = refl
    same none = refl
