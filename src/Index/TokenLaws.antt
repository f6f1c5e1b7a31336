-- ===== src/Index/TokenLaws.antt =====
-- The terms that Tokenize of controller/internal/index/tokenizer.go gives.
use torvmremix.Base.{
  ◌≤◌, ◌≡◌, refl, Bool, true, false, ◌||◌, List, [], ◌∷◌, All, ltb, Bytes, one_of, eq_bytes,
  eq_bytes_refl, eq_bytes_sound, ||-false, Bool-cases, inl, inr, if◌then◌else◌, arith, ap,
}
use torvmremix.Index.Tokens.{
  Unicode, Runes, byte_length, stop_words, fields_func, is_separator, normalize, is_skipped,
  collect_terms, tokenize,
}

-- No text stands twice in the list.
abbrev pub Distinct : List Runes → Type 0
Distinct [] = Unit
Distinct (t ∷ ts) = (one_of t ts ≡ false) × Distinct ts

-- A term that the index takes: three bytes at least, and no stop word.
abbrev pub IsTerm : Runes → Type 0
IsTerm t = (3 ≤ byte_length t) × (one_of t stop_words ≡ false)

eq-flip : (s t : Runes) → eq_bytes s t ≡ false → eq_bytes t s ≡ false
eq-flip s t h = elim (Bool-cases (eq_bytes t s)) [
  | inl e ↦ absurd (cc (h, eq_bytes_refl s, ap (λ v. eq_bytes s v) (eq_bytes_sound t s e)))
  | inr n ↦ n
]

unseen-cons :
    (seen : List Runes) (t : Runes) (rest : List Runes)
    → one_of t seen ≡ false
    → All (λ s. one_of s rest ≡ false) seen
    → All (λ s. one_of s (t ∷ rest) ≡ false) seen
unseen-cons [] t rest h k = tt
unseen-cons (s ∷ seen) t rest h k =
    let (a, b) = ||-false (eq_bytes t s) (one_of t seen) h in
    (ground (arith, eq-flip t s a, k.0), unseen-cons seen t rest b k.1)

module _ (u : Unicode) where
  -- What the loop gives beyond the terms already seen.
  record Fresh (seen ts : List Runes) : Type 0 where
    terms : All IsTerm ts
    distinct : Distinct ts
    unseen : All (λ s. one_of s ts ≡ false) seen

  none-Fresh : (seen : List Runes) → Fresh seen []
  none-Fresh seen = record { terms = tt; distinct = tt; unseen = go seen }
    where
      go : (ss : List Runes) → All (λ s. one_of s [] ≡ false) ss
      go [] = tt
      go (s ∷ ss) = (refl, go ss)

  cons-Fresh :
      (seen : List Runes) (t : Runes) (ts : List Runes)
      → is_skipped u seen t ≡ false
      → Fresh (t ∷ seen) ts
      → Fresh seen (t ∷ ts)
  unfolding is_skipped
  cons-Fresh seen t ts h w =
      let (a, b) = ||-false (ltb (byte_length t) 3 || one_of t stop_words) (one_of t seen) h in
      let (c, d) = ||-false (ltb (byte_length t) 3) (one_of t stop_words) a in
      record {
        terms = ((ground (arith, c), d), w.terms);
        distinct = (w.unseen.0, w.distinct);
        unseen = unseen-cons seen t ts b w.unseen.1;
      }

  collect-Fresh : (seen ws : List Runes) → Fresh seen (collect_terms u seen ws)
  unfolding collect_terms
  collect-Fresh seen [] = none-Fresh seen
  collect-Fresh seen (w ∷ ws) =
      go (is_skipped u seen (normalize u w)) refl (collect-Fresh seen ws)
        (collect-Fresh (normalize u w ∷ seen) ws)
    where
      go :
          (b : Bool)
          → is_skipped u seen (normalize u w) ≡ b
          → Fresh seen (collect_terms u seen ws)
          → Fresh (normalize u w ∷ seen) (collect_terms u (normalize u w ∷ seen) ws)
          → Fresh seen (
              if b
              then collect_terms u (if b then seen else normalize u w ∷ seen) ws
              else normalize u w ∷ collect_terms u (if b then seen else normalize u w ∷ seen) ws)
      go true e x y = x
      go false e x y = cons-Fresh seen (normalize u w) _ e y

-- Tokenize gives terms of three bytes at least that are no stop words, none of them twice.
pub tokenize-Distinct :
    (u : Unicode) (text : Bytes) → All IsTerm (tokenize u text) × Distinct (tokenize u text)
unfolding tokenize
tokenize-Distinct u text =
    let w = collect-Fresh u [] (fields_func (is_separator u) [] (u.nfd text)) in
    (w.terms, w.distinct)
