-- ===== src/Vector/EmbedLaws.antt =====
-- The TF-IDF embedder: its vectors have its dimension, and training counts documents.
use torvmremix.Base.{
  ℕ, zero, suc, ◌+◌, ◌%◌, ◌<◌, ◌≡◌, refl, sym, ap, subst, ◌∙◌, some, List, [], ◌∷◌, true, false, ok,
  length, replicate, ◌==◌, if◌then◌else◌, Bytes, eq_bytes, eq_bytes_refl, eq_bytes_sound, is_nil,
  map, one_of, arith, Bool-cases, inl, inr, All,
}
use torvmremix.Index.Tokens.{Unicode, Runes}
use torvmremix.Vector.Partial.{
  ◌>>=◌, for_each, Returns, Returns->>=, Returns-elim, Returns-for_each,
}
use torvmremix.Vector.HeapLaws.{get_elem?-below}
use torvmremix.Vector.Graph.{Floats}
use torvmremix.Vector.Links.{length-modify}
use torvmremix.Vector.Embed.{
  encode, hash_string_to_bucket, Tally, tallied, bump, count_terms, count_distinct, tokenize_simple,
  TfidfEmbedder, count_documents, train, add_weight, sum_squares, normalize, embed, Sized, Embedder,
}

eq_bytes_sym : (s t : Bytes) → eq_bytes s t ≡ false → eq_bytes t s ≡ false
eq_bytes_sym s t h = elim (Bool-cases (eq_bytes t s)) [
  | inl e ↦ absurd (
      let k = eq_bytes_sound t s e in
      ground (arith, subst (λ x. eq_bytes s x ≡ false) k h, eq_bytes_refl s))
  | inr e ↦ e
]

tallied-bump :
    (t w : Runes) (m : Tally) → tallied t (bump w m) ≡ (if eq_bytes t w then 1 else 0) + tallied t m
unfolding tallied bump
tallied-bump t w m = elim (Bool-cases (eq_bytes t w)) [
  | inl e ↦ ground (
    arith,
    subst (λ x. tallied x (bump w m) ≡ suc (tallied x m)) (sym (eq_bytes_sound t w e)) (same w m),
  )
  | inr e ↦ ground (arith, other m (eq_bytes_sym t w e))
]
  where
    same : (v : Runes) (n : Tally) → tallied v (bump v n) ≡ suc (tallied v n)
    same v [] = ground (arith, eq_bytes_refl v)
    same v (x ∷ n) = ground (arith, same v n)

    other : (n : Tally) → eq_bytes w t ≡ false → tallied t (bump w n) ≡ tallied t n
    other [] h = ground arith
    other (x ∷ n) h = elim (Bool-cases (eq_bytes x.0 w)) [
      | inl e ↦ ground (arith, subst (λ k. eq_bytes k t ≡ false) (sym (eq_bytes_sound x.0 w e)) h)
      | inr e ↦ ground (arith, other n h)
    ]

-- One for a term that is among some, and not among others.
abbrev is_new : Runes → List Runes → List Runes → ℕ
is_new t seen ts = if one_of t ts then (if one_of t seen then 0 else 1) else 0

like : (t w : Runes) (seen : List Runes) → eq_bytes t w ≡ true → one_of t seen ≡ one_of w seen
like t w seen e = ap (λ x. one_of x seen) (eq_bytes_sound t w e)

is_new-seen :
    (t w : Runes) (seen ts : List Runes)
    → one_of w seen ≡ true
    → is_new t seen (w ∷ ts) ≡ is_new t seen ts
is_new-seen t w seen ts h = ground (arith, like t w seen)

is_new-first :
    (t w : Runes) (seen ts : List Runes)
    → one_of w seen ≡ false
    → is_new t seen (w ∷ ts) ≡ is_new t (w ∷ seen) ts + (if eq_bytes t w then 1 else 0)
is_new-first t w seen ts h = ground (arith, like t w seen)

is_new-all : (t : Runes) (ts : List Runes) → is_new t [] ts ≡ (if one_of t ts then 1 else 0)
is_new-all t ts = ground arith

tallied-count_distinct :
    (t : Runes) (seen ts : List Runes) (m : Tally)
    → tallied t (count_distinct seen ts m) ≡ is_new t seen ts + tallied t m
unfolding count_distinct
tallied-count_distinct t seen [] m = omega arith
tallied-count_distinct t seen (w ∷ ts) m = elim (Bool-cases (one_of w seen)) [
  | inl e ↦ rw e (omega (arith, tallied-count_distinct t seen ts m, is_new-seen t w seen ts e))
  | inr e ↦ rw e (
      omega (
        arith,
        tallied-count_distinct t (w ∷ seen) ts (bump w m),
        tallied-bump t w m,
        is_new-first t w seen ts e,
      ))
]

-- In how many of some texts a term stands.
unfoldable pub documents_with : (u : Unicode) → (Bytes → Runes) → Runes → List Bytes → ℕ
unfolding tokenize_simple
documents_with u decode t [] = 0
documents_with u decode t (doc ∷ docs) =
    (if one_of t (tokenize_simple u decode doc) then 1 else 0) + documents_with u decode t docs

-- After Train, the count of a term is the number of documents that it stands in, whatever the
-- embedder was trained with before.
pub train-documents_with :
    (u : Unicode) (decode : Bytes → Runes) (e : TfidfEmbedder u decode) (docs : List Bytes)
    (t : Runes)
    → tallied t (train u decode e docs).doc_freq ≡ documents_with u decode t docs
unfolding train count_documents documents_with tallied
train-documents_with u decode e docs t = omega (arith, go docs [])
  where
    go :
        (ds : List Bytes) (m : Tally)
        → tallied t (count_documents u decode ds m) ≡ documents_with u decode t ds + tallied t m
    go [] m = omega arith
    go (doc ∷ ds) m = omega (
      arith,
      go ds (count_distinct [] (tokenize_simple u decode doc) m),
      tallied-count_distinct t [] (tokenize_simple u decode doc) m,
      is_new-all t (tokenize_simple u decode doc),
    )

-- The embedder of the source as an Embedder.
module _ (u : Unicode) (decode : Bytes → Runes) (fl : Floats) (tf : ℕ → fl.Float32)
    (idf : ℕ → ℕ → fl.Float32) (arrange : Tally → Tally) (e : TfidfEmbedder u decode)
    (wide : 0 < e.dimension) (narrow : e.dimension < 4294967296) where
  abbrev OfDimension : List fl.Float32 → Type 0
  OfDimension v = length v ≡ e.dimension

  bucket-below : (s : Bytes) → Returns (λ b. b < e.dimension) (hash_string_to_bucket s e.dimension)
  unfolding hash_string_to_bucket
  bucket-below s =
      let m : e.dimension % 4294967296 ≡ e.dimension = omega arith in
      let z : (e.dimension == 0) ≡ false = ground arith in rw (m, z) (grind arith)

  add_weight-OfDimension :
      (entry : Runes × ℕ) (v : List fl.Float32)
      → OfDimension v
      → Returns OfDimension (add_weight u decode fl tf idf arrange e entry v)
  unfolding add_weight
  add_weight-OfDimension entry v h =
      Returns->>= (λ b. b < e.dimension) OfDimension
        (hash_string_to_bucket (encode entry.0) e.dimension) _ (bucket-below (encode entry.0))
        (λ b p. let (x, k) = get_elem?-below v b (omega arith) in rw k (length-modify b _ v ∙ h))

  All-unit : {A : Type 0} (xs : List A) → All (λ _. Unit {0}) xs
  All-unit [] = tt
  All-unit (x ∷ xs) = (tt, All-unit xs)

  length-map : {A B : Type 0} (f : A → B) (xs : List A) → length (map f xs) ≡ length xs
  length-map f [] = refl
  length-map f (x ∷ xs) = ap suc (length-map f xs)

  length-replicate : {A : Type 0} (n : ℕ) (x : A) → length (replicate n x) ≡ n
  length-replicate zero x = refl
  length-replicate (suc n) x = ap suc (length-replicate n x)

  normalize-OfDimension :
      (v : List fl.Float32) → OfDimension v → OfDimension (normalize u decode fl tf idf arrange v)
  unfolding normalize
  normalize-OfDimension v h =
      elim (Bool-cases
        (fl.is_zero_float (sum_squares u decode fl tf idf arrange v fl.zero_float))) [
          | inl z ↦ rw z h
          | inr z ↦ rw z (length-map _ v ∙ h)
        ]

  -- Embed returns a vector of the dimension, whatever the text and the order of the map.
  pub embed-OfDimension :
      (text : Bytes) → Returns OfDimension (embed u decode fl tf idf arrange e text)
  unfolding embed
  embed-OfDimension text =
      let terms = tokenize_simple u decode text in
      let start = replicate e.dimension fl.zero_float in
      let counts = arrange (count_terms terms []) in
      Returns-elim OfDimension (is_nil terms) _ _
        (λ none_there. length-replicate e.dimension fl.zero_float)
        (λ some_there.
          Returns->>= OfDimension OfDimension
            (for_each (add_weight u decode fl tf idf arrange e) counts start) _
            (Returns-for_each (λ _. Unit) OfDimension (add_weight u decode fl tf idf arrange e)
              (λ entry v _ h. add_weight-OfDimension entry v h) counts start (All-unit counts)
              (length-replicate e.dimension fl.zero_float))
            (λ v h. normalize-OfDimension v h))

  -- The embedder, which has no errors of its own.
  unfoldable pub tfidf : Embedder fl
  tfidf = record {
    Error = ⊥;
    dimension = e.dimension;
    embed_text = λ text. embed u decode fl tf idf arrange e text >>= λ v. some (ok v);
    embed_text_sized = λ text.
        Returns->>= OfDimension (Sized e.dimension) (embed u decode fl tf idf arrange e text) _
          (embed-OfDimension text) (λ v h. h);
  }
