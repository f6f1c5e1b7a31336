-- ===== src/Vector/Embed.antt =====
-- controller/internal/vectorindex/embedder.go and embedder_tfidf.go: texts as vectors.
--
-- The order in which Go ranges over a map, the decoding of UTF-8 and the logarithms are parameters,
-- with no hypothesis. A term is its code points.
use Prim.Native.Nat.{bit_xor}
use torvmremix.Base.{
  ℕ, ◌≡◌, ◌+◌, ◌*◌, ◌/◌, ◌%◌, Option, none, some, List, [], ◌∷◌, ◌++◌, Bool, true, false, Result,
  ok, err, length, get_elem?, replicate, leb, ltb, ◌==◌, if◌then◌else◌, Bytes, eq_bytes, is_nil,
  map, one_of,
}
use torvmremix.Index.Tokens.{Unicode, Runes, byte_length, fields_func, is_separator}
use torvmremix.Vector.Partial.{◌>>=◌, for_each, Returns}
use torvmremix.Vector.Graph.{Floats, modify}

abbrev pub filter : (Runes → Bool) → List Runes → List Runes
filter p [] = []
filter p (w ∷ ws) = let rest = filter p ws in if p w then w ∷ rest else rest

-- A character in UTF-8.
abbrev pub encode_rune : ℕ → Bytes
encode_rune c =
    if ltb c 0x80
    then c ∷ []
    else if ltb c 0x800
    then (0xc0 + c / 64) ∷ (0x80 + c % 64) ∷ []
    else if ltb c 0x10000
    then (0xe0 + c / 4096) ∷ (0x80 + (c / 64) % 64) ∷ (0x80 + c % 64) ∷ []
    else (0xf0 + c / 262144)
      ∷ (0x80 + (c / 4096) % 64)
      ∷ (0x80 + (c / 64) % 64)
      ∷ (0x80 + c % 64)
      ∷ []

unfoldable pub encode : Runes → Bytes
encode [] = []
encode (c ∷ s) = encode_rune c ++ encode s

-- The loop of FNV-1a.
unfoldable pub fnv : Bytes → ℕ → ℕ
fnv [] h = h
fnv (b ∷ s) h = fnv s ((bit_xor h b * 16777619) % 4294967296)

-- hashStringToBucket; the rest by zero panics.
unfoldable pub hash_string_to_bucket : Bytes → ℕ → Option ℕ
unfolding fnv
hash_string_to_bucket s buckets =
    let n = buckets % 4294967296 in if n == 0 then none else some (fnv s 2166136261 % n)

-- A `map[string]int`, and `m[term]++`.
abbrev pub Tally : Type 0
Tally = List (Runes × ℕ)

unfoldable pub tallied : Runes → Tally → ℕ
tallied t [] = 0
tallied t (e ∷ m) = if eq_bytes e.0 t then e.1 else tallied t m

unfoldable pub bump : Runes → Tally → Tally
bump t [] = (t, 1) ∷ []
bump t (e ∷ m) = let rest = bump t m in if eq_bytes e.0 t then (e.0, e.1 + 1) ∷ m else e ∷ rest

unfoldable pub count_terms : List Runes → Tally → Tally
count_terms [] m = m
count_terms (t ∷ ts) m = count_terms ts (bump t m)

-- The loop of Train over one document: `seen` holds its terms so far.
unfoldable pub count_distinct : List Runes → List Runes → Tally → Tally
count_distinct seen [] m = m
count_distinct seen (t ∷ ts) m =
    count_distinct (if one_of t seen then seen else t ∷ seen) ts
      (if one_of t seen then m else bump t m)

module _ (u : Unicode) (decode : Bytes → Runes) where
  unfoldable pub tokenize_simple : Bytes → List Runes
  tokenize_simple text =
      filter (λ w. leb 2 (byte_length w))
        (map (map u.lower) (fields_func (is_separator u) [] (decode text)))

  pub record TfidfEmbedder : Type 0 where
    pub dimension : ℕ
    pub doc_freq : Tally
    pub doc_count : ℕ
    pub trained : Bool

  unfoldable pub new_tfidf_embedder : ℕ → TfidfEmbedder
  new_tfidf_embedder d = record { dimension = d; doc_freq = []; doc_count = 0; trained = false }

  unfoldable pub count_documents : List Bytes → Tally → Tally
  unfolding count_distinct tokenize_simple
  count_documents [] m = m
  count_documents (doc ∷ docs) m = count_documents docs (count_distinct [] (tokenize_simple doc) m)

  unfoldable pub train : TfidfEmbedder → List Bytes → TfidfEmbedder
  unfolding count_documents
  train e docs = record e {
    doc_freq = count_documents docs [];
    doc_count = length docs;
    trained = true;
  }

  -- `tf` is float32(math.Log(1 + float64(count))), and `idf` is
  -- float32(math.Log(1 + float64(n)/float64(1+df))). `arrange` is the order of the map's entries.
  module _ (fl : Floats) (tf : ℕ → fl.Float32) (idf : ℕ → ℕ → fl.Float32)
      (arrange : Tally → Tally) where
    abbrev term_weight : TfidfEmbedder → Runes × ℕ → fl.Float32
    term_weight e entry =
        fl.mul (tf entry.1)
          (idf (if e.doc_count == 0 then 1 else e.doc_count) (tallied entry.0 e.doc_freq))

    unfoldable pub add_weight :
        TfidfEmbedder → Runes × ℕ → List fl.Float32 → Option (List fl.Float32)
    unfolding hash_string_to_bucket tallied encode
    add_weight e entry vec = hash_string_to_bucket (encode entry.0) e.dimension >>= λ bucket.
        get_elem? vec bucket >>= λ _. some (modify bucket (λ x. fl.add x (term_weight e entry)) vec)

    unfoldable pub sum_squares : List fl.Float32 → fl.Float32 → fl.Float32
    sum_squares [] s = s
    sum_squares (x ∷ xs) s = sum_squares xs (fl.add s (fl.mul x x))

    unfoldable pub normalize : List fl.Float32 → List fl.Float32
    unfolding sum_squares
    normalize v =
        let sum = sum_squares v fl.zero_float in
        if fl.is_zero_float sum then v else map (λ x. fl.div x (fl.root sum)) v

    unfoldable pub embed : TfidfEmbedder → Bytes → Option (List fl.Float32)
    unfolding add_weight normalize count_terms bump tokenize_simple
    embed e text =
        let vec = replicate e.dimension fl.zero_float in
        let terms = tokenize_simple text in
        elim (is_nil terms) [
          | true ↦ some vec
          | false ↦ for_each (add_weight e) (arrange (count_terms terms [])) vec >>= λ v.
              some (normalize v)
        ]

-- What an embedder gives: a vector of its dimension, or an error of its own.
abbrev pub Sized : {E F : Type 0} → ℕ → Result E (List F) → Type 0
Sized d (err e) = Unit
Sized d (ok v) = length v ≡ d

-- The interface Embedder, without Close, with what the index relies on.
pub record Embedder (fl : Floats) : Type 1 where
  pub Error : Type 0
  pub dimension : ℕ
  pub embed_text : Bytes → Option (Result Error (List fl.Float32))
  pub embed_text_sized : (text : Bytes) → Returns (Sized dimension) (embed_text text)
