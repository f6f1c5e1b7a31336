-- ===== src/Vector/Replies.antt =====
-- What a search of the vector index answers.
use mathlib.Core.Option.{some-injective}
use torvmremix.Base.{
  ℕ, suc, ◌<◌, ◌≤◌, ◌≡◌, refl, ap, ◌∙◌, Option, none, some, List, [], ◌∷◌, true, not, ◌||◌, Result,
  ok, err, length, leb, get_elem?, Bytes, is_nil, map, pos, arith, Bool-cases, inl, inr, All,
}
use torvmremix.Index.Inverted.{lookup}
use torvmremix.Vector.Partial.{◌>>=◌, Returns, Returns->>=, Returns-elim, Returns-some}
use torvmremix.Vector.HeapLaws.{Among, get_elem?-below}
use torvmremix.Vector.Descent.{Order}
use torvmremix.Vector.Graph.{Floats, HnswNode}
use torvmremix.Vector.Insert.{SearchHit, search_knn}
use torvmremix.Vector.Embed.{Embedder, Sized}
use torvmremix.Vector.Answers.{hit_ids, Answer, search_knn-Answered}
use torvmremix.Vector.Index.{DocRef, VectorIndex, with_doc_id, search}
use torvmremix.Vector.IndexLaws.{Holds}

-- The hits of a search over some documents: at most `k`, each with the number of one of them, and
-- some, if any is asked for and there is any.
pub record Known (fl : Floats) (past : List DocRef) (k : ℕ) (hits : List (SearchHit fl))
    : Type 0 where
  pub most : length hits ≤ k
  pub known :
      All (λ x. (n : ℕ) × (ref : DocRef) × (get_elem? past n ≡ some ref) × (x.id ≡ ref.doc_id)) hits
  pub found : 0 < k → 0 < length past → 0 < length hits

-- The answer of Search.
abbrev pub Reply :
    (fl : Floats) (em : Embedder fl)
    → List DocRef
    → Bytes
    → ℕ
    → Result em.Error (List (SearchHit fl))
    → Type 0
Reply fl em past query k (err e) = em.embed_text query ≡ some (err e)
Reply fl em past query k (ok hits) = Known fl past k hits

with_doc_id-known :
    (fl : Floats) (em : Embedder fl) (past : List DocRef) (vi : VectorIndex fl em)
    (hit : SearchHit fl)
    → Holds fl em past vi
    → hit.id < length vi.hnsw.nodes
    → (n : ℕ) × (ref : DocRef) × (get_elem? past n ≡ some ref)
      × ((with_doc_id fl em vi.docs hit).id ≡ ref.doc_id)
unfolding with_doc_id
with_doc_id-known fl em past vi hit holds p =
    let (ref, e) = get_elem?-below past hit.id (omega (arith, holds.size)) in
    (hit.id, ref, e, at (lookup hit.id vi.docs) (holds.docs hit.id ∙ e))
  where
    at :
        (o : Option DocRef) {ref : DocRef}
        → o ≡ some ref
        → ◌≡◌ {A = ℕ}
            (let x : SearchHit fl = elim o [
              | none ↦ hit
              | some one ↦ record hit { id = one.doc_id }
            ] in
              x.id)
            ref.doc_id
    at none h = absurd (cc)
    at (some one) {ref} h = ap (λ (r : DocRef). r.doc_id) (some-injective one ref h)

answer-Known :
    (fl : Floats) (em : Embedder fl) (past : List DocRef) (vi : VectorIndex fl em)
    (q : List fl.Float32) (k : ℕ) (hits : List (SearchHit fl))
    → Holds fl em past vi
    → Answer fl vi.hnsw q k hits
    → Known fl past k (map (with_doc_id fl em vi.docs) hits)
answer-Known fl em past vi q k hits holds answer = record {
  most = omega (arith, same hits, answer.most);
  known = each_known hits answer.nodes;
  found = λ p r. omega (arith, same hits, answer.found p (omega (arith, holds.size)));
}
  where
    same : (xs : List (SearchHit fl)) → length (map (with_doc_id fl em vi.docs) xs) ≡ length xs
    same [] = refl
    same (x ∷ xs) = ap suc (same xs)

    each_known :
        (xs : List (SearchHit fl))
        → Among (λ a. a < length vi.hnsw.nodes) (hit_ids xs)
        → All
            (λ x. (n : ℕ) × (ref : DocRef) × (get_elem? past n ≡ some ref) × (x.id ≡ ref.doc_id))
            (map (with_doc_id fl em vi.docs) xs)
    each_known [] good = tt
    each_known (x ∷ xs) good = (
      with_doc_id-known fl em past vi x holds (good x.id (ground arith)),
      each_known xs (λ a p. good a (ground arith)),
    )

-- Nothing is found where nothing is held.
empty-Known : (fl : Floats) (past : List DocRef) (k : ℕ) → length past ≡ 0 → Known fl past k []
empty-Known fl past k e = record {
  most = omega arith;
  known = tt;
  found = λ p r. absurd (omega arith);
}

nothing_held :
    (fl : Floats) (em : Embedder fl) (past : List DocRef) (vi : VectorIndex fl em)
    → Holds fl em past vi
    → (not vi.is_ready || is_nil vi.hnsw.nodes) ≡ true
    → length past ≡ 0
nothing_held fl em past vi holds h = elim (Bool-cases (is_nil vi.hnsw.nodes)) [
  | inl e ↦ omega (arith, holds.size, empty vi.hnsw.nodes e)
  | inr e ↦ elim (Bool-cases (leb (length past) 0)) [
    | inl p ↦ ground arith
    | inr p ↦ absurd (ground (arith, holds.ready (ground arith)))
  ]
]
  where
    empty : (xs : List HnswNode) → is_nil xs ≡ true → length xs ≡ 0
    empty [] h = refl
    empty (x ∷ xs) h = absurd (cc)

result-Reply :
    (fl : Floats) (em : Embedder fl) (past : List DocRef) (vi : VectorIndex fl em) (query : Bytes)
    (k : ℕ) (r : Result em.Error (List fl.Float32))
    → Order fl.less
    → Holds fl em past vi
    → em.embed_text query ≡ some r
    → Sized em.dimension r
    → Returns (Reply fl em past query k) (elim r [
      | err e ↦ some (err e)
      | ok vec ↦ search_knn fl vi.hnsw vec (pos k) >>= λ hits.
          some (ok (map (with_doc_id fl em vi.docs) hits))
    ])
result-Reply fl em past vi query k (err e) order holds h sized = h
result-Reply fl em past vi query k (ok vec) order holds h sized =
    Returns->>= (Answer fl vi.hnsw vec k) (Reply fl em past query k)
      (search_knn fl vi.hnsw vec (pos k)) _
      (search_knn-Answered fl vi.hnsw vec (pos k) order holds.graph
        (omega (arith, sized, holds.dimension)))
      (λ hits answer. answer-Known fl em past vi vec k hits holds answer)

-- A search for k hits returns: the embedder's error, or at most k hits, each with the number of a
-- document that the index holds, and some hit if k is not 0 and the index holds any document. The
-- comparison of distances is irreflexive and transitive.
pub search-Reply :
    (fl : Floats) (em : Embedder fl) (past : List DocRef) (vi : VectorIndex fl em) (query : Bytes)
    (k : ℕ)
    → Order fl.less
    → Holds fl em past vi
    → Returns (Reply fl em past query k) (search fl em vi query (pos k))
unfolding search
search-Reply fl em past vi query k order holds =
    Returns-elim (Reply fl em past query k) (not vi.is_ready || is_nil vi.hnsw.nodes) _ _
      (λ idle. empty-Known fl past k (nothing_held fl em past vi holds idle))
      (λ busy.
        let (r, e, sized) =
          Returns-some (Sized em.dimension) (em.embed_text query) (em.embed_text_sized query) in
        rw e (result-Reply fl em past vi query k r order holds e sized))
