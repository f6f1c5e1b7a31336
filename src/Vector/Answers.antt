-- ===== src/Vector/Answers.antt =====
-- SearchKNN on a well-formed index: what it answers, and when it panics.
use torvmremix.Base.{
  ℕ, suc, ◌<◌, ◌≤◌, ◌≡◌, refl, sym, ap, subst, ◌∙◌, Option, none, some, List, [], ◌∷◌, length, take,
  ltb, if◌then◌else◌, arith, All, map, ℤ, pos, negsuc, is_nil, length-take,
}
use torvmremix.Vector.Partial.{
  ◌>>=◌, Returns, Returns->>=, Returns-some, Returns-weaken, Returns-assoc, >>=-none,
}
use torvmremix.Vector.Counts.{count, count-take}
use torvmremix.Vector.HeapLaws.{Among}
use torvmremix.Vector.Beams.{Found}
use torvmremix.Vector.Layers.{search_layer-Found}
use torvmremix.Vector.Descent.{Order}
use torvmremix.Vector.Graph.{Floats, HnswIndex, cosine_similarity, distance}
use torvmremix.Vector.Search.{search_layer}
use torvmremix.Vector.Insert.{
  max_conn_at, descend, SearchHit, score_hits, beam_width, search_from, search_knn,
}
use torvmremix.Vector.Distances.{distance-Returns, cosine_similarity-Returns}
use torvmremix.Vector.Links.{Tall, Tall-below}
use torvmremix.Vector.Neat.{Met, Met-Layer}
use torvmremix.Vector.WellFormed.{Entered, WellFormed, WellFormed-Stored, next-Unlinked}
use torvmremix.Vector.Grow.{descend-Met}

abbrev pub hit_ids : {fl : Floats} → List (SearchHit fl) → List ℕ
hit_ids hits = map (λ h. h.id) hits

-- At most `k` different nodes, each with its similarity to the query; some, if any is asked for and
-- there is any.
pub record Answer (fl : Floats) (h : HnswIndex fl) (q : List fl.Float32) (k : ℕ)
    (hits : List (SearchHit fl)) : Type 0 where
  pub most : length hits ≤ k
  pub nodes : Among (λ a. a < length h.nodes) (hit_ids hits)
  pub once : (a : ℕ) → count a (hit_ids hits) ≤ 1
  pub scored : All (λ x. cosine_similarity fl h.dimension h.vectors q x.id ≡ some x.score) hits
  pub found : 0 < k → 0 < length h.nodes → 0 < length hits

hits-length : {fl : Floats} (hits : List (SearchHit fl)) → length hits ≡ length (hit_ids hits)
hits-length [] = refl
hits-length (x ∷ xs) = ap suc (hits-length xs)

-- A list with an element is not the empty list of a test.
inhabited :
    {A B : Type 0} (P : B → Type 0) (xs : List A) (x y : B)
    → 0 < length xs
    → P y
    → P (if is_nil xs then x else y)
inhabited P [] x y h p = absurd (omega arith)
inhabited P (a ∷ xs) x y h p = p

-- What is left of the candidates.
abbrev Cut : ℕ → ℕ → List ℕ → Type 0
Cut k n cs =
    (length cs ≤ k) × Among (λ a. a < n) cs × ((a : ℕ) → count a cs ≤ 1) × (0 < k → 0 < length cs)

module _ (fl : Floats) (order : Order fl.less) (h : HnswIndex fl) (q : List fl.Float32)
    (wf : WellFormed fl h) (long : h.dimension ≤ length q) where
  -- No node has the id that comes next, so a search may meet every node.
  abbrev AnyMet : ℕ → ℕ → Type 0
  AnyMet l a = Met h.nodes (length h.nodes) l a

  any-met : (l a : ℕ) → Tall h.nodes l a → AnyMet l a
  any-met l a tall = (tall, λ same. absurd (omega (arith, Tall-below h.nodes l a tall)))

  -- The candidates from an entry point.
  candidates-Found :
      (ef entry : ℕ)
      → 0 < ef
      → Tall h.nodes h.max_level entry
      → Returns (Found (AnyMet 0) ef) (
          descend fl h q h.max_level 0 entry >>= λ ep.
          search_layer fl.less (distance fl h.dimension h.vectors q) h.nodes ep ef 0)
  candidates-Found ef entry wide tall =
      let dist = distance fl h.dimension h.vectors q in
      let unlinked = next-Unlinked (max_conn_at fl h) h.nodes 0 wf.neat in
      Returns->>= (AnyMet 0) (Found (AnyMet 0) ef) (descend fl h q h.max_level 0 entry) _
        (descend-Met fl order h q (length h.nodes) wf.neat unlinked wf.sized long h.max_level 0 0
          entry (λ p. refl)
          (subst (λ k. AnyMet k entry) (omega arith) (any-met h.max_level entry tall)))
        (λ ep met.
          search_layer-Found fl.less dist h.nodes 0 ef (AnyMet 0)
            (Met-Layer fl.Float32 dist (max_conn_at fl h) h.nodes (length h.nodes) 0 wf.neat
              (unlinked 1)
              (λ a p.
                distance-Returns fl h.dimension h.vectors q a (WellFormed-Stored fl h wf.sized a p)
                  long))
            wide ep met)

  first_hits-Cut :
      (k ef : ℕ) (cs : List ℕ)
      → Found (AnyMet 0) ef cs
      → Cut k (length h.nodes) (if ltb k (length cs) then take k cs else cs)
  first_hits-Cut k ef cs found = (
    ground (arith, length-take k cs),
    λ a p. Tall-below h.nodes 0 a (found.good a (ground (arith, count-take a k cs))).0,
    λ a. ground (arith, count-take a k cs, found.once a),
    λ p. ground (arith, length-take k cs, found.one),
  )

  score_hits-Returns :
      (cs : List ℕ)
      → Among (λ a. a < length h.nodes) cs
      → Returns
          (λ hits.
            (hit_ids hits ≡ cs)
            × All (λ x. cosine_similarity fl h.dimension h.vectors q x.id ≡ some x.score) hits)
          (score_hits fl h q cs)
  unfolding score_hits
  score_hits-Returns [] good = (refl, tt)
  score_hits-Returns (c ∷ cs) good =
      let (s, e, _) =
        Returns-some (λ _. Unit) (cosine_similarity fl h.dimension h.vectors q c)
          (cosine_similarity-Returns fl h.dimension h.vectors q c
            (WellFormed-Stored fl h wf.sized c (good c (ground arith))) long) in
      rw e (
        Returns->>= _ _ (score_hits fl h q cs) _
          (score_hits-Returns cs (λ a p. good a (ground arith)))
          (λ hits p. (ap (◌∷◌ c) p.0, (e, p.1))))

  answered :
      (hits : List (SearchHit fl)) (cs : List ℕ) (k : ℕ)
      → hit_ids hits ≡ cs
      → All (λ x. cosine_similarity fl h.dimension h.vectors q x.id ≡ some x.score) hits
      → length cs ≤ k
      → Among (λ a. a < length h.nodes) cs
      → ((a : ℕ) → count a cs ≤ 1)
      → (0 < k → 0 < length cs)
      → Answer fl h q k hits
  answered hits cs k same scored most nodes once some_left =
      let e : length hits ≡ length cs = hits-length hits ∙ ap length same in
      record {
        most = omega arith;
        nodes = subst (Among (λ a. a < length h.nodes)) (sym same) nodes;
        once = subst (λ (xs : List ℕ). (a : ℕ) → count a xs ≤ 1) (sym same) once;
        scored = scored;
        found = λ p r. omega (arith, some_left p);
      }

  search_from-Answer :
      (k entry : ℕ)
      → Tall h.nodes h.max_level entry
      → Returns (Answer fl h q k) (search_from fl h q (pos k) entry)
  unfolding search_from
  search_from-Answer k entry tall =
      let ef = beam_width h.ef_search (pos k) in
      Returns-assoc (Answer fl h q k) (descend fl h q h.max_level 0 entry) _ _ (
        Returns->>= (Found (AnyMet 0) ef) (Answer fl h q k) _ _
          (candidates-Found ef entry (ground (arith, wf.search_wide)) tall)
          (λ cs found.
            let kept = if ltb k (length cs) then take k cs else cs in
            let (most, nodes, once, some_left) = first_hits-Cut k ef cs found in
            Returns-weaken _ (Answer fl h q k) (score_hits fl h q kept)
              (score_hits-Returns kept nodes)
              (λ hits p. answered hits kept k p.0 p.1 most nodes once some_left)))

  search_from-negative : (n entry : ℕ) → search_from fl h q (negsuc n) entry ≡ none
  unfolding search_from
  search_from-negative n entry = >>=-none (descend fl h q h.max_level 0 entry) _ _ (λ cs. refl)

-- What is asked of a search for `k` hits.
abbrev pub Answered :
    (fl : Floats) → HnswIndex fl → List fl.Float32 → ℤ → Option (List (SearchHit fl)) → Type 0
Answered fl h q (pos k) result = Returns (Answer fl h q k) result
Answered fl h q (negsuc n) result = 0 < length h.nodes → result ≡ none

module _ (fl : Floats) (order : Order fl.less) (h : HnswIndex fl) (q : List fl.Float32)
    (wf : WellFormed fl h) (long : h.dimension ≤ length q) where
  entry-Answered :
      (k : ℤ) (entry : ℕ)
      → Tall h.nodes h.max_level entry
      → Answered fl h q k (search_from fl h q k entry)
  entry-Answered (pos k) entry tall = search_from-Answer fl order h q wf long k entry tall
  entry-Answered (negsuc n) entry tall = λ p. search_from-negative fl order h q wf long n entry

  empty-Answered : (k : ℤ) → length h.nodes ≡ 0 → Answered fl h q k (some [])
  empty-Answered (pos k) e = record {
    most = omega arith;
    nodes = λ a p. absurd (omega arith);
    once = λ a. omega arith;
    scored = tt;
    found = λ p r. absurd (omega arith);
  }
  empty-Answered (negsuc n) e = λ p. absurd (omega arith)

  at-Answered :
      (k : ℤ) (o : Option ℕ)
      → Entered h.nodes h.max_level o
      → Answered fl h q k (elim o [
        | none ↦ some []
        | some entry ↦ if is_nil h.nodes then some [] else search_from fl h q k entry
      ])
  at-Answered k none e = empty-Answered k e
  at-Answered k (some entry) tall =
      inhabited (Answered fl h q k) h.nodes _ _
        (omega (arith, Tall-below h.nodes h.max_level entry tall)) (entry-Answered k entry tall)

-- SearchKNN on a well-formed index with a query of its dimension: for k of at least 0 it returns,
-- within the turns that its loops are given, at most k hits, which are different nodes with their
-- similarities to the query, and some hit if k is not 0 and the index not empty; for a negative k it
-- panics unless the index is empty. The comparison of distances is irreflexive and transitive.
pub search_knn-Answered :
    (fl : Floats) (h : HnswIndex fl) (q : List fl.Float32) (k : ℤ)
    → Order fl.less
    → WellFormed fl h
    → h.dimension ≤ length q
    → Answered fl h q k (search_knn fl h q k)
unfolding search_knn
search_knn-Answered fl h q k order wf long =
    at-Answered fl order h q wf long k h.entry_point wf.entered
