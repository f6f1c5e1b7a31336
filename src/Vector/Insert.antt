-- ===== src/Vector/Insert.antt =====
-- controller/internal/vectorindex/hnsw.go: Insert with the choice of neighbours, and SearchKNN.
-- The level of a new node, which randomLevel draws, is an argument, and not negative: the draw of
-- exactly 0, whose logarithm is infinite, is left out.
use torvmremix.Base.{
  ℕ, zero, suc, ◌+◌, ◌-◌, Option, none, some, List, [], ◌∷◌, ◌++◌, Bool, true, false, length, take,
  replicate, ltb, leb, min, if◌then◌else◌, is_nil, map, ℤ, pos, negsuc, ◌==◌,
}
use torvmremix.Vector.Partial.{◌>>=◌, for_each}
use torvmremix.Vector.Graph.{
  Floats, HnswNode, HnswIndex, vector_at, cosine_similarity, distance, links_at, set_links,
}
use torvmremix.Vector.Search.{search_layer, greedy_closest}

-- A candidate and its distance.
abbrev pub Scored : Type 0 → Type 0
Scored F = ℕ × F

module _ {F : Type 0} (less : F → F → Bool) where
  -- The inner loop of the sort: what stands at `i` in the end, and what stands behind it.
  unfoldable pub settle : Scored F → List (Scored F) → Scored F × List (Scored F)
  settle x [] = (x, [])
  settle x (y ∷ ys) =
      let r = settle (if less y.1 x.1 then y else x) ys in
      (r.0, (if less y.1 x.1 then x else y) ∷ r.1)

  -- The outer loop, one turn for each place.
  unfoldable pub exchange_sort : ℕ → List (Scored F) → List (Scored F)
  unfolding settle
  exchange_sort zero xs = xs
  exchange_sort (suc n) [] = []
  exchange_sort (suc n) (x ∷ xs) = let r = settle x xs in r.0 ∷ exchange_sort n r.1

  unfoldable pub score_each : (ℕ → Option F) → List ℕ → Option (List (Scored F))
  score_each dist [] = some []
  score_each dist (c ∷ cs) = dist c >>= λ d. score_each dist cs >>= λ rest. some ((c, d) ∷ rest)

  -- The sorted part of selectNeighborsForNode.
  unfoldable pub closest : (ℕ → Option F) → List ℕ → ℕ → Option (List ℕ)
  unfolding exchange_sort score_each
  closest dist cs n = score_each dist cs >>= λ sc.
      some (take n (map (λ (s : Scored F). s.0) (exchange_sort (length sc) sc)))

unfoldable pub select_neighbors_simple : List ℕ → ℕ → List ℕ
select_neighbors_simple cs n = if leb (length cs) n then cs else take n cs

-- `if len(candidates) > k { candidates = candidates[:k] }`
abbrev pub first_hits : ℤ → List ℕ → Option (List ℕ)
first_hits (pos k) cs = some (if ltb k (length cs) then take k cs else cs)
first_hits (negsuc k) cs = none

-- `ef`
abbrev pub beam_width : ℕ → ℤ → ℕ
beam_width ef (pos k) = if ltb ef k then k else ef
beam_width ef (negsuc k) = ef

-- `candidates[0]`, if there is one.
abbrev pub first_or : ℕ → List ℕ → ℕ
first_or ep [] = ep
first_or ep (c ∷ cs) = c

abbrev pub new_node : ℕ → HnswNode
new_node level = record { connections = replicate (suc level) []; level = level }

module _ (fl : Floats) where
  -- `h` is shown by its dimension and its vectors, which the choice reads.
  unfoldable pub select_neighbors_for_node : ℕ → List fl.Float32 → ℕ → List ℕ → ℕ → Option (List ℕ)
  unfolding closest
  select_neighbors_for_node d xs a cs n = elim (leb (length cs) n) [
    | true ↦ some cs
    | false ↦ vector_at fl d xs a >>= λ v. closest fl.less (distance fl d xs v) cs n
  ]

  -- The reverse connection from one neighbour, pruned if it is over capacity.
  unfoldable pub link_back :
      ℕ → List fl.Float32 → ℕ → ℕ → ℕ → ℕ → List HnswNode → Option (List HnswNode)
  unfolding select_neighbors_for_node
  link_back d xs id max_conn level n nodes = links_at nodes level n >>= λ ls.
      set_links level n (ls ++ (id ∷ [])) nodes >>= λ grown.
      elim (ltb max_conn (length (ls ++ (id ∷ [])))) [
        | true ↦ select_neighbors_for_node d xs n (ls ++ (id ∷ [])) max_conn >>= λ kept.
            set_links level n kept grown
        | false ↦ some grown
      ]

  abbrev pub max_conn_at : HnswIndex fl → ℕ → ℕ
  max_conn_at h level = if level == 0 then h.m_max0 else h.m

  -- One level of the second loop of Insert: the nodes, and the next entry point.
  unfoldable pub connect_level :
      HnswIndex fl → List fl.Float32 → ℕ → ℕ → List HnswNode → ℕ → Option (List HnswNode × ℕ)
  unfolding link_back select_neighbors_simple
  connect_level h vec id level nodes ep =
      let max_conn = max_conn_at h level in
      search_layer fl.less (distance fl h.dimension h.vectors vec) nodes ep h.ef_construct level
      >>= λ candidates.
          let neighbors = select_neighbors_simple candidates max_conn in
          set_links level id neighbors nodes >>= λ linked.
          for_each (link_back h.dimension h.vectors id max_conn level) neighbors linked >>= λ done.
          some (done, first_or ep candidates)

  -- The levels `n - 1` down to 0.
  unfoldable pub connect_levels :
      HnswIndex fl → List fl.Float32 → ℕ → ℕ → List HnswNode → ℕ → Option (List HnswNode)
  unfolding connect_level
  connect_levels h vec id zero nodes ep = some nodes
  connect_levels h vec id (suc level) nodes ep =
      connect_level h vec id level nodes ep >>= λ r. connect_levels h vec id level r.0 r.1

  -- `for lc := top; lc > bottom; lc-- { ep = greedyClosest(query, ep, lc) }`, as the number of
  -- turns and the bottom.
  unfoldable pub descend : HnswIndex fl → List fl.Float32 → ℕ → ℕ → ℕ → Option ℕ
  descend h q zero bottom ep = some ep
  descend h q (suc n) bottom ep =
      greedy_closest fl.less (distance fl h.dimension h.vectors q) h.nodes ep (suc n + bottom)
      >>= λ next. descend h q n bottom next

  -- The node and its vector, with no connections yet.
  abbrev pub append_node : HnswIndex fl → List fl.Float32 → ℕ → HnswIndex fl
  append_node h vec level = record h {
    nodes = h.nodes ++ (new_node level ∷ []);
    vectors = h.vectors ++ vec;
  }

  -- The rest of Insert behind the first node: `h` has the new node already.
  unfoldable pub join_graph : HnswIndex fl → List fl.Float32 → ℕ → ℕ → ℕ → Option (HnswIndex fl)
  unfolding descend connect_levels
  join_graph h vec id level entry = descend h vec (h.max_level - level) level entry >>= λ ep.
      connect_levels h vec id (suc (min level h.max_level)) h.nodes ep >>= λ nodes. some (
        if ltb h.max_level level
        then record h { nodes = nodes; max_level = level; entry_point = some id }
        else record h { nodes = nodes })

  -- Insert: the index afterwards, and the id.
  unfoldable pub insert : HnswIndex fl → List fl.Float32 → ℕ → Option (HnswIndex fl × ℕ)
  unfolding join_graph
  insert h vec level =
      let id = length h.nodes in
      let grown = append_node h vec level in
      elim h.entry_point [
        | none ↦ some (record grown { entry_point = some id; max_level = level }, id)
        | some entry ↦ join_graph grown vec id level entry >>= λ done. some (done, id)
      ]

  pub record SearchHit : Type 0 where
    pub id : ℕ
    pub score : fl.Float32

  -- The hits with their scores.
  unfoldable pub score_hits : HnswIndex fl → List fl.Float32 → List ℕ → Option (List SearchHit)
  score_hits h q [] = some []
  score_hits h q (c ∷ cs) = cosine_similarity fl h.dimension h.vectors q c >>= λ s.
      score_hits h q cs >>= λ rest. some (record { id = c; score = s } ∷ rest)

  -- SearchKNN from an entry point.
  unfoldable pub search_from : HnswIndex fl → List fl.Float32 → ℤ → ℕ → Option (List SearchHit)
  unfolding descend score_hits
  search_from h q k entry = descend h q h.max_level 0 entry >>= λ ep.
      search_layer fl.less (distance fl h.dimension h.vectors q) h.nodes ep
        (beam_width h.ef_search k) 0
      >>= λ candidates. first_hits k candidates >>= λ kept. score_hits h q kept

  unfoldable pub search_knn : HnswIndex fl → List fl.Float32 → ℤ → Option (List SearchHit)
  unfolding search_from
  search_knn h q k = elim h.entry_point [
    | none ↦ some []
    | some entry ↦ if is_nil h.nodes then some [] else search_from h q k entry
  ]
