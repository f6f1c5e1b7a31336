-- ===== src/Vector/Search.antt =====
-- controller/internal/vectorindex/hnsw.go: the beam search of one layer and the greedy descent, on
-- a distance to the query that may panic. Their loops run on fuel, one turn for each node and one
-- more.
use torvmremix.Base.{
  ℕ, zero, suc, Option, none, some, List, [], ◌∷◌, Bool, true, false, length, ltb, leb,
  if◌then◌else◌, is_nil,
}
use torvmremix.Vector.Partial.{◌>>=◌, for_each}
use torvmremix.Vector.Counts.{contains}
use torvmremix.Vector.Heap.{push, pop}
use torvmremix.Vector.Graph.{HnswNode, links_of}

-- The map of what was visited, and the two heaps.
pub record Beam : Type 0 where
  pub visited : List ℕ
  pub candidates : List ℕ
  pub results : List ℕ

-- The node the walk stands at, its distance, and whether it moved.
abbrev pub Walk : Type 0 → Type 0
Walk F = ℕ × F × Bool

module _ {F : Type 0} (less : F → F → Bool) (dist : ℕ → Option F) where
  -- distHeap.Less with isMaxHeap false, and true.
  abbrev pub closer : ℕ → ℕ → Option Bool
  closer a b = dist a >>= λ x. dist b >>= λ y. some (less x y)

  abbrev pub farther : ℕ → ℕ → Option Bool
  farther a b = dist a >>= λ x. dist b >>= λ y. some (less y x)

  -- `h.distance(query, results.Peek())`; the -1 that Peek gives for an empty heap is no node.
  abbrev peek_distance : List ℕ → Option F
  peek_distance [] = none
  peek_distance (top ∷ rest) = dist top

  -- `nearest is farther than the farthest result`
  abbrev pub is_beyond : ℕ → ℕ → List ℕ → Option Bool
  is_beyond ef a results = elim (leb ef (length results)) [
    | true ↦ dist a >>= λ x. peek_distance results >>= λ y. some (less y x)
    | false ↦ some false
  ]

  abbrev pub is_wanted : ℕ → ℕ → List ℕ → Option Bool
  is_wanted ef a results = elim (ltb (length results) ef) [
    | true ↦ some true
    | false ↦ dist a >>= λ x. peek_distance results >>= λ y. some (less x y)
  ]

  abbrev pub trim : ℕ → List ℕ → Option (List ℕ)
  trim ef results = elim (ltb ef (length results)) [
    | true ↦ pop farther results >>= λ r. some r.1
    | false ↦ some results
  ]

  -- One neighbour of the node that is explored.
  unfoldable pub visit : ℕ → ℕ → Beam → Option Beam
  unfolding push pop
  visit ef a b = elim (contains a b.visited) [
    | true ↦ some b
    | false ↦ is_wanted ef a b.results >>= λ wanted. elim wanted [
      | true ↦ push closer a b.candidates >>= λ cs. push farther a b.results >>= λ rs.
          trim ef rs >>= λ kept.
          some record { visited = a ∷ b.visited; candidates = cs; results = kept }
      | false ↦ some record b { visited = a ∷ b.visited }
    ]
  ]

  -- The loop over the candidates.
  unfoldable pub expand : ℕ → List HnswNode → ℕ → ℕ → Beam → Option (List ℕ)
  unfolding visit pop
  expand zero nodes level ef b = none
  expand (suc f) nodes level ef b = elim (is_nil b.candidates) [
    | true ↦ some b.results
    | false ↦ pop closer b.candidates >>= λ top. is_beyond ef top.0 b.results >>= λ stop.
        elim stop [
          | true ↦ some b.results
          | false ↦ links_of nodes level top.0 >>= λ links.
              for_each (visit ef) links record b { candidates = top.1 } >>= λ next.
              expand f nodes level ef next
        ]
  ]

  -- The results, from the last one that is popped; `out` has the places that are filled.
  unfoldable pub drain : ℕ → List ℕ → List ℕ → Option (List ℕ)
  unfolding pop
  drain zero results out = some out
  drain (suc n) results out = pop farther results >>= λ r. drain n r.1 (r.0 ∷ out)

  unfoldable pub search_layer : List HnswNode → ℕ → ℕ → ℕ → Option (List ℕ)
  unfolding expand drain push
  search_layer nodes entry ef level = push closer entry [] >>= λ cs. push farther entry [] >>= λ rs.
      expand (suc (length nodes)) nodes level ef
        record { visited = entry ∷ []; candidates = cs; results = rs }
      >>= λ results. drain (length results) results []

  unfoldable pub walk_step : ℕ → Walk F → Option (Walk F)
  walk_step a (cur, cur_dist, changed) =
      dist a >>= λ d. some (if less d cur_dist then (a, d, true) else (cur, cur_dist, changed))

  unfoldable pub walk : ℕ → List HnswNode → ℕ → ℕ → F → Option ℕ
  unfolding walk_step
  walk zero nodes level cur cur_dist = none
  walk (suc f) nodes level cur cur_dist = links_of nodes level cur >>= λ links.
      for_each walk_step links (cur, cur_dist, false) >>= λ w. elim w.2 [
        | true ↦ walk f nodes level w.0 w.1
        | false ↦ some w.0
      ]

  unfoldable pub greedy_closest : List HnswNode → ℕ → ℕ → Option ℕ
  unfolding walk
  greedy_closest nodes ep level = dist ep >>= λ d. walk (suc (length nodes)) nodes level ep d
