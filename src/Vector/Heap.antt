-- ===== src/Vector/Heap.antt =====
-- The package container/heap of Go's standard library on a slice of node ids, as
-- controller/internal/vectorindex/hnsw.go uses it (Push and Pop).
use torvmremix.Base.{
  ℕ, zero, suc, ◌+◌, ◌-◌, ◌*◌, ◌/◌, Option, none, some, List, [], ◌∷◌, ◌++◌, Bool, true, false,
  length, get_elem?, take, ◌==◌, ltb, leb, if◌then◌else◌,
}
use torvmremix.Vector.Partial.{◌>>=◌}

-- `xs[i] = v`
abbrev pub set : ℕ → ℕ → List ℕ → List ℕ
set i v [] = []
set zero v (x ∷ xs) = v ∷ xs
set (suc i) v (x ∷ xs) = x ∷ set i v xs

-- `xs[i], xs[j] = xs[j], xs[i]`
unfoldable pub swap : ℕ → ℕ → List ℕ → Option (List ℕ)
swap i j xs = get_elem? xs i >>= λ a. get_elem? xs j >>= λ b. some (set i b (set j a xs))

-- `before` is the method Less, on the ids at two places.
module _ (before : ℕ → ℕ → Option Bool) where
  abbrev pub less_at : List ℕ → ℕ → ℕ → Option Bool
  less_at xs i j = get_elem? xs i >>= λ a. get_elem? xs j >>= λ b. before a b

  -- The loop of heap.up, on fuel.
  unfoldable pub up : ℕ → ℕ → List ℕ → Option (List ℕ)
  unfolding swap
  up zero j xs = none
  up (suc f) j xs =
      let i = (j - 1) / 2 in
      elim (i == j) [
        | true ↦ some xs
        | false ↦
            less_at xs j i >>= λ less. elim less [ true ↦ swap i j xs >>= up f i | false ↦ some xs ]
      ]

  -- The child of two that heap.down goes to.
  abbrev pub smaller_child : ℕ → ℕ → List ℕ → Option ℕ
  smaller_child j n xs = elim (ltb (j + 1) n) [
    | true ↦ less_at xs (j + 1) j >>= λ less. some (if less then j + 1 else j)
    | false ↦ some j
  ]

  -- The loop of heap.down, on fuel.
  unfoldable pub down : ℕ → ℕ → ℕ → List ℕ → Option (List ℕ)
  unfolding swap
  down zero i n xs = none
  down (suc f) i n xs = elim (leb n (2 * i + 1)) [
    | true ↦ some xs
    | false ↦ smaller_child (2 * i + 1) n xs >>= λ j.
        less_at xs j i >>= λ less. elim less [ true ↦ swap i j xs >>= down f j n | false ↦ some xs ]
  ]

  -- heap.Push
  unfoldable pub push : ℕ → List ℕ → Option (List ℕ)
  unfolding up
  push x xs = up (suc (length xs)) (length xs) (xs ++ (x ∷ []))

  -- heap.Pop; Swap panics on an empty heap.
  unfoldable pub pop : List ℕ → Option (ℕ × List ℕ)
  unfolding down swap
  pop xs =
      let n = length xs - 1 in
      swap 0 n xs >>= λ ys.
      down (suc n) 0 n ys >>= λ zs. get_elem? zs n >>= λ x. some (x, take n zs)
