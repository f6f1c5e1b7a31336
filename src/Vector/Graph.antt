-- ===== src/Vector/Graph.antt =====
-- controller/internal/vectorindex/hnsw.go: the graph of neighbours and the cosine distance.
--
-- Numbers of type float32 are a parameter. A slice of `vectors` ends at its length here; Go allows
-- up to the capacity, which only vectors of another length than `dimension` could show. The locks
-- have no counterpart: Insert holds the write lock, and SearchKNN the read lock, from its start to
-- its end.
use torvmremix.Base.{
  ℕ, zero, suc, ◌+◌, ◌*◌, Option, none, some, List, [], ◌∷◌, Bool, length, get_elem?, take, drop,
  leb, if◌then◌else◌,
}
use torvmremix.Vector.Partial.{◌>>=◌}

-- float32.
pub record Floats : Type 1 where
  pub Float32 : Type 0
  pub zero_float : Float32
  pub one : Float32
  pub add : Float32 → Float32 → Float32
  pub sub : Float32 → Float32 → Float32
  pub mul : Float32 → Float32 → Float32
  pub div : Float32 → Float32 → Float32
  pub root : Float32 → Float32  -- float32(math.Sqrt(float64(x)))
  pub is_zero_float : Float32 → Bool  -- x == 0
  pub less : Float32 → Float32 → Bool

pub record HnswNode : Type 0 where
  pub connections : List (List ℕ)
  pub level : ℕ

module _ (fl : Floats) where
  -- An entry point of none is the -1 of an empty index.
  pub record HnswIndex : Type 0 where
    pub dimension : ℕ
    pub m : ℕ
    pub m_max0 : ℕ
    pub ef_construct : ℕ
    pub ef_search : ℕ
    pub max_level : ℕ
    pub entry_point : Option ℕ
    pub nodes : List HnswNode
    pub vectors : List fl.Float32

  unfoldable pub new_hnsw_index : ℕ → ℕ → ℕ → HnswIndex
  new_hnsw_index d n ef = record {
    dimension = d;
    m = n;
    m_max0 = 2 * n;
    ef_construct = ef;
    ef_search = 50;
    max_level = 0;
    entry_point = none;
    nodes = [];
    vectors = [];
  }

  -- `vectors[i*dimension : (i+1)*dimension]`
  unfoldable pub vector_at : ℕ → List fl.Float32 → ℕ → Option (List fl.Float32)
  vector_at d xs i = if leb (i * d + d) (length xs) then some (take d (drop (i * d) xs)) else none

  -- dot, normA and normB
  abbrev pub Sums : Type 0
  Sums = fl.Float32 × fl.Float32 × fl.Float32

  unfoldable pub sums : ℕ → List fl.Float32 → List fl.Float32 → Sums → Option Sums
  sums zero q v s = some s
  sums (suc n) (a ∷ q) (b ∷ v) (dot, norm_a, norm_b) =
      sums n q v (fl.add dot (fl.mul a b), fl.add norm_a (fl.mul a a), fl.add norm_b (fl.mul b b))
  sums (suc n) (a ∷ q) [] s = none
  sums (suc n) [] v s = none

  abbrev similarity : Sums → fl.Float32
  similarity (dot, norm_a, norm_b) =
      let denom = fl.root (fl.mul norm_a norm_b) in
      if fl.is_zero_float denom then fl.zero_float else fl.div dot denom

  unfoldable pub cosine_similarity : ℕ → List fl.Float32 → List fl.Float32 → ℕ → Option fl.Float32
  unfolding vector_at sums
  cosine_similarity d xs q i = vector_at d xs i >>= λ v.
      sums d q v (fl.zero_float, fl.zero_float, fl.zero_float) >>= λ s. some (similarity s)

  unfoldable pub distance : ℕ → List fl.Float32 → List fl.Float32 → ℕ → Option fl.Float32
  unfolding cosine_similarity
  distance d xs q i = cosine_similarity d xs q i >>= λ x. some (fl.sub fl.one x)

-- `h.nodes[a].connections[l]`
unfoldable pub links_at : List HnswNode → ℕ → ℕ → Option (List ℕ)
links_at nodes l a = get_elem? nodes a >>= λ node. get_elem? node.connections l

abbrev or_nil : Option (List ℕ) → List ℕ
or_nil none = []
or_nil (some ls) = ls

-- What a search follows: no links at a level that the node does not have.
unfoldable pub links_of : List HnswNode → ℕ → ℕ → Option (List ℕ)
links_of nodes l a = get_elem? nodes a >>= λ node. some (or_nil (get_elem? node.connections l))

-- `xs[i] = f(xs[i])`
abbrev pub modify : {A : Type 0} → ℕ → (A → A) → List A → List A
modify i f [] = []
modify zero f (x ∷ xs) = f x ∷ xs
modify (suc i) f (x ∷ xs) = x ∷ modify i f xs

-- `h.nodes[a].connections[l] = ls`
unfoldable pub set_links : ℕ → ℕ → List ℕ → List HnswNode → Option (List HnswNode)
unfolding links_at
set_links l a ls nodes = links_at nodes l a >>= λ _. some (
    modify a
      (λ (node : HnswNode). record node { connections = modify l (λ _. ls) node.connections })
      nodes)
