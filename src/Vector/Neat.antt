-- ===== src/Vector/Neat.antt =====
-- The neighbour graph: what holds of its lists, before, between and after the steps of an insert.
use torvmremix.Base.{
  ℕ, suc, ◌<◌, ◌≤◌, ◌≡◌, subst, ◌∙◌, Option, some, List, ◌&&◌, length, arith, ◌==◌, Bool-cases, inl,
  inr, All, ◌≢◌, ◌⊎◌,
}
use torvmremix.Vector.Partial.{Returns, some-Returns}
use torvmremix.Vector.Counts.{count}
use torvmremix.Vector.Graph.{HnswNode, links_at, links_of}
use torvmremix.Vector.Beams.{Layer}
use torvmremix.Vector.Links.{Tall, Put, is_some, is_some-true, links_of-Tall, Tall-below, Among-All}

-- The list of a node at a level: it leads to other nodes that have the level, to none twice, and is
-- no longer than the level allows.
pub record Neighbours (cap : ℕ → ℕ) (nodes : List HnswNode) (l a : ℕ) (ls : List ℕ) : Type 0 where
  pub tall : (b : ℕ) → 0 < count b ls → Tall nodes l b
  pub others : (b : ℕ) → 0 < count b ls → b ≢ a
  pub once : (b : ℕ) → count b ls ≤ 1
  pub room : length ls ≤ cap l

abbrev pub Neat : (ℕ → ℕ) → List HnswNode → Type 0
Neat cap nodes =
    (l a : ℕ) (ls : List ℕ) → links_at nodes l a ≡ some ls → Neighbours cap nodes l a ls

-- No list of the levels below `n` has an id.
abbrev pub Unlinked : ℕ → ℕ → List HnswNode → Type 0
Unlinked n id nodes =
    (l a : ℕ) (ls : List ℕ) → l < n → links_at nodes l a ≡ some ls → count id ls ≡ 0

-- The nodes have the same levels.
abbrev pub SameShape : List HnswNode → List HnswNode → Type 0
SameShape nodes after =
    (length after ≡ length nodes)
    × ((l a : ℕ) → is_some (links_at after l a) ≡ is_some (links_at nodes l a))

-- A list afterwards is the one that was put, or one from before.
Put-cases :
    (l a : ℕ) (ls : List ℕ) (nodes after : List HnswNode)
    → Put l a ls nodes after
    → (k b : ℕ) (ms : List ℕ) → links_at after k b ≡ some ms
    → ((l ≡ k) × (a ≡ b) × (ls ≡ ms)) ⊎ (links_at nodes k b ≡ some ms)
Put-cases l a ls nodes after put k b ms e = elim (Bool-cases (a == b && l == k)) [
  | inl here ↦ inl (ground arith, ground arith, ground (arith, put.1 k b))
  | inr other ↦ inr (ground (arith, put.1 k b))
]

pub Put-SameShape :
    (l a : ℕ) (ls : List ℕ) (nodes after : List HnswNode)
    → Tall nodes l a
    → Put l a ls nodes after
    → SameShape nodes after
Put-SameShape l a ls nodes after h put = (
  put.0,
  λ k b. elim (Bool-cases (a == b && l == k)) [
    | inl here ↦
        let same : Tall nodes k b =
          subst (λ c. Tall nodes k c) (ground arith)
            (subst (λ c. Tall nodes c a) (ground arith) h) in
        ground (arith, put.1 k b, same)
    | inr other ↦ ground (arith, put.1 k b)
  ],
)

reshaped :
    (cap : ℕ → ℕ) (nodes after : List HnswNode) (l a : ℕ) (ls : List ℕ)
    → SameShape nodes after
    → Neighbours cap nodes l a ls
    → Neighbours cap after l a ls
reshaped cap nodes after l a ls shape good = record {
  tall = λ b h. shape.1 l b ∙ good.tall b h;
  others = good.others;
  once = good.once;
  room = good.room;
}

-- A list that is put in the place of one keeps the graph neat.
pub Put-Neat :
    (cap : ℕ → ℕ) (l a : ℕ) (ls : List ℕ) (nodes after : List HnswNode)
    → Tall nodes l a
    → Put l a ls nodes after
    → Neat cap nodes
    → Neighbours cap nodes l a ls
    → Neat cap after
Put-Neat cap l a ls nodes after h put neat good k b ms e =
    reshaped cap nodes after k b ms (Put-SameShape l a ls nodes after h put)
      (elim (Put-cases l a ls nodes after put k b ms e) [
        | inl (p, q, r) ↦
            subst (λ c. Neighbours cap nodes c b ms) p
              (subst (λ c. Neighbours cap nodes l c ms) q (subst (Neighbours cap nodes l a) r good))
        | inr old ↦ neat k b ms old
      ])

pub Put-Unlinked :
    (n id l a : ℕ) (ls : List ℕ) (nodes after : List HnswNode)
    → Put l a ls nodes after
    → Unlinked n id nodes
    → (l < n → count id ls ≡ 0)
    → Unlinked n id after
Put-Unlinked n id l a ls nodes after put un new k b ms p e =
    elim (Put-cases l a ls nodes after put k b ms e) [
      | inl (q, _, r) ↦ subst (λ c. count id c ≡ 0) r (new (omega arith))
      | inr old ↦ un k b ms p old
    ]

-- What a search may meet at a level: the nodes of the level, but one.
abbrev pub Met : List HnswNode → ℕ → ℕ → ℕ → Type 0
Met nodes id l a = Tall nodes l a × (a ≢ id)

pub Met-Layer :
    (F : Type 0) (dist : ℕ → Option F) (cap : ℕ → ℕ) (nodes : List HnswNode) (id l : ℕ)
    → Neat cap nodes
    → Unlinked (suc l) id nodes
    → ((a : ℕ) → a < length nodes → Returns (λ _. Unit) (dist a))
    → Layer dist nodes l (Met nodes id l)
Met-Layer F dist cap nodes id l neat un near = record {
  below = λ a h. Tall-below nodes l a h.0;
  near = λ a h. near a (Tall-below nodes l a h.0);
  linked = λ a h.
      let (ls, e) = is_some-true (links_at nodes l a) h.0 in
      let good = neat l a ls e in
      some-Returns (All (Met nodes id l)) (links_of nodes l a) (links_of-Tall nodes l a e) (
        Among-All (Met nodes id l) ls (λ b k. (
          good.tall b k,
          λ same.
              absurd (omega (arith, subst (λ c. 0 < count c ls) same k, un l a ls (omega arith) e)),
        )));
}
