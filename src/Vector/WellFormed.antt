-- ===== src/Vector/WellFormed.antt =====
-- When an index is well formed, and what it is with a new node that has no connections yet.
use torvmremix.Base.{
  ℕ, zero, suc, ◌*◌, ◌<◌, ◌≤◌, ◌≡◌, refl, Option, none, some, List, [], ◌∷◌, ◌++◌, length,
  get_elem?, replicate, leb, ltb, if◌then◌else◌, arith, ◌==◌, inl, inr, Bool-cases, ◌⊎◌,
}
use torvmremix.Index.Tables.{get_elem?-snoc}
use torvmremix.Vector.Counts.{count}
use torvmremix.Vector.Graph.{Floats, HnswNode, HnswIndex, links_at}
use torvmremix.Vector.Insert.{max_conn_at, new_node}
use torvmremix.Vector.Distances.{block-within}
use torvmremix.Vector.Links.{Tall, Tall-below}
use torvmremix.Vector.Neat.{Neat, Unlinked}
use torvmremix.Vector.Linking.{Stored}

-- The entry point has the highest level; none stands for an empty index.
abbrev pub Entered : List HnswNode → ℕ → Option ℕ → Type 0
Entered nodes top none = length nodes ≡ 0
Entered nodes top (some e) = Tall nodes top e

-- A vector for each node, a neat graph whose lists are within the capacities, and an entry point at
-- the highest level of a node; the beams are not empty.
pub record WellFormed (fl : Floats) (h : HnswIndex fl) : Type 0 where
  pub sized : length h.vectors ≡ length h.nodes * h.dimension
  pub neat : Neat (max_conn_at fl h) h.nodes
  pub top : (l a : ℕ) → Tall h.nodes l a → l ≤ h.max_level
  pub entered : Entered h.nodes h.max_level h.entry_point
  pub wide : 0 < h.ef_construct
  pub search_wide : 0 < h.ef_search

pub WellFormed-Stored :
    (fl : Floats) (h : HnswIndex fl)
    → length h.vectors ≡ length h.nodes * h.dimension
    → (a : ℕ) → a < length h.nodes
    → Stored fl h.dimension h.vectors a
WellFormed-Stored fl h e a p = omega (arith, block-within a (length h.nodes) h.dimension p)

get_elem?-replicate :
    (n i : ℕ)
    → ◌≡◌ {A = Option (List ℕ)} (get_elem? (replicate n []) i) (if ltb i n then some [] else none)
get_elem?-replicate zero i = ground arith
get_elem?-replicate (suc n) zero = ground arith
get_elem?-replicate (suc n) (suc i) = ground (arith, get_elem?-replicate n i)

-- The lists of the grown index.
pub links_at-append :
    (nodes : List HnswNode) (level l a : ℕ)
    → links_at (nodes ++ (new_node level ∷ [])) l a ≡ (
        if a == length nodes
        then (if ltb l (suc level) then some [] else none)
        else links_at nodes l a)
unfolding links_at
links_at-append nodes level l a = elim (Bool-cases (a == length nodes)) [
  | inl e ↦ rw (get_elem?-snoc nodes (new_node level) a, e, get_elem?-replicate (suc level) l) refl
  | inr e ↦ rw (get_elem?-snoc nodes (new_node level) a, e) refl
]

module _ (cap : ℕ → ℕ) (nodes : List HnswNode) (level : ℕ) where
  abbrev grown : List HnswNode
  grown = nodes ++ (new_node level ∷ [])

  pub new-Tall : (l : ℕ) → l ≤ level → Tall grown l (length nodes)
  new-Tall l h = ground (arith, links_at-append nodes level l (length nodes))

  pub old-Tall : (l a : ℕ) → Tall nodes l a → Tall grown l a
  old-Tall l a h = ground (arith, links_at-append nodes level l a, Tall-below nodes l a h)

  -- A node of the grown index is the new one or an old one.
  pub grown-Tall : (l a : ℕ) → Tall grown l a → (l ≤ level) ⊎ Tall nodes l a
  grown-Tall l a h = elim (Bool-cases (a == length nodes)) [
    | inl e ↦ inl (ground (arith, links_at-append nodes level l a))
    | inr e ↦ inr (ground (arith, links_at-append nodes level l a))
  ]

  grown-cases :
      (l a : ℕ) (ls : List ℕ)
      → links_at grown l a ≡ some ls
      → (ls ≡ []) ⊎ (links_at nodes l a ≡ some ls)
  grown-cases l a ls e = elim (Bool-cases (a == length nodes)) [
    | inl k ↦ elim (Bool-cases (ltb l (suc level))) [
      | inl p ↦ inl (ground (arith, links_at-append nodes level l a))
      | inr p ↦ absurd (ground (arith, links_at-append nodes level l a))
    ]
    | inr k ↦ inr (ground (arith, links_at-append nodes level l a))
  ]

  pub grown-Neat : Neat cap nodes → Neat cap grown
  grown-Neat neat l a ls e = elim (grown-cases l a ls e) [
    | inl none_yet ↦ rw none_yet record {
      tall = λ b h. absurd (omega arith);
      others = λ b h. absurd (omega arith);
      once = λ b. omega arith;
      room = omega arith;
    }
    | inr old ↦
        let good = neat l a ls old in
        record {
          tall = λ b h. old-Tall l b (good.tall b h);
          others = good.others;
          once = good.once;
          room = good.room;
        }
  ]

  -- No list has the id that the next node will have.
  pub next-Unlinked : Neat cap nodes → (n : ℕ) → Unlinked n (length nodes) nodes
  next-Unlinked neat n l a ls p e =
      let good = neat l a ls e in
      elim (Bool-cases (leb (count (length nodes) ls) 0)) [
        | inl q ↦ ground arith
        | inr q ↦ absurd (
            omega
              (arith, Tall-below nodes l (length nodes) (good.tall (length nodes) (ground arith))))
      ]

  pub grown-Unlinked : Neat cap nodes → (n : ℕ) → Unlinked n (length nodes) grown
  grown-Unlinked neat n l a ls p e = elim (grown-cases l a ls e) [
    | inl none_yet ↦ rw none_yet refl
    | inr old ↦ next-Unlinked neat n l a ls p old
  ]
