-- ===== src/Vector/Links.antt =====
-- The lists of neighbours as an array of arrays.
use torvmremix.Base.{
  ℕ, zero, suc, ◌<◌, ◌≡◌, refl, sym, ap, subst, ◌∙◌, Option, none, some, List, [], ◌∷◌, Bool, true,
  false, ◌&&◌, length, get_elem?, if◌then◌else◌, arith, ◌==◌, Bool-cases, Option-cases, inl, inr,
  All,
}
use torvmremix.Vector.Partial.{◌>>=◌, Returns}
use torvmremix.Vector.HeapLaws.{Among}
use torvmremix.Vector.Graph.{HnswNode, links_at, links_of, modify, set_links}

abbrev pub is_some {ℓ} : {A : Type ℓ} → Option A → Bool
is_some none = false
is_some (some a) = true

-- A node has a level.
abbrev pub Tall : List HnswNode → ℕ → ℕ → Type 0
Tall nodes l a = is_some (links_at nodes l a) ≡ true

pub is_some-true : {A : Type 0} (o : Option A) → is_some o ≡ true → (a : A) × (o ≡ some a)
is_some-true none h = absurd (cc)
is_some-true (some a) h = (a, refl)

pub length-modify :
    {A : Type 0} (i : ℕ) (f : A → A) (xs : List A) → length (modify i f xs) ≡ length xs
length-modify i f [] = refl
length-modify zero f (x ∷ xs) = refl
length-modify (suc i) f (x ∷ xs) = omega (arith, length-modify i f xs)

get_elem?-modify :
    {A : Type 0} (i j : ℕ) (f : A → A) (xs : List A)
    → get_elem? (modify i f xs) j
      ≡ (if i == j then (get_elem? xs j >>= λ x. some (f x)) else get_elem? xs j)
get_elem?-modify i j f [] = ground arith
get_elem?-modify zero zero f (x ∷ xs) = refl
get_elem?-modify zero (suc j) f (x ∷ xs) = ground arith
get_elem?-modify (suc i) zero f (x ∷ xs) = ground arith
get_elem?-modify (suc i) (suc j) f (x ∷ xs) = ground (arith, get_elem?-modify i j f xs)

-- The lists after one of them is put in its place.
abbrev pub Put : ℕ → ℕ → List ℕ → List HnswNode → List HnswNode → Type 0
Put l a ls nodes after =
    (length after ≡ length nodes)
    × ((k b : ℕ) → links_at after k b ≡ (if a == b && l == k then some ls else links_at nodes k b))

connected :
    (l a : ℕ) (nodes : List HnswNode) {ls : List ℕ}
    → links_at nodes l a ≡ some ls
    → (node : HnswNode) × (get_elem? nodes a ≡ some node) × (get_elem? node.connections l ≡ some ls)
unfolding links_at
connected l a nodes h = elim (Option-cases (get_elem? nodes a)) [
  | inl e ↦ absurd (ground (arith, e, h))
  | inr (node, e) ↦ (node, e, sym (ap (λ o. o >>= λ n. get_elem? n.connections l) e) ∙ h)
]

put_at :
    (l a : ℕ) (ls old : List ℕ) (node : HnswNode) (k b : ℕ) (nodes : List HnswNode)
    → get_elem? nodes a ≡ some node
    → get_elem? node.connections l ≡ some old
    → links_at
        (modify a
          (λ (n : HnswNode). record n { connections = modify l (λ _. ls) n.connections })
          nodes)
        k
        b
      ≡ (if a == b && l == k then some ls else links_at nodes k b)
unfolding links_at
put_at l a ls old node k b nodes e h =
    let f = λ (n : HnswNode). record n { connections = modify l (λ _. ls) n.connections } in
    elim (Bool-cases (a == b)) [
      | inr other ↦ rw (get_elem?-modify a b f nodes, other) refl
      | inl same ↦
          let here : get_elem? nodes b ≡ some node =
            subst (λ c. get_elem? nodes c ≡ some node) (ground arith) e in
          rw
            (
              get_elem?-modify a b f nodes,
              same,
              here,
              get_elem?-modify l k (λ _. ls) node.connections,
            )
            (elim (Bool-cases (l == k)) [
              | inr apart ↦ rw apart refl
              | inl level ↦
                  let there : get_elem? node.connections k ≡ some old =
                    subst (λ c. get_elem? node.connections c ≡ some old) (ground arith) h in
                  rw (level, there) refl
            ])
    ]

pub set_links-Put :
    (l a : ℕ) (ls : List ℕ) (nodes : List HnswNode)
    → Tall nodes l a
    → Returns (Put l a ls nodes) (set_links l a ls nodes)
unfolding set_links
set_links-Put l a ls nodes h =
    let (old, e) = is_some-true (links_at nodes l a) h in
    let (node, p, q) = connected l a nodes e in
    rw e (length-modify a _ nodes, λ k b. put_at l a ls old node k b nodes p q)

pub links_of-Tall :
    (nodes : List HnswNode) (l a : ℕ) {ls : List ℕ}
    → links_at nodes l a ≡ some ls
    → links_of nodes l a ≡ some ls
unfolding links_of
links_of-Tall nodes l a h = let (node, p, q) = connected l a nodes h in rw (p, q) refl

get_elem?-lower :
    {A : Type 0} (i : ℕ) (xs : List A)
    → is_some (get_elem? xs (suc i)) ≡ true
    → is_some (get_elem? xs i) ≡ true
get_elem?-lower i [] h = h
get_elem?-lower zero (x ∷ xs) h = refl
get_elem?-lower (suc i) (x ∷ xs) h = get_elem?-lower i xs h

pub Among-All : (P : ℕ → Type 0) (xs : List ℕ) → Among P xs → All P xs
Among-All P [] h = tt
Among-All P (x ∷ xs) h = (h x (ground arith), Among-All P xs (λ y k. h y (ground arith)))

pub Tall-lower : (nodes : List HnswNode) (l a : ℕ) → Tall nodes (suc l) a → Tall nodes l a
unfolding links_at
Tall-lower nodes l a h =
    let (ls, e) = is_some-true (links_at nodes (suc l) a) h in
    let (node, p, q) = connected (suc l) a nodes e in
    rw p (get_elem?-lower l node.connections (rw q refl))

get_elem?-inside :
    {A : Type 0} (xs : List A) (i : ℕ) {x : A} → get_elem? xs i ≡ some x → i < length xs
get_elem?-inside [] i h = absurd (cc)
get_elem?-inside (x ∷ xs) zero h = omega arith
get_elem?-inside (x ∷ xs) (suc i) h = omega (arith, get_elem?-inside xs i h)

pub Tall-below : (nodes : List HnswNode) (l a : ℕ) → Tall nodes l a → a < length nodes
Tall-below nodes l a h =
    let (ls, e) = is_some-true (links_at nodes l a) h in
    let (node, p, q) = connected l a nodes e in get_elem?-inside nodes a p
