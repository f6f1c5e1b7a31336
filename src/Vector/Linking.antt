-- ===== src/Vector/Linking.antt =====
-- The reverse connections of an insert.
use torvmremix.Base.{
  ℕ, ◌+◌, ◌*◌, ◌<◌, ◌≤◌, ◌≡◌, refl, sym, subst, ◌∙◌, Option, some, List, [], ◌∷◌, ◌++◌, Bool,
  length, leb, ltb, arith, All, ◌≢◌, length-take,
}
use torvmremix.Vector.Partial.{for_each, Returns, Returns->>=, Returns-elim, Returns-weaken}
use torvmremix.Vector.Counts.{count, count-append, count-take}
use torvmremix.Vector.HeapLaws.{Among, Same}
use torvmremix.Vector.Beams.{Among-cons}
use torvmremix.Vector.Graph.{Floats, HnswNode, links_at, set_links, vector_at, distance}
use torvmremix.Vector.Insert.{
  closest, select_neighbors_for_node, link_back, exchange_sort, score_each,
}
use torvmremix.Vector.Select.{ids, Has, score_each-Has, sort-Same}
use torvmremix.Vector.Distances.{vector_at-Returns, distance-Returns}
use torvmremix.Vector.Links.{Tall, Put, is_some-true, set_links-Put, Tall-below, Among-All}
use torvmremix.Vector.Neat.{
  Neighbours, Neat, Unlinked, SameShape, Put-SameShape, Put-Neat, Put-Unlinked,
}

-- Some of the candidates, as many as there is room for.
abbrev pub Kept : List ℕ → ℕ → List ℕ → Type 0
Kept cs n kept = ((x : ℕ) → count x kept ≤ count x cs) × (length kept ≤ n)

module _ {F : Type 0} (less : F → F → Bool) where
  closest-Kept :
      (dist : ℕ → Option F) (cs : List ℕ) (n : ℕ)
      → All (λ c. Returns (λ _. Unit) (dist c)) cs
      → Returns (Kept cs n) (closest less dist cs n)
  unfolding closest
  closest-Kept dist cs n all =
      Returns->>= (λ sc. (ids sc ≡ cs) × All (Has less dist) sc) (Kept cs n)
        (score_each less dist cs) _ (score_each-Has less dist cs all)
        (λ sc h.
          let sorted = exchange_sort less (length sc) sc in
          let s : Same cs (ids sorted) =
            subst (λ ds. Same ds (ids sorted)) h.0 (sort-Same less (length sc) sc) in
          (
            λ x. omega (arith, count-take x n (ids sorted), s.1 x),
            omega (arith, length-take n (ids sorted)),
          ))

module _ (fl : Floats) (d : ℕ) (xs : List fl.Float32) where
  abbrev pub Stored : ℕ → Type 0
  Stored c = c * d + d ≤ length xs

  select_neighbors_for_node-Kept :
      (a : ℕ) (cs : List ℕ) (n : ℕ)
      → Stored a
      → Among Stored cs
      → Returns (Kept cs n) (select_neighbors_for_node fl d xs a cs n)
  unfolding select_neighbors_for_node
  select_neighbors_for_node-Kept a cs n h all =
      Returns-elim (Kept cs n) (leb (length cs) n) _ _ (λ few. (λ x. omega arith, ground arith))
        (λ many.
          Returns->>= (λ v. length v ≡ d) (Kept cs n) (vector_at fl d xs a) _
            (vector_at-Returns fl d xs a h)
            (λ v e. closest-Kept fl.less (distance fl d xs v) cs n (
              Among-All (λ c. Returns (λ _. Unit) (distance fl d xs v c)) cs
                (λ c k. distance-Returns fl d xs v c (all c k) (omega arith)))))

Put-Put :
    (l a : ℕ) (xs ys : List ℕ) (nodes mid after : List HnswNode)
    → Put l a xs nodes mid
    → Put l a ys mid after
    → Put l a ys nodes after
Put-Put l a xs ys nodes mid after p q = (omega arith, λ k b. ground (arith, p.1 k b, q.1 k b))

-- A neighbour's list with a new id behind it, or what is kept of it.
extended :
    (cap : ℕ → ℕ) (nodes : List HnswNode) (l n id : ℕ) (ls ms : List ℕ)
    → Neighbours cap nodes l n ls
    → Tall nodes l id
    → id ≢ n
    → count id ls ≡ 0
    → Kept (ls ++ (id ∷ [])) (cap l) ms
    → Neighbours cap nodes l n ms
extended cap nodes l n id ls ms good tall other new kept = record {
  tall = λ b h.
      Among-cons (Tall nodes l) id ls tall good.tall b
        (omega (arith, kept.0 b, count-append b ls (id ∷ [])));
  others = λ b h.
      Among-cons (λ c. c ≢ n) id ls other good.others b
        (omega (arith, kept.0 b, count-append b ls (id ∷ [])));
  once = λ b. ground (arith, kept.0 b, count-append b ls (id ∷ []), good.once b);
  room = kept.1;
}

-- While the reverse connections are made: the graph is neat, and the levels below do not have the
-- new id yet.
pub record Linking (cap : ℕ → ℕ) (l id : ℕ) (before nodes : List HnswNode) : Type 0 where
  pub neat : Neat cap nodes
  pub unlinked : Unlinked l id nodes
  pub shape : SameShape before nodes

-- Nothing but the list of one node at one level has changed.
abbrev pub OnlyAt : ℕ → ℕ → List HnswNode → List HnswNode → Type 0
OnlyAt l n nodes after = (b : ℕ) → b ≢ n → links_at after l b ≡ links_at nodes l b

Put-Linking :
    (cap : ℕ → ℕ) (l id n : ℕ) (before nodes after : List HnswNode) (ms : List ℕ)
    → Linking cap l id before nodes
    → Tall nodes l n
    → Put l n ms nodes after
    → Neighbours cap nodes l n ms
    → Linking cap l id before after × OnlyAt l n nodes after
Put-Linking cap l id n before nodes after ms lk tall put good =
    let shape = Put-SameShape l n ms nodes after tall put in
    (
      record {
        neat = Put-Neat cap l n ms nodes after tall put lk.neat good;
        unlinked = Put-Unlinked l id l n ms nodes after put lk.unlinked (λ h. absurd (omega arith));
        shape = (shape.0 ∙ lk.shape.0, λ k b. shape.1 k b ∙ lk.shape.1 k b);
      },
      λ b h. ground (arith, put.1 l b, h),
    )

module _ (fl : Floats) (d : ℕ) (xs : List fl.Float32) (cap : ℕ → ℕ) (l id : ℕ)
    (before : List HnswNode) (stored : (a : ℕ) → a < length before → Stored fl d xs a) where
  pub link_back-Linking :
      (n : ℕ) (nodes : List HnswNode) (ls : List ℕ)
      → Linking cap l id before nodes
      → links_at nodes l n ≡ some ls
      → Tall nodes l id
      → id ≢ n
      → count id ls ≡ 0
      → Returns
          (λ after. Linking cap l id before after × OnlyAt l n nodes after)
          (link_back fl d xs id (cap l) l n nodes)
  unfolding link_back
  link_back-Linking n nodes ls lk e tall other new =
      let P = λ (after : List HnswNode). Linking cap l id before after × OnlyAt l n nodes after in
      let here : Tall nodes l n = rw e refl in
      let more = ls ++ (id ∷ []) in
      let good = lk.neat l n ls e in
      let known : Among (Stored fl d xs) more = λ b h. stored b (
        let k =
          Among-cons (Tall nodes l) id ls tall good.tall b
            (omega (arith, count-append b ls (id ∷ []))) in
        omega (arith, Tall-below nodes l b k, lk.shape.0)) in
      rw e (
        Returns->>= (Put l n more nodes) P (set_links l n more nodes) _
          (set_links-Put l n more nodes here)
          (λ grown put.
            Returns-elim P (ltb (cap l) (length more)) _ _
              (λ over.
                Returns->>= (Kept more (cap l)) P (select_neighbors_for_node fl d xs n more (cap l))
                  _
                  (select_neighbors_for_node-Kept fl d xs n more (cap l)
                    (stored n (omega (arith, Tall-below nodes l n here, lk.shape.0))) known)
                  (λ ms kept.
                    Returns-weaken (Put l n ms grown) P (set_links l n ms grown)
                      (set_links-Put l n ms grown
                        ((Put-SameShape l n more nodes grown here put).1 l n ∙ here))
                      (λ after again.
                        Put-Linking cap l id n before nodes after ms lk here
                          (Put-Put l n more ms nodes grown after put again)
                          (extended cap nodes l n id ls ms good tall other new kept))))
              (λ fits. Put-Linking cap l id n before nodes grown more lk here put (
                extended cap nodes l n id ls more good tall other new
                  (λ x. omega arith, ground arith)))))

  -- The connections of all the neighbours, which are different nodes of the level and do not have
  -- the new id yet.
  pub link_each-Linking :
      (ns : List ℕ) (nodes : List HnswNode)
      → Linking cap l id before nodes
      → Tall before l id
      → Among (λ n. Tall before l n × (n ≢ id)) ns
      → ((x : ℕ) → count x ns ≤ 1)
      → ((n : ℕ) (ls : List ℕ) → 0 < count n ns → links_at nodes l n ≡ some ls → count id ls ≡ 0)
      → Returns (Linking cap l id before) (for_each (link_back fl d xs id (cap l) l) ns nodes)
  link_each-Linking [] nodes lk tall known once new = lk
  link_each-Linking (n ∷ ns) nodes lk tall known once new =
      let (here, other) = known n (ground arith) in
      let (ls, e) = is_some-true (links_at nodes l n) (lk.shape.1 l n ∙ here) in
      Returns->>= (λ after. Linking cap l id before after × OnlyAt l n nodes after)
        (Linking cap l id before) (link_back fl d xs id (cap l) l n nodes) _
        (link_back-Linking n nodes ls lk e (lk.shape.1 l id ∙ tall) (λ k. other (sym k))
          (new n ls (ground arith) e))
        (λ after h.
          link_each-Linking ns after h.0 tall (λ b k. known b (ground arith))
            (λ b. ground (arith, once b))
            (λ b ms k f.
              new b ms (ground arith) (sym (h.1 b (λ same. absurd (twice b same k))) ∙ f)))
    where
      twice : (b : ℕ) → b ≡ n → 0 < count b ns → ⊥
      twice b same k = ground (arith, once b)
