-- ===== src/Vector/Connect.antt =====
-- The levels of an insert: the new node is connected on each of them.
use torvmremix.Base.{
  ℕ, zero, suc, ◌<◌, ◌≤◌, ◌≡◌, sym, subst, ◌∙◌, some, List, [], ◌∷◌, length, arith, ◌==◌, inl, inr,
  Bool-cases, length-take,
}
use torvmremix.Vector.Partial.{◌>>=◌, for_each, Returns, Returns->>=}
use torvmremix.Vector.Counts.{count, count-take}
use torvmremix.Vector.HeapLaws.{Among}
use torvmremix.Vector.Beams.{Found}
use torvmremix.Vector.Layers.{search_layer-Found}
use torvmremix.Vector.Graph.{Floats, HnswNode, HnswIndex, set_links, distance}
use torvmremix.Vector.Search.{search_layer}
use torvmremix.Vector.Insert.{
  select_neighbors_simple, link_back, first_or, max_conn_at, connect_level, connect_levels,
}
use torvmremix.Vector.Distances.{distance-Returns}
use torvmremix.Vector.Links.{Tall, Put, set_links-Put, Tall-lower}
use torvmremix.Vector.Neat.{
  Neat, Unlinked, SameShape, Put-SameShape, Put-Neat, Put-Unlinked, Met, Met-Layer,
}
use torvmremix.Vector.Linking.{Stored, Linking, link_each-Linking}

pub Tall-down : (nodes : List HnswNode) (l k a : ℕ) → k ≤ l → Tall nodes l a → Tall nodes k a
Tall-down nodes zero k a p h = subst (λ c. Tall nodes c a) (omega arith) h
Tall-down nodes (suc l) k a p h = elim (Bool-cases (k == suc l)) [
  | inl e ↦ subst (λ c. Tall nodes c a) (ground arith) h
  | inr e ↦ Tall-down nodes l k a (ground arith) (Tall-lower nodes l a h)
]

-- The choice of the first candidates.
chosen-Found :
    (Good : ℕ → Type 0) (ef n : ℕ) (cs : List ℕ)
    → Found Good ef cs
    → Among Good (select_neighbors_simple cs n)
      × ((x : ℕ) → count x (select_neighbors_simple cs n) ≤ 1)
      × (length (select_neighbors_simple cs n) ≤ n)
unfolding select_neighbors_simple
chosen-Found Good ef n cs found = (
  λ x h. found.good x (ground (arith, count-take x n cs)),
  λ x. ground (arith, count-take x n cs, found.once x),
  ground (arith, length-take n cs),
)

first_or-Found :
    (Good : ℕ → Type 0) (ef ep : ℕ) (cs : List ℕ) → Found Good ef cs → Good (first_or ep cs)
first_or-Found Good ef ep [] found = absurd (omega (arith, found.one))
first_or-Found Good ef ep (c ∷ cs) found = found.good c (ground arith)

module _ (fl : Floats) (h : HnswIndex fl) (vec : List fl.Float32) (id : ℕ) (before : List HnswNode)
    (wide : 0 < h.ef_construct) (long : h.dimension ≤ length vec)
    (stored : (a : ℕ) → a < length before → Stored fl h.dimension h.vectors a) where
  abbrev cap : ℕ → ℕ
  cap = max_conn_at fl h

  -- The nodes with `n` levels left to connect.
  pub record Joining (n : ℕ) (nodes : List HnswNode) : Type 0 where
    pub neat : Neat cap nodes
    pub unlinked : Unlinked n id nodes
    pub shape : SameShape before nodes

  -- With an entry point for the level below, too.
  abbrev pub Ready : ℕ → List HnswNode × ℕ → Type 0
  Ready l r = Joining l r.0 × Met r.0 id l r.1

  unmet :
      (nodes : List HnswNode) (l : ℕ) (ns : List ℕ) → Among (Met nodes id l) ns → count id ns ≡ 0
  unmet nodes l ns good = ground (arith, good id)

  Put-Linking :
      (l : ℕ) (nodes linked : List HnswNode) (ns : List ℕ)
      → Joining (suc l) nodes
      → Tall nodes l id
      → Among (Met nodes id l) ns
      → ((x : ℕ) → count x ns ≤ 1)
      → length ns ≤ cap l
      → Put l id ns nodes linked
      → Linking cap l id before linked
  Put-Linking l nodes linked ns jn tall good once room put =
      let shape = Put-SameShape l id ns nodes linked tall put in
      record {
        neat = Put-Neat cap l id ns nodes linked tall put jn.neat record {
          tall = λ b k. (good b k).0;
          others = λ b k. (good b k).1;
          once = once;
          room = room;
        };
        unlinked =
            Put-Unlinked l id l id ns nodes linked put
              (λ k a ls p e. jn.unlinked k a ls (omega arith) e) (λ p. absurd (omega arith));
        shape = (shape.0 ∙ jn.shape.0, λ k b. shape.1 k b ∙ jn.shape.1 k b);
      }

  connected-Joining :
      (l ep : ℕ) (nodes : List HnswNode) (cs : List ℕ)
      → Joining (suc l) nodes
      → Tall nodes l id
      → Found (Met nodes id l) h.ef_construct cs
      → Returns (Ready l) (
          set_links l id (select_neighbors_simple cs (cap l)) nodes >>= λ linked.
          for_each
            (link_back fl h.dimension h.vectors id (cap l) l)
            (select_neighbors_simple cs (cap l))
            linked
          >>= λ done. some (done, first_or ep cs))
  connected-Joining l ep nodes cs jn tall found =
      let ns = select_neighbors_simple cs (cap l) in
      let (good, once, room) = chosen-Found (Met nodes id l) h.ef_construct (cap l) cs found in
      let next = first_or-Found (Met nodes id l) h.ef_construct ep cs found in
      Returns->>= (Put l id ns nodes) (Ready l) (set_links l id ns nodes) _
        (set_links-Put l id ns nodes tall)
        (λ linked put.
          Returns->>= (Linking cap l id before) (Ready l)
            (for_each (link_back fl h.dimension h.vectors id (cap l) l) ns linked) _
            (link_each-Linking fl h.dimension h.vectors cap l id before stored ns linked
              (Put-Linking l nodes linked ns jn tall good once room put)
              (sym (jn.shape.1 l id) ∙ tall)
              (λ n k. (sym (jn.shape.1 l n) ∙ (good n k).0, (good n k).1)) once
              (λ n ls k e.
                Put-Unlinked (suc l) id l id ns nodes linked put jn.unlinked
                  (λ p. unmet nodes l ns good) l n ls (omega arith) e))
            (λ done lk. (
              record { neat = lk.neat; unlinked = lk.unlinked; shape = lk.shape },
              (
                lk.shape.1 l (first_or ep cs) ∙ sym (jn.shape.1 l (first_or ep cs)) ∙ next.0,
                next.1,
              ),
            )))

  pub connect_level-Joining :
      (l ep : ℕ) (nodes : List HnswNode)
      → Joining (suc l) nodes
      → Tall nodes l id
      → Met nodes id l ep
      → Returns (Ready l) (connect_level fl h vec id l nodes ep)
  unfolding connect_level
  connect_level-Joining l ep nodes jn tall met =
      let dist = distance fl h.dimension h.vectors vec in
      let layer = Met-Layer fl.Float32 dist cap nodes id l jn.neat jn.unlinked (λ a k.
        distance-Returns fl h.dimension h.vectors vec a (stored a (omega (arith, jn.shape.0)))
          long) in
      Returns->>= (Found (Met nodes id l) h.ef_construct) (Ready l)
        (search_layer fl.less dist nodes ep h.ef_construct l) _
        (search_layer-Found fl.less dist nodes l h.ef_construct (Met nodes id l) layer wide ep met)
        (λ cs found. connected-Joining l ep nodes cs jn tall found)

  pub connect_levels-Joining :
      (n ep : ℕ) (nodes : List HnswNode)
      → Joining n nodes
      → ((l : ℕ) → l < n → Tall nodes l id × Met nodes id l ep)
      → Returns (Joining 0) (connect_levels fl h vec id n nodes ep)
  unfolding connect_levels
  connect_levels-Joining zero ep nodes jn tall = jn
  connect_levels-Joining (suc l) ep nodes jn tall =
      let (here, met) = tall l (omega arith) in
      Returns->>= (Ready l) (Joining 0) (connect_level fl h vec id l nodes ep) _
        (connect_level-Joining l ep nodes jn here met)
        (λ r ready. connect_levels-Joining l r.1 r.0 ready.0 (λ k p. (
          (ready.0.shape.1 k id ∙ sym (jn.shape.1 k id) ∙ (tall k (omega arith)).0),
          (Tall-down r.0 l k r.1 (omega arith) ready.1.0, ready.1.1),
        )))
