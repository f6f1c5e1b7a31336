-- ===== src/Vector/Grow.antt =====
-- Insert: no panic, an end, and a well-formed index with the new vector.
use torvmremix.Base.{
  ℕ, zero, suc, ◌+◌, ◌-◌, ◌*◌, ◌<◌, ◌≤◌, ◌≡◌, refl, sym, subst, ◌∙◌, Option, none, some, List, [],
  ◌∷◌, ◌++◌, length, min, ltb, arith, inl, inr, Bool-cases, ◌⊎◌, length-append,
}
use torvmremix.Vector.Partial.{◌>>=◌, Returns, Returns->>=}
use torvmremix.Vector.Graph.{Floats, HnswNode, HnswIndex, distance}
use torvmremix.Vector.Search.{greedy_closest}
use torvmremix.Vector.Insert.{
  max_conn_at, new_node, append_node, descend, connect_levels, join_graph, insert,
}
use torvmremix.Vector.Descent.{Order, greedy_closest-Stopped}
use torvmremix.Vector.Distances.{distance-Returns}
use torvmremix.Vector.Links.{Tall, Tall-below}
use torvmremix.Vector.Neat.{Neat, Unlinked, Met, Met-Layer}
use torvmremix.Vector.Linking.{Stored}
use torvmremix.Vector.Connect.{Joining, connect_levels-Joining, Tall-down}
use torvmremix.Vector.WellFormed.{
  Entered, WellFormed, WellFormed-Stored, new-Tall, old-Tall, grown-Tall, grown-Neat,
  grown-Unlinked,
}

module _ (fl : Floats) (order : Order fl.less) (h : HnswIndex fl) (q : List fl.Float32) (id : ℕ)
    (neat : Neat (max_conn_at fl h) h.nodes) (unlinked : (n : ℕ) → Unlinked n id h.nodes)
    (sized : length h.vectors ≡ length h.nodes * h.dimension) (long : h.dimension ≤ length q) where
  -- The descent ends at a node that has the level the search goes on at.
  pub descend-Met :
      (n bottom t ep : ℕ)
      → (0 < n → t ≡ bottom)
      → Met h.nodes id (n + t) ep
      → Returns (Met h.nodes id t) (descend fl h q n bottom ep)
  unfolding descend
  descend-Met zero bottom t ep same met = subst (λ k. Met h.nodes id k ep) (omega arith) met
  descend-Met (suc n) bottom t ep same met =
      let dist = distance fl h.dimension h.vectors q in
      let at : Met h.nodes id (suc n + bottom) ep =
        subst (λ k. Met h.nodes id k ep) (omega (arith, same)) met in
      let layer =
        Met-Layer fl.Float32 dist (max_conn_at fl h) h.nodes id (suc n + bottom) neat
          (unlinked (suc (suc n + bottom)))
          (λ a k.
            distance-Returns fl h.dimension h.vectors q a (WellFormed-Stored fl h sized a k)
              long) in
      let (d, _, stops) =
        greedy_closest-Stopped fl.less order dist h.nodes (suc n + bottom)
          (Met h.nodes id (suc n + bottom)) layer ep at in
      Returns->>= _ (Met h.nodes id t) (greedy_closest fl.less dist h.nodes ep (suc n + bottom)) _
        stops
        (λ next stop.
          descend-Met n bottom t next (λ p. same (omega arith))
            (
              Tall-down h.nodes (suc n + bottom) (n + t) next (omega (arith, same)) stop.good.0,
              stop.good.1,
            ))

-- What Insert gives: the next id, and a well-formed index with the vector behind the others.
pub record Inserted (fl : Floats) (h : HnswIndex fl) (vec : List fl.Float32) (r : HnswIndex fl × ℕ)
    : Type 0 where
  pub id : r.1 ≡ length h.nodes
  pub well_formed : WellFormed fl r.0
  pub grown : length r.0.nodes ≡ suc (length h.nodes)
  pub appended : r.0.vectors ≡ h.vectors ++ vec
  pub dimension : r.0.dimension ≡ h.dimension

module _ (fl : Floats) (order : Order fl.less) (h : HnswIndex fl) (vec : List fl.Float32)
    (level : ℕ) (wf : WellFormed fl h) (long : length vec ≡ h.dimension) where
  -- The index with the new node, and the levels it is connected on.
  abbrev with_node : HnswIndex fl
  with_node = append_node fl h vec level

  abbrev top_joined : ℕ
  top_joined = min level h.max_level

  with_node-sized : length with_node.vectors ≡ length with_node.nodes * h.dimension
  with_node-sized =
      let e : length with_node.nodes ≡ suc (length h.nodes) =
        omega (arith, length-append h.nodes (new_node level ∷ [])) in
      rw (e, length-append h.vectors vec) (grind (arith, wf.sized, long))

  with_node-Stored :
      (a : ℕ) → a < length with_node.nodes → Stored fl h.dimension with_node.vectors a
  with_node-Stored = WellFormed-Stored fl with_node with_node-sized

  vec_long : h.dimension ≤ length vec
  vec_long = omega arith

  abbrev Joined : ℕ → List HnswNode → Type 0
  Joined =
      Joining fl with_node vec (length h.nodes) with_node.nodes wf.wide vec_long with_node-Stored

  start-Joined : (n : ℕ) → Joined n with_node.nodes
  start-Joined n = record {
    neat = grown-Neat (max_conn_at fl h) h.nodes level wf.neat;
    unlinked = grown-Unlinked (max_conn_at fl h) h.nodes level wf.neat n;
    shape = (refl, λ l a. refl);
  }

  old_nodes-Tall :
      (nodes : List HnswNode) (l a : ℕ)
      → Joined 0 nodes
      → Tall nodes l a
      → (l ≤ level) ⊎ Tall h.nodes l a
  old_nodes-Tall nodes l a jn tall =
      grown-Tall (max_conn_at fl h) h.nodes level l a (sym (jn.shape.1 l a) ∙ tall)

  Joined-Inserted :
      (nodes : List HnswNode) (top : ℕ) (entry : Option ℕ)
      → Joined 0 nodes
      → level ≤ top
      → ((l a : ℕ) → Tall h.nodes l a → l ≤ top)
      → Entered nodes top entry
      → Inserted fl h vec
          (record with_node { nodes = nodes; max_level = top; entry_point = entry }, length h.nodes)
  Joined-Inserted nodes top entry jn low high entered = record {
    id = refl;
    well_formed = record {
      sized = rw (jn.shape.0) with_node-sized;
      neat = jn.neat;
      top = λ l a tall. elim (old_nodes-Tall nodes l a jn tall) [
        | inl new ↦ omega arith
        | inr old ↦ high l a old
      ];
      entered = entered;
      wide = wf.wide;
      search_wide = wf.search_wide;
    };
    grown = omega (arith, jn.shape.0, length-append h.nodes (new_node level ∷ []));
    appended = refl;
    dimension = refl;
  }

  join_graph-Inserted :
      (entry : ℕ)
      → h.entry_point ≡ some entry
      → Tall h.nodes h.max_level entry
      → Returns
          (λ done. Inserted fl h vec (done, length h.nodes))
          (join_graph fl with_node vec (length h.nodes) level entry)
  unfolding join_graph
  join_graph-Inserted entry e tall =
      let id = length h.nodes in
      let cap = max_conn_at fl h in
      let met : Met with_node.nodes id h.max_level entry = (
        old-Tall cap h.nodes level h.max_level entry tall,
        λ same. absurd (omega (arith, Tall-below h.nodes h.max_level entry tall)),
      ) in
      Returns->>= (Met with_node.nodes id top_joined) _
        (descend fl with_node vec (h.max_level - level) level entry) _
        (descend-Met fl order with_node vec id (grown-Neat cap h.nodes level wf.neat)
          (grown-Unlinked cap h.nodes level wf.neat) with_node-sized vec_long (h.max_level - level)
          level top_joined entry (λ p. omega arith)
          (subst (λ k. Met with_node.nodes id k entry) (omega arith) met))
        (λ ep at.
          Returns->>= (Joined 0) _
            (connect_levels fl with_node vec id (suc top_joined) with_node.nodes ep) _
            (connect_levels-Joining fl with_node vec id with_node.nodes wf.wide vec_long
              with_node-Stored (suc top_joined) ep with_node.nodes (start-Joined (suc top_joined))
              (λ l p. (
                new-Tall cap h.nodes level l (omega arith),
                (Tall-down with_node.nodes top_joined l ep (omega arith) at.0, at.1),
              )))
            (λ nodes jn. elim (Bool-cases (ltb h.max_level level)) [
              | inl higher ↦ rw higher (
                  Joined-Inserted nodes level (some id) jn (omega arith)
                    (λ l a old. ground (arith, wf.top l a old))
                    (jn.shape.1 level id ∙ new-Tall cap h.nodes level level (omega arith)))
              | inr within ↦ rw within (
                  Joined-Inserted nodes h.max_level h.entry_point jn (ground arith) wf.top (
                    subst (Entered nodes h.max_level) (sym e)
                      (jn.shape.1 h.max_level entry ∙ met.0)))
            ]))

  insert-at :
      (o : Option ℕ)
      → h.entry_point ≡ o
      → Entered h.nodes h.max_level o
      → Returns (Inserted fl h vec) (elim o [
        | none ↦ some (
          record with_node { entry_point = some (length h.nodes); max_level = level },
          length h.nodes,
        )
        | some entry ↦ join_graph fl with_node vec (length h.nodes) level entry >>= λ done.
            some (done, length h.nodes)
      ])
  insert-at none e empty =
      Joined-Inserted with_node.nodes level (some (length h.nodes)) (start-Joined 0) (omega arith)
        (λ l a old. absurd (omega (arith, Tall-below h.nodes l a old)))
        (new-Tall (max_conn_at fl h) h.nodes level level (omega arith))
  insert-at (some entry) e tall =
      Returns->>= (λ done. Inserted fl h vec (done, length h.nodes)) (Inserted fl h vec)
        (join_graph fl with_node vec (length h.nodes) level entry) _
        (join_graph-Inserted entry e tall) (λ done good. good)

-- Insert into a well-formed index returns, within the turns that its loops are given: it gives the
-- number of the vectors before as the id, and a well-formed index with the new vector behind the
-- others, if the vector has the index's dimension and the comparison of distances is irreflexive and
-- transitive.
pub insert-Inserted :
    (fl : Floats) (h : HnswIndex fl) (vec : List fl.Float32) (level : ℕ)
    → Order fl.less
    → WellFormed fl h
    → length vec ≡ h.dimension
    → Returns (Inserted fl h vec) (insert fl h vec level)
unfolding insert
insert-Inserted fl h vec level order wf long =
    insert-at fl order h vec level wf long h.entry_point refl wf.entered
