-- ===== src/Vector/Layers.antt =====
-- The beam search of one layer, from its entry to the sorted results.
use torvmremix.Base.{ℕ, zero, suc, ◌+◌, ◌<◌, ◌≡◌, refl, Option, List, [], ◌∷◌, Bool, length, arith}
use torvmremix.Vector.Partial.{Returns, Returns->>=, Returns-weaken}
use torvmremix.Vector.Counts.{count}
use torvmremix.Vector.Heap.{push, pop}
use torvmremix.Vector.HeapLaws.{Same, Among, Popped, push-Same, pop-Same}
use torvmremix.Vector.Graph.{HnswNode}
use torvmremix.Vector.Search.{closer, farther, expand, drain, search_layer}
use torvmremix.Vector.Beams.{
  Layer, Found, Among-cons, Fit, closer-Returns, farther-Returns, expand-Found,
}

module _ {F : Type 0} (less : F → F → Bool) (dist : ℕ → Option F) (nodes : List HnswNode)
    (level ef : ℕ) (Good : ℕ → Type 0) (layer : Layer dist nodes level Good) (wide : 0 < ef) where
  close : (a b : ℕ) → Good a → Good b → Returns (λ _. Unit) (closer less dist a b)
  close = closer-Returns less dist nodes level ef Good layer wide

  far : (a b : ℕ) → Good a → Good b → Returns (λ _. Unit) (farther less dist a b)
  far = farther-Returns less dist nodes level ef Good layer wide

  -- Everything that is left to pop, and what is out already.
  abbrev Drained : List ℕ → List ℕ → List ℕ → Type 0
  Drained results out all =
      (length all ≡ length results + length out)
      × ((x : ℕ) → count x all ≡ count x results + count x out)

  drain-Drained :
      (n : ℕ) (results out : List ℕ)
      → Among Good results
      → length results ≡ n
      → Returns (Drained results out) (drain less dist n results out)
  unfolding drain
  drain-Drained zero [] out good e = (omega arith, λ x. omega arith)
  drain-Drained zero (r ∷ rs) out good e = absurd (omega arith)
  drain-Drained (suc n) results out good e =
      Returns->>= (Popped results) (Drained results out) (pop (farther less dist) results) _
        (pop-Same (farther less dist) Good far results good (omega arith))
        (λ r s.
          Returns-weaken (Drained r.1 (r.0 ∷ out)) (Drained results out)
            (drain less dist n r.1 (r.0 ∷ out))
            (drain-Drained n r.1 (r.0 ∷ out) (λ x h. good x (ground (arith, s.1 x))) (omega arith))
            (λ all t. (omega arith, λ x. ground (arith, s.1 x, t.1 x))))

  Drained-Found :
      (results all : List ℕ) → Found Good ef results → Drained results [] all → Found Good ef all
  Drained-Found results all found d = record {
    good = λ x h. found.good x (ground (arith, d.1 x));
    once = λ x. ground (arith, d.1 x, found.once x);
    room = omega (arith, found.room);
    one = omega (arith, found.one);
  }

  started :
      (entry : ℕ) (cs rs : List ℕ)
      → Good entry
      → Same (entry ∷ []) cs
      → Same (entry ∷ []) rs
      → Fit less dist nodes level ef Good layer wide
          (suc (length nodes))
          record { visited = entry ∷ []; candidates = cs; results = rs }
  started entry cs rs p s t = record {
    seen = λ x h. Among-cons Good entry [] p (λ y k. absurd (omega arith)) x h;
    once = λ x. ground arith;
    queued = λ x. omega (arith, s.1 x);
    held = λ x. omega (arith, t.1 x);
    room = omega arith;
    one = omega arith;
    turns = omega arith;
  }

  -- The search returns, within as many turns as there are nodes and one more, and what it finds can
  -- be met from the entry.
  pub search_layer-Found :
      (entry : ℕ)
      → Good entry
      → Returns (Found Good ef) (search_layer less dist nodes entry ef level)
  unfolding search_layer
  search_layer-Found entry p =
      let nothing : Among Good [] = λ x h. absurd (omega arith) in
      Returns->>= (Same (entry ∷ [])) (Found Good ef) (push (closer less dist) entry []) _
        (push-Same (closer less dist) Good close entry [] nothing p)
        (λ cs s.
          Returns->>= (Same (entry ∷ [])) (Found Good ef) (push (farther less dist) entry []) _
            (push-Same (farther less dist) Good far entry [] nothing p)
            (λ rs t.
              Returns->>= (Found Good ef) (Found Good ef)
                (expand less dist (suc (length nodes)) nodes level ef
                  record { visited = entry ∷ []; candidates = cs; results = rs })
                _
                (expand-Found less dist nodes level ef Good layer wide (suc (length nodes)) _
                  (started entry cs rs p s t))
                (λ results found.
                  Returns-weaken (Drained results []) (Found Good ef)
                    (drain less dist (length results) results [])
                    (drain-Drained (length results) results [] found.good refl)
                    (λ all d. Drained-Found results all found d))))
