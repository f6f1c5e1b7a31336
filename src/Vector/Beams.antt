-- ===== src/Vector/Beams.antt =====
-- The loop of the beam search: no panic, and an end.
use torvmremix.Base.{
  ℕ, zero, suc, ◌+◌, ◌<◌, ◌≤◌, ◌≡◌, Option, some, List, [], ◌∷◌, Bool, false, length, ltb, leb,
  is_nil, arith, All, Bool-cases, inl, inr, subst, ◌==◌,
}
use torvmremix.Vector.Partial.{
  ◌>>=◌, for_each, Returns, Returns->>=, Returns-elim, Returns-for_each,
}
use torvmremix.Vector.Counts.{count, contains, contains-false, length_distinct, is_nil-length}
use torvmremix.Vector.Heap.{push, pop}
use torvmremix.Vector.HeapLaws.{Same, Among, Popped, push-Same, pop-Same}
use torvmremix.Vector.Graph.{HnswNode, links_of}
use torvmremix.Vector.Search.{Beam, closer, farther, is_beyond, is_wanted, trim, visit, expand}

-- Ids that a search at a level may meet: they are nodes, their distance can be computed, and so are
-- their links.
pub record Layer {F : Type 0} (dist : ℕ → Option F) (nodes : List HnswNode) (level : ℕ)
    (Good : ℕ → Type 0) : Type 0 where
  pub below : (a : ℕ) → Good a → a < length nodes
  pub near : (a : ℕ) → Good a → Returns (λ _. Unit) (dist a)
  pub linked : (a : ℕ) → Good a → Returns (All Good) (links_of nodes level a)

-- Different ids, at most `ef` and at least one.
pub record Found (Good : ℕ → Type 0) (ef : ℕ) (xs : List ℕ) : Type 0 where
  pub good : Among Good xs
  pub once : (x : ℕ) → count x xs ≤ 1
  pub room : length xs ≤ ef
  pub one : 0 < length xs

pub Among-cons :
    (Good : ℕ → Type 0) (a : ℕ) (xs : List ℕ) → Good a → Among Good xs → Among Good (a ∷ xs)
Among-cons Good a xs one good x h = elim (Bool-cases (x == a)) [
  | inl e ↦ subst Good (ground arith) one
  | inr e ↦ good x (ground arith)
]

module _ {F : Type 0} (less : F → F → Bool) (dist : ℕ → Option F) (nodes : List HnswNode)
    (level ef : ℕ) (Good : ℕ → Type 0) (layer : Layer dist nodes level Good) (wide : 0 < ef) where
  -- The state of the search with `f` turns left.
  pub record Fit (f : ℕ) (b : Beam) : Type 0 where
    pub seen : Among Good b.visited
    pub once : (x : ℕ) → count x b.visited ≤ 1
    pub queued : (x : ℕ) → count x b.candidates ≤ count x b.visited
    pub held : (x : ℕ) → count x b.results ≤ count x b.visited
    pub room : length b.results ≤ ef
    pub one : 0 < length b.results
    pub turns : length b.candidates + suc (length nodes) ≤ length b.visited + f

  queue-Among : {f : ℕ} {b : Beam} → Fit f b → Among Good b.candidates
  queue-Among fit x h = fit.seen x (omega (arith, fit.queued x))

  held-Among : {f : ℕ} {b : Beam} → Fit f b → Among Good b.results
  held-Among fit x h = fit.seen x (omega (arith, fit.held x))

  compare-Returns :
      (P : Bool → Type 0) (a b : ℕ) (test : F → F → Bool)
      → Good a
      → Good b
      → ((t : Bool) → P t)
      → Returns P (dist a >>= λ x. dist b >>= λ y. some (test x y))
  compare-Returns P a b test p q k =
      Returns->>= (λ _. Unit) P (dist a) _ (layer.near a p)
        (λ x _. Returns->>= (λ _. Unit) P (dist b) _ (layer.near b q) (λ y _. k (test x y)))

  pub closer-Returns : (a b : ℕ) → Good a → Good b → Returns (λ _. Unit) (closer less dist a b)
  closer-Returns a b p q = compare-Returns (λ _. Unit) a b less p q (λ _. tt)

  pub farther-Returns : (a b : ℕ) → Good a → Good b → Returns (λ _. Unit) (farther less dist a b)
  farther-Returns a b p q = compare-Returns (λ _. Unit) a b (λ x y. less y x) p q (λ _. tt)

  is_wanted-Returns :
      (a : ℕ) (results : List ℕ)
      → Good a
      → Among Good results
      → 0 < length results
      → Returns (λ _. Unit) (is_wanted less dist ef a results)
  is_wanted-Returns a [] p q h = absurd (omega arith)
  is_wanted-Returns a (top ∷ rest) p q h =
      Returns-elim (λ _. Unit) (ltb (length (top ∷ rest)) ef) _ _ (λ _. tt)
        (λ _. compare-Returns (λ _. Unit) a top less p (q top (ground arith)) (λ _. tt))

  is_beyond-Returns :
      (a : ℕ) (results : List ℕ)
      → Good a
      → Among Good results
      → 0 < length results
      → Returns (λ _. Unit) (is_beyond less dist ef a results)
  is_beyond-Returns a [] p q h = absurd (omega arith)
  is_beyond-Returns a (top ∷ rest) p q h =
      Returns-elim (λ _. Unit) (leb ef (length (top ∷ rest))) _ _
        (λ _.
          compare-Returns (λ _. Unit) a top (λ x y. less y x) p (q top (ground arith)) (λ _. tt))
        (λ _. tt)

  -- What is kept of the results once one is pushed.
  abbrev Trimmed : List ℕ → List ℕ → Type 0
  Trimmed rs ks = ((x : ℕ) → count x ks ≤ count x rs) × (length ks ≤ ef) × (0 < length ks)

  trim-Trimmed :
      (rs : List ℕ)
      → Among Good rs
      → length rs ≤ suc ef
      → 0 < length rs
      → Returns (Trimmed rs) (trim less dist ef rs)
  trim-Trimmed rs good most h =
      Returns-elim (Trimmed rs) (ltb ef (length rs)) _ _
        (λ over.
          Returns->>= (Popped rs) (Trimmed rs) (pop (farther less dist) rs) _
            (pop-Same (farther less dist) Good farther-Returns rs good h)
            (λ r s. (λ x. ground (arith, s.1 x), ground arith, ground arith)))
        (λ fits. (λ x. omega arith, ground arith, h))

  pushed_both :
      {f : ℕ} {b : Beam} (a : ℕ) (cs rs ks : List ℕ)
      → Fit f b
      → Good a
      → contains a b.visited ≡ false
      → Same (a ∷ b.candidates) cs
      → Same (a ∷ b.results) rs
      → Trimmed rs ks
      → Fit f record { visited = a ∷ b.visited; candidates = cs; results = ks }
  pushed_both {f} {b} a cs rs ks fit p new s t k = record {
    seen = Among-cons Good a b.visited p fit.seen;
    once = λ x. ground (arith, fit.once x, contains-false a b.visited new);
    queued = λ x. ground (arith, fit.queued x, s.1 x);
    held = λ x. ground (arith, fit.held x, t.1 x, k.0 x);
    room = k.1;
    one = k.2;
    turns = omega (arith, fit.turns);
  }

  passed :
      {f : ℕ} {b : Beam} (a : ℕ)
      → Fit f b
      → Good a
      → contains a b.visited ≡ false
      → Fit f record b { visited = a ∷ b.visited }
  passed {f} {b} a fit p new = record {
    seen = Among-cons Good a b.visited p fit.seen;
    once = λ x. ground (arith, fit.once x, contains-false a b.visited new);
    queued = λ x. ground (arith, fit.queued x);
    held = λ x. ground (arith, fit.held x);
    room = fit.room;
    one = fit.one;
    turns = omega (arith, fit.turns);
  }

  visit-Fit : (f a : ℕ) (b : Beam) → Good a → Fit f b → Returns (Fit f) (visit less dist ef a b)
  unfolding visit
  visit-Fit f a b p fit =
      Returns-elim (Fit f) (contains a b.visited) _ _ (λ _. fit)
        (λ new.
          Returns->>= (λ _. Unit) (Fit f) (is_wanted less dist ef a b.results) _
            (is_wanted-Returns a b.results p (held-Among fit) fit.one)
            (λ wanted _.
              Returns-elim (Fit f) wanted _ _
                (λ _.
                  Returns->>= (Same (a ∷ b.candidates)) (Fit f)
                    (push (closer less dist) a b.candidates) _
                    (push-Same (closer less dist) Good closer-Returns a b.candidates
                      (queue-Among fit) p)
                    (λ cs s.
                      Returns->>= (Same (a ∷ b.results)) (Fit f)
                        (push (farther less dist) a b.results) _
                        (push-Same (farther less dist) Good farther-Returns a b.results
                          (held-Among fit) p)
                        (λ rs t.
                          Returns->>= (Trimmed rs) (Fit f) (trim less dist ef rs) _
                            (trim-Trimmed rs
                              (λ x h.
                                Among-cons Good a b.results p (held-Among fit) x
                                  (omega (arith, t.1 x)))
                              (omega (arith, fit.room)) (omega arith))
                            (λ ks k. pushed_both a cs rs ks fit p new s t k))))
                (λ _. passed a fit p new)))

  visited-most : {f : ℕ} {b : Beam} → Fit f b → length b.visited ≤ length nodes
  visited-most {f} {b} fit =
      length_distinct (length nodes) b.visited fit.once (λ x h. layer.below x (fit.seen x h))

  Fit-Found : {f : ℕ} {b : Beam} → Fit f b → Found Good ef b.results
  Fit-Found fit = record {
    good = held-Among fit;
    once = λ x. omega (arith, fit.held x, fit.once x);
    room = fit.room;
    one = fit.one;
  }

  dequeued :
      {f : ℕ} {b : Beam} (top : ℕ × List ℕ)
      → Fit (suc f) b
      → Popped b.candidates top
      → Fit f record b { candidates = top.1 }
  dequeued {f} {b} top fit s = record {
    seen = fit.seen;
    once = fit.once;
    queued = λ x. ground (arith, fit.queued x, s.1 x);
    held = fit.held;
    room = fit.room;
    one = fit.one;
    turns = omega (arith, fit.turns);
  }

  pub expand-Found :
      (f : ℕ) (b : Beam) → Fit f b → Returns (Found Good ef) (expand less dist f nodes level ef b)
  unfolding expand
  expand-Found zero b fit = absurd (omega (arith, fit.turns, visited-most fit))
  expand-Found (suc f) b fit =
      Returns-elim (Found Good ef) (is_nil b.candidates) _ _ (λ _. Fit-Found fit)
        (λ more.
          Returns->>= (Popped b.candidates) (Found Good ef) (pop (closer less dist) b.candidates) _
            (pop-Same (closer less dist) Good closer-Returns b.candidates (queue-Among fit)
              (is_nil-length b.candidates more))
            (λ top s.
              let found : Good top.0 = queue-Among fit top.0 (ground (arith, s.1 top.0)) in
              Returns->>= (λ _. Unit) (Found Good ef) (is_beyond less dist ef top.0 b.results) _
                (is_beyond-Returns top.0 b.results found (held-Among fit) fit.one)
                (λ stop _.
                  Returns-elim (Found Good ef) stop _ _ (λ _. Fit-Found fit)
                    (λ _.
                      Returns->>= (All Good) (Found Good ef) (links_of nodes level top.0) _
                        (layer.linked top.0 found)
                        (λ links all.
                          Returns->>= (Fit f) (Found Good ef)
                            (for_each (visit less dist ef) links record b { candidates = top.1 }) _
                            (Returns-for_each Good (Fit f) (visit less dist ef) (visit-Fit f) links
                              record b { candidates = top.1 } all (dequeued top fit s))
                            (λ next. expand-Found f next))))))
