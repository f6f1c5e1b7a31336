-- ===== src/Vector/Select.antt =====
-- The choice of neighbours for a node that has too many: the closest are kept.
use torvmremix.Base.{
  ℕ, zero, suc, ◌≤◌, ◌≡◌, refl, ap, append-nil, subst, Option, some, List, [], ◌∷◌, ◌++◌, Bool,
  true, false, length, take, drop, leb, min, map, if◌then◌else◌, arith, All, All-drop, length-take,
  take-append-drop, Bool-cases, inl, inr,
}
use torvmremix.Vector.Partial.{Returns, Returns->>=, Returns-elim, Returns-some}
use torvmremix.Vector.Counts.{count}
use torvmremix.Vector.HeapLaws.{Same}
use torvmremix.Vector.Graph.{Floats, vector_at, distance}
use torvmremix.Vector.Search.{closer}
use torvmremix.Vector.Insert.{
  Scored, settle, exchange_sort, score_each, closest, select_neighbors_for_node,
}

module _ {F : Type 0} where
  abbrev pub ids : List (Scored F) → List ℕ
  ids xs = map (λ (s : Scored F). s.0) xs

  ids-length : (ys : List (Scored F)) → length (ids ys) ≡ length ys
  ids-length [] = refl
  ids-length (y ∷ ys) = ap suc (ids-length ys)

  -- No element of a list is below `x`.
  abbrev Least : (F → F → Bool) → Scored F → List (Scored F) → Type 0
  Least less x ys = All (λ (y : Scored F). less y.1 x.1 ≡ false) ys

  abbrev Ascending : (F → F → Bool) → List (Scored F) → Type 0
  Ascending less [] = Unit
  Ascending less (x ∷ xs) = Least less x xs × Ascending less xs

-- What the comparison of numbers is.
pub record Total {F : Type 0} (less : F → F → Bool) : Type 0 where
  pub asymmetric : (x y : F) → less x y ≡ true → less y x ≡ false
  pub chained : (x y z : F) → less x y ≡ false → less y z ≡ false → less x z ≡ false

-- No candidate that is dropped is closer than one that is kept.
abbrev pub Closer : {F : Type 0} → (F → F → Bool) → (ℕ → Option F) → List ℕ → List ℕ → Type 0
Closer less dist kept dropped = All (λ a. All (λ b. closer less dist b a ≡ some false) dropped) kept

-- What a choice of `n` candidates keeps and leaves out.
abbrev pub Chosen : {F : Type 0} → (F → F → Bool) → (ℕ → Option F) → List ℕ → ℕ → List ℕ → Type 0
Chosen less dist cs n kept =
    (dropped : List ℕ) × Same cs (kept ++ dropped)
    × (length kept ≡ min n (length cs))
    × Closer less dist kept dropped

module _ {F : Type 0} (less : F → F → Bool) where
  settle-count :
      (v : ℕ) (x : Scored F) (xs : List (Scored F))
      → count v (ids ((settle less x xs).0 ∷ (settle less x xs).1)) ≡ count v (ids (x ∷ xs))
  unfolding settle
  settle-count v x [] = refl
  settle-count v x (y ∷ ys) = elim (Bool-cases (less y.1 x.1)) [
    | inl e ↦ rw e (omega (arith, settle-count v y ys))
    | inr e ↦ rw e (omega (arith, settle-count v x ys))
  ]

  settle-length : (x : Scored F) (xs : List (Scored F)) → length (settle less x xs).1 ≡ length xs
  unfolding settle
  settle-length x [] = refl
  settle-length x (y ∷ ys) = ap suc (settle-length (if less y.1 x.1 then y else x) ys)

  settle-All :
      (P : Scored F → Type 0) (x : Scored F) (xs : List (Scored F))
      → P x
      → All P xs
      → P (settle less x xs).0 × All P (settle less x xs).1
  unfolding settle
  settle-All P x [] p all = (p, tt)
  settle-All P x (y ∷ ys) p all = elim (Bool-cases (less y.1 x.1)) [
    | inl e ↦ let r = settle-All P y ys all.0 all.1 in rw e (r.0, (p, r.1))
    | inr e ↦ let r = settle-All P x ys p all.1 in rw e (r.0, (all.0, r.1))
  ]

  -- The least of some elements, not above `x`, with the others.
  abbrev Settled : Scored F → Scored F × List (Scored F) → Type 0
  Settled x r = (less x.1 r.0.1 ≡ false) × Least less r.0 r.1

  settled :
      (x y : Scored F) (b : Bool) (rest : Scored F → Scored F × List (Scored F))
      → Total less
      → less y.1 x.1 ≡ b
      → ((z : Scored F) → Settled z (rest z))
      → Settled x
          ((rest (if b then y else x)).0, (if b then x else y) ∷ (rest (if b then y else x)).1)
  settled x y true rest t e k =
      let low = t.chained x.1 y.1 (rest y).0.1 (t.asymmetric y.1 x.1 e) (k y).0 in
      (low, (low, (k y).1))
  settled x y false rest t e k = ((k x).0, (t.chained y.1 x.1 (rest x).0.1 e (k x).0, (k x).1))

  settle-Settled :
      (xs : List (Scored F)) → Total less → (x : Scored F) → Settled x (settle less x xs)
  unfolding settle
  settle-Settled [] t x = (ground (arith, t.asymmetric x.1 x.1), tt)
  settle-Settled (y ∷ ys) t x =
      settled x y (less y.1 x.1) (λ z. settle less z ys) t refl (settle-Settled ys t)

  sort-All :
      (P : Scored F → Type 0) (n : ℕ) (xs : List (Scored F))
      → All P xs
      → All P (exchange_sort less n xs)
  unfolding exchange_sort
  sort-All P zero xs all = all
  sort-All P (suc n) [] all = all
  sort-All P (suc n) (x ∷ xs) all =
      let r = settle-All P x xs all.0 all.1 in (r.0, sort-All P n (settle less x xs).1 r.1)

  -- The sort keeps the candidates.
  pub sort-Same : (n : ℕ) (xs : List (Scored F)) → Same (ids xs) (ids (exchange_sort less n xs))
  unfolding exchange_sort
  sort-Same zero xs = (refl, λ v. refl)
  sort-Same (suc n) [] = (refl, λ v. refl)
  sort-Same (suc n) (x ∷ xs) =
      let s = sort-Same n (settle less x xs).1 in
      (
        omega (arith, s.0, ids-length (settle less x xs).1, ids-length xs, settle-length x xs),
        λ v. omega (arith, s.1 v, settle-count v x xs),
      )

  -- Its result is in order.
  sort-Ascending :
      (n : ℕ) (xs : List (Scored F))
      → Total less
      → length xs ≤ n
      → Ascending less (exchange_sort less n xs)
  unfolding exchange_sort
  sort-Ascending zero [] t enough = tt
  sort-Ascending zero (x ∷ xs) t enough = absurd (omega arith)
  sort-Ascending (suc n) [] t enough = tt
  sort-Ascending (suc n) (x ∷ xs) t enough = (
    sort-All (λ (y : Scored F). less y.1 (settle less x xs).0.1 ≡ false) n (settle less x xs).1
        (settle-Settled xs t x).1,
    sort-Ascending n (settle less x xs).1 t (omega (arith, settle-length x xs)),
  )

  -- What each candidate is scored with.
  abbrev pub Has : (ℕ → Option F) → Scored F → Type 0
  Has dist s = dist s.0 ≡ some s.1

  pub score_each-Has :
      (dist : ℕ → Option F) (cs : List ℕ)
      → All (λ c. Returns (λ _. Unit) (dist c)) cs
      → Returns (λ sc. (ids sc ≡ cs) × All (Has dist) sc) (score_each less dist cs)
  unfolding score_each
  score_each-Has dist [] all = (refl, tt)
  score_each-Has dist (c ∷ cs) all =
      let (d, e, _) = Returns-some (λ _. Unit) (dist c) all.0 in
      rw e (
        Returns->>= (λ sc. (ids sc ≡ cs) × All (Has dist) sc)
          (λ sc. (ids sc ≡ c ∷ cs) × All (Has dist) sc) (score_each less dist cs) _
          (score_each-Has dist cs all.1) (λ sc h. (ap (◌∷◌ c) h.0, (e, h.1))))

  Least-closer :
      (dist : ℕ → Option F) (xs : List (Scored F)) (x : Scored F)
      → Has dist x
      → All (Has dist) xs
      → Least less x xs
      → All (λ b. closer less dist b x.0 ≡ some false) (ids xs)
  Least-closer dist [] x e has low = tt
  Least-closer dist (y ∷ ys) x e has low =
      (rw (has.0, e, low.0) refl, Least-closer dist ys x e has.1 low.1)

  Ascending-Closer :
      (dist : ℕ → Option F) (n : ℕ) (sc : List (Scored F))
      → All (Has dist) sc
      → Ascending less sc
      → Closer less dist (take n (ids sc)) (drop n (ids sc))
  Ascending-Closer dist zero sc has asc = tt
  Ascending-Closer dist (suc n) [] has asc = tt
  Ascending-Closer dist (suc n) (x ∷ xs) has asc = (
    All-drop (λ b. closer less dist b x.0 ≡ some false) n (ids xs)
        (Least-closer dist xs x has.0 has.1 asc.0),
    Ascending-Closer dist n xs has.1 asc.1,
  )

  closest-Closer :
      (dist : ℕ → Option F) (cs : List ℕ) (n : ℕ)
      → Total less
      → All (λ c. Returns (λ _. Unit) (dist c)) cs
      → Returns (Chosen less dist cs n) (closest less dist cs n)
  unfolding closest
  closest-Closer dist cs n t all =
      Returns->>= (λ sc. (ids sc ≡ cs) × All (Has dist) sc) _ (score_each less dist cs) _
        (score_each-Has dist cs all)
        (λ sc h.
          let sorted = exchange_sort less (length sc) sc in
          let s = sort-Same (length sc) sc in
          (
            drop n (ids sorted),
            rw (take-append-drop n (ids sorted)) (subst (λ ds. Same ds (ids sorted)) h.0 s),
            omega (arith, length-take n (ids sorted), s.0, ap length h.0),
            Ascending-Closer dist n sorted (sort-All (Has dist) (length sc) sc h.1)
                (sort-Ascending (length sc) sc t (omega arith)),
          ))

none-left :
    {F : Type 0} (less : F → F → Bool) (dist : ℕ → Option F) (cs : List ℕ) → Closer less dist cs []
none-left less dist [] = tt
none-left less dist (c ∷ cs) = (tt, none-left less dist cs)

-- The choice for a node returns as many of the candidates as there is room for, and none that is
-- left out is closer to the node than one that is kept, if the distances of the candidates can be
-- computed and compare as numbers do.
pub select_neighbors_for_node-Chosen :
    (fl : Floats) (d : ℕ) (xs : List fl.Float32) (a : ℕ) (v : List fl.Float32) (cs : List ℕ) (n : ℕ)
    → Total fl.less
    → vector_at fl d xs a ≡ some v
    → All (λ c. Returns (λ _. Unit) (distance fl d xs v c)) cs
    → Returns (Chosen fl.less (distance fl d xs v) cs n) (select_neighbors_for_node fl d xs a cs n)
unfolding select_neighbors_for_node
select_neighbors_for_node-Chosen fl d xs a v cs n t e all =
    let P = Chosen fl.less (distance fl d xs v) cs n in
    Returns-elim P (leb (length cs) n) _ _
      (λ few. (
        [],
        rw (append-nil cs) (refl, λ x. refl),
        ground arith,
        none-left fl.less (distance fl d xs v) cs,
      ))
      (λ many. rw e (closest-Closer fl.less (distance fl d xs v) cs n t all))
