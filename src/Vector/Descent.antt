-- ===== src/Vector/Descent.antt =====
-- The greedy walk along the links: it ends, and where it ends no link leads closer.
use torvmremix.Base.{
  ℕ, zero, suc, ◌+◌, ◌<◌, ◌≤◌, ◌≡◌, refl, sym, ap, ◌∙◌, subst, Option, none, some, List, [], ◌∷◌,
  Bool, true, false, length, if◌then◌else◌, arith, All, Bool-cases, inl, inr, ◌⊎◌, ◌==◌,
}
use torvmremix.Vector.Partial.{
  for_each, Returns, Returns->>=, Returns-elim, Returns-some, some-Returns, Returns-weaken,
}
use torvmremix.Vector.Graph.{HnswNode, links_of}
use torvmremix.Vector.Search.{Walk, walk_step, walk, greedy_closest}
use torvmremix.Vector.Beams.{Layer}

-- What the comparison of IEEE numbers is, NaN included.
pub record Order {F : Type 0} (less : F → F → Bool) : Type 0 where
  pub irreflexive : (x : F) → less x x ≡ false
  pub transitive : (x y z : F) → less x y ≡ true → less y z ≡ true → less x z ≡ true

asymmetric :
    {F : Type 0} (less : F → F → Bool) → Order less → (x y : F) → less x y ≡ true → less y x ≡ false
asymmetric less order x y h = elim (Bool-cases (less y x)) [
  | inl e ↦ absurd (ground (arith, order.transitive x y x, order.irreflexive x))
  | inr e ↦ e
]

module _ {F : Type 0} (less : F → F → Bool) (order : Order less) (dist : ℕ → Option F) where
  -- A distance that is known and below another.
  abbrev pub is_nearer : Option F → F → Bool
  is_nearer none x = false
  is_nearer (some d) x = less d x

  -- How many of the first `n` ids are nearer.
  rank : ℕ → F → ℕ
  rank zero x = 0
  rank (suc n) x = (if is_nearer (dist n) x then 1 else 0) + rank n x

  rank_most : (n : ℕ) (x : F) → rank n x ≤ n
  unfolding rank
  rank_most zero x = omega arith
  rank_most (suc n) x = ground (arith, rank_most n x)

  is_nearer_mono :
      (o : Option F) (x y : F) → less x y ≡ true → is_nearer o x ≡ true → is_nearer o y ≡ true
  is_nearer_mono none x y h k = absurd (cc)
  is_nearer_mono (some d) x y h k = order.transitive d x y k h

  rank_mono : (n : ℕ) (x y : F) → less x y ≡ true → rank n x ≤ rank n y
  unfolding rank
  rank_mono zero x y h = omega arith
  rank_mono (suc n) x y h = ground (arith, rank_mono n x y h, is_nearer_mono (dist n) x y h)

  rank_below : (n a : ℕ) (x y : F) → a < n → dist a ≡ some x → less x y ≡ true → rank n x < rank n y
  unfolding rank
  rank_below zero a x y p e h = absurd (omega arith)
  rank_below (suc n) a x y p e h = elim (Bool-cases (a == n)) [
    | inl same ↦
        let k : dist n ≡ some x = subst (λ b. dist b ≡ some x) (ground arith) e in
        rw k (ground (arith, rank_mono n x y h, order.irreflexive x))
    | inr other ↦
        ground (arith, rank_below n a x y (ground arith) e h, is_nearer_mono (dist n) x y h)
  ]

  module _ (nodes : List HnswNode) (level : ℕ) (Good : ℕ → Type 0)
      (layer : Layer dist nodes level Good) where
    -- The walk stands at a good node whose distance it knows.
    abbrev At : ℕ → F → Type 0
    At cur d = Good cur × (dist cur ≡ some d)

    -- A walk that began at the distance `d`.
    abbrev Walked : F → Walk F → Type 0
    Walked d w = At w.0 w.1 × (((w.2 ≡ true) × (less w.1 d ≡ true)) ⊎ ((w.2 ≡ false) × (w.1 ≡ d)))

    moved :
        (d x : F) (a : ℕ) (w : Walk F) → Walked d w → At a x → less x w.1 ≡ true → less x d ≡ true
    moved d x a (cur, e, c) (at, inl h) p k = order.transitive x e d k h.1
    moved d x a (cur, e, c) (at, inr h) p k = subst (λ y. less x y ≡ true) h.1 k

    -- A walk that stays has looked at every link.
    abbrev Stays : List ℕ → Walk F → Walk F → Type 0
    Stays links w v = v.2 ≡ false → (v ≡ w) × All (λ a. is_nearer (dist a) w.1 ≡ false) links

    step-Walked :
        (d x : F) (a : ℕ) (w : Walk F) (closer : Bool)
        → less x w.1 ≡ closer
        → Walked d w
        → At a x
        → Walked d (if closer then (a, x, true) else w)
          × Stays (a ∷ []) w (if closer then (a, x, true) else w)
    step-Walked d x a w true e h p = ((p, inl (refl, moved d x a w h p e)), λ f. absurd (cc))
    step-Walked d x a w false e h p = (h, λ f. (refl, (rw (p.1) e, tt)))

    walk_step-Walked :
        (d : F) (a : ℕ) (w : Walk F)
        → Good a
        → Walked d w
        → Returns (λ v. Walked d v × Stays (a ∷ []) w v) (walk_step less dist a w)
    unfolding walk_step
    walk_step-Walked d a w p h =
        let (x, e, _) = Returns-some (λ _. Unit) (dist a) (layer.near a p) in
        some-Returns _ (walk_step less dist a w) (rw e refl)
          (step-Walked d x a w (less x w.1) refl h (p, e))

    both :
        (a : ℕ) (links : List ℕ) (w u v : Walk F)
        → Stays (a ∷ []) w u
        → Stays links u v
        → Stays (a ∷ links) w v
    both a links w u v s t e =
        let (same, rest) = t e in
        let (start, first) = s (ap (λ (x : Walk F). x.2) (sym same) ∙ e) in
        (
          same ∙ start,
          (
            first.0,
            subst (λ (x : Walk F). All (λ b. is_nearer (dist b) x.1 ≡ false) links) start rest,
          ),
        )

    links-Walked :
        (d : F) (links : List ℕ) (w : Walk F)
        → All Good links
        → Walked d w
        → Returns (λ v. Walked d v × Stays links w v) (for_each (walk_step less dist) links w)
    links-Walked d [] w all h = (h, λ e. (refl, tt))
    links-Walked d (a ∷ links) w all h =
        Returns->>= (λ u. Walked d u × Stays (a ∷ []) w u) (λ v. Walked d v × Stays (a ∷ links) w v)
          (walk_step less dist a w) _ (walk_step-Walked d a w all.0 h)
          (λ u k.
            Returns-weaken (λ v. Walked d v × Stays links u v) _
              (for_each (walk_step less dist) links u) (links-Walked d links u all.1 k.0)
              (λ v t. (t.0, both a links w u v k.1 t.1)))

    -- No link leads closer, and the entry is not closer either.
    pub record Stopped (entry : F) (cur : ℕ) : Type 0 where
      pub good : Good cur
      pub at : F
      pub known : dist cur ≡ some at
      pub no_farther : less entry at ≡ false
      pub links : List ℕ
      pub linked : links_of nodes level cur ≡ some links
      pub least : All (λ a. is_nearer (dist a) at ≡ false) links

    onward :
        (f : ℕ) (entry d : F) (v : Walk F)
        → Walked d v
        → v.2 ≡ true
        → less entry d ≡ false
        → rank (length nodes) d < suc f
        → (At v.0 v.1
            → less entry v.1 ≡ false
            → rank (length nodes) v.1 < f
            → Returns (Stopped entry) (walk less dist f nodes level v.0 v.1))
        → Returns (Stopped entry) (walk less dist f nodes level v.0 v.1)
    onward f entry d v (at, inr k) m h enough rest = absurd (cc)
    onward f entry d v (at, inl k) m h enough rest =
        rest at (ground (arith, order.transitive entry v.1 d, k.1, h))
          (omega (arith, rank_below (length nodes) v.0 v.1 d (layer.below v.0 at.0) at.1 k.1))

    halted :
        (entry : F) (cur : ℕ) (d : F) (links : List ℕ) (v : Walk F)
        → links_of nodes level cur ≡ some links
        → Stays links (cur, d, false) v
        → v.2 ≡ false
        → At cur d
        → less entry d ≡ false
        → Stopped entry v.0
    halted entry cur d links v e stays m at h =
        let (same, least) = stays m in
        subst (λ (u : Walk F). Stopped entry u.0) (sym same)
          record {
            good = at.0;
            at = d;
            known = at.1;
            no_farther = h;
            links = links;
            linked = e;
            least = least;
          }

    walk-Stopped :
        (f : ℕ) (entry : F) (cur : ℕ) (d : F)
        → At cur d
        → less entry d ≡ false
        → rank (length nodes) d < f
        → Returns (Stopped entry) (walk less dist f nodes level cur d)
    unfolding walk
    walk-Stopped zero entry cur d at h enough = absurd (omega arith)
    walk-Stopped (suc f) entry cur d at h enough =
        let (links, e, all) =
          Returns-some (All Good) (links_of nodes level cur) (layer.linked cur at.0) in
        rw e (
          Returns->>= (λ v. Walked d v × Stays links (cur, d, false) v) (Stopped entry)
            (for_each (walk_step less dist) links (cur, d, false)) _
            (links-Walked d links (cur, d, false) all (at, inr (refl, refl)))
            (λ v k.
              Returns-elim (Stopped entry) v.2 _ _
                (λ m. onward f entry d v k.0 m h enough (walk-Stopped f entry v.0 v.1))
                (λ m. halted entry cur d links v e k.1 m at h)))

    -- The walk returns, within as many turns as there are nodes and one more, at a node that no link
    -- leads closer from.
    pub greedy_closest-Stopped :
        (ep : ℕ)
        → Good ep
        → (d : F) × (dist ep ≡ some d)
          × Returns (Stopped d) (greedy_closest less dist nodes ep level)
    unfolding greedy_closest
    greedy_closest-Stopped ep p =
        let (d, e, _) = Returns-some (λ _. Unit) (dist ep) (layer.near ep p) in
        (
          d,
          e,
          rw e (
              walk-Stopped (suc (length nodes)) d ep d (p, e) (order.irreflexive d)
                (omega (arith, rank_most (length nodes) d))),
        )
