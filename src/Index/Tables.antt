-- ===== src/Index/Tables.antt =====
-- The tables of controller/internal/index/inverted.go: what an entry that is put leaves of the others.
use torvmremix.Base.{
  ℕ, zero, suc, ◌<◌, ◌≡◌, refl, ap, ◌∙◌, Bool, true, false, ◌||◌, some, List, [], ◌∷◌, ◌++◌, any,
  length, get_elem?, All, ==_iff, ◌==◌, if◌then◌else◌, arith, Bool-cases, ◌⊎◌, inl, inr,
}
use torvmremix.Index.Inverted.{Table, lookup, put, ids_at, append_unique}

module _ {V : Type 0} where
  pub lookup-put :
      (k j : ℕ) (v : V) (m : Table V)
      → lookup j (put k v m) ≡ (if k == j then some v else lookup j m)
  unfolding lookup put
  lookup-put k j v [] = refl
  lookup-put k j v (e ∷ m) = ground (arith, lookup-put k j v m)

ids_at-put :
    (k j : ℕ) (v : List ℕ) (m : Table (List ℕ))
    → ids_at j (put k v m) ≡ (if k == j then v else ids_at j m)
unfolding ids_at
ids_at-put k j v m = ground (arith, lookup-put k j v m)

has : ℕ → List ℕ → Bool
has v ids = any (λ w. w == v) ids

has-snoc : (v : ℕ) (ids : List ℕ) → has v (ids ++ (v ∷ [])) ≡ true
unfolding has
has-snoc v [] = ground arith
has-snoc v (w ∷ ids) = ground (arith, has-snoc v ids)

append_unique-twice :
    (ids : List ℕ) (v : ℕ) → append_unique (append_unique ids v) v ≡ append_unique ids v
unfolding append_unique has
append_unique-twice ids v = ground (arith, has-snoc v ids)

pub append_unique-fresh :
    (ids : List ℕ) (v : ℕ) → All (λ w. w < v) ids → append_unique ids v ≡ ids ++ (v ∷ [])
unfolding append_unique
append_unique-fresh ids v h = ground (arith, absent ids h)
  where
    absent : (ws : List ℕ) → All (λ w. w < v) ws → any (λ w. w == v) ws ≡ false
    absent [] h = refl
    absent (w ∷ ws) h = ground (arith, h.0, absent ws h.1)

pub ids_at-term :
    (h id a : ℕ) (m : Table (List ℕ))
    → ids_at h (put a (append_unique (ids_at a m) id) m)
      ≡ (if a == h then append_unique (ids_at h m) id else ids_at h m)
ids_at-term h id a m = ids_at-put a h (append_unique (ids_at a m) id) m ∙ go (Bool-cases (a == h))
  where
    go :
        (a == h ≡ true) ⊎ (a == h ≡ false)
        → (if a == h then append_unique (ids_at a m) id else ids_at h m)
          ≡ (if a == h then append_unique (ids_at h m) id else ids_at h m)
    go (inl e) =
        ap (λ k. if a == h then append_unique (ids_at k m) id else ids_at h m) ((==_iff a h).0 e)
    go (inr n) = rw n refl

pub twice :
    (b c : Bool) (ids : List ℕ) (v : ℕ)
    → (if b
        then append_unique (if c then append_unique ids v else ids) v
        else (if c then append_unique ids v else ids))
      ≡ (if c || b then append_unique ids v else ids)
twice true true ids v = append_unique-twice ids v
twice true false ids v = refl
twice false true ids v = refl
twice false false ids v = refl

pub get_elem?-snoc :
    {A : Type 0} (xs : List A) (y : A) (n : ℕ)
    → get_elem? (xs ++ (y ∷ [])) n ≡ (if n == length xs then some y else get_elem? xs n)
get_elem?-snoc [] y zero = refl
get_elem?-snoc [] y (suc n) = ground arith
get_elem?-snoc (x ∷ xs) y zero = ground arith
get_elem?-snoc (x ∷ xs) y (suc n) = get_elem?-snoc xs y n ∙ ground arith
