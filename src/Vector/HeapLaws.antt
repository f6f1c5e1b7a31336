-- ===== src/Vector/HeapLaws.antt =====
-- A heap on any order that does not panic: Push adds its id and Pop takes one out, whatever the
-- order of the ids in the slice.
use torvmremix.Base.{
  ℕ, zero, suc, ◌+◌, ◌-◌, ◌*◌, ◌/◌, ◌<◌, ◌≤◌, ◌≡◌, refl, Option, some, List, [], ◌∷◌, ◌++◌, Bool,
  length, get_elem?, take, ◌==◌, ltb, leb, if◌then◌else◌, arith, length-append, length-take,
  Bool-cases, inl, inr, subst,
}
use torvmremix.Vector.Partial.{◌>>=◌, Returns, Returns->>=, Returns-elim, Returns-weaken}
use torvmremix.Vector.Counts.{count, count-append, count-get_elem?}
use torvmremix.Vector.Heap.{set, swap, less_at, smaller_child, up, down, push, pop}

-- The same ids.
abbrev pub Same : List ℕ → List ℕ → Type 0
Same xs ys = (length ys ≡ length xs) × ((x : ℕ) → count x ys ≡ count x xs)

-- An id that is taken out of a list, and what is left.
abbrev pub Popped : List ℕ → ℕ × List ℕ → Type 0
Popped xs r = Same (r.0 ∷ r.1) xs

Same-trans : (xs ys zs : List ℕ) → Same xs ys → Same ys zs → Same xs zs
Same-trans xs ys zs s t = (omega arith, λ x. omega (arith, s.1 x, t.1 x))

abbrev pub Among : (ℕ → Type 0) → List ℕ → Type 0
Among Good xs = (x : ℕ) → 0 < count x xs → Good x

Same-Among : (Good : ℕ → Type 0) (xs ys : List ℕ) → Same xs ys → Among Good xs → Among Good ys
Same-Among Good xs ys s good x h = good x (omega (arith, s.1 x))

pub get_elem?-below :
    {A : Type 0} (xs : List A) (i : ℕ) → i < length xs → (x : A) × (get_elem? xs i ≡ some x)
get_elem?-below [] i h = absurd (omega arith)
get_elem?-below (x ∷ xs) zero h = (x, refl)
get_elem?-below (x ∷ xs) (suc i) h = get_elem?-below xs i (omega arith)

length-set : (i v : ℕ) (xs : List ℕ) → length (set i v xs) ≡ length xs
length-set i v [] = refl
length-set zero v (x ∷ xs) = refl
length-set (suc i) v (x ∷ xs) = omega (arith, length-set i v xs)

get_elem?-set :
    (i j a : ℕ) (xs : List ℕ) → get_elem? xs i ≡ some a → get_elem? (set j a xs) i ≡ some a
get_elem?-set i j a [] h = h
get_elem?-set zero zero a (x ∷ xs) h = refl
get_elem?-set zero (suc j) a (x ∷ xs) h = h
get_elem?-set (suc i) zero a (x ∷ xs) h = h
get_elem?-set (suc i) (suc j) a (x ∷ xs) h = get_elem?-set i j a xs h

count-set :
    (v i a b : ℕ) (xs : List ℕ)
    → get_elem? xs i ≡ some a
    → count v (set i b xs) + (if v == a then 1 else 0) ≡ count v xs + (if v == b then 1 else 0)
count-set v i a b [] h = absurd (cc)
count-set v zero a b (x ∷ xs) h = ground arith
count-set v (suc i) a b (x ∷ xs) h = ground (arith, count-set v i a b xs h)

swap-Same :
    (i j : ℕ) (xs : List ℕ) → i < length xs → j < length xs → Returns (Same xs) (swap i j xs)
unfolding swap
swap-Same i j xs p q =
    let (a, e) = get_elem?-below xs i p in
    let (b, k) = get_elem?-below xs j q in
    rw (e, k)
      (
        omega (arith, length-set i b (set j a xs), length-set j a xs),
        λ v. omega (
          arith,
          count-set v i a b (set j a xs) (get_elem?-set i j a xs e),
          count-set v j b a xs k,
        ),
      )

take-last :
    (n x v : ℕ) (zs : List ℕ)
    → length zs ≡ suc n
    → get_elem? zs n ≡ some x
    → count v zs ≡ (if v == x then 1 else 0) + count v (take n zs)
take-last n x v [] e h = absurd (cc)
take-last zero x v (z ∷ []) e h = ground arith
take-last zero x v (z ∷ y ∷ zs) e h = absurd (omega arith)
take-last (suc n) x v (z ∷ zs) e h = ground (arith, take-last n x v zs (omega arith) h)

last_one :
    (xs : List ℕ) (n : ℕ) (zs : List ℕ)
    → Same xs zs
    → length xs ≡ suc n
    → Returns (Popped xs) (get_elem? zs n >>= λ x. some (x, take n zs))
last_one xs n zs s e =
    let (x, h) = get_elem?-below zs n (omega arith) in
    rw h (
      omega (arith, length-take n zs),
      λ v. omega (arith, s.1 v, take-last n x v zs (omega arith) h),
    )

module _ (before : ℕ → ℕ → Option Bool) (Good : ℕ → Type 0)
    (total : (a b : ℕ) → Good a → Good b → Returns (λ _. Unit) (before a b)) where
  less_at-Returns :
      (xs : List ℕ) (i j : ℕ)
      → Among Good xs
      → i < length xs
      → j < length xs
      → Returns (λ _. Unit) (less_at before xs i j)
  less_at-Returns xs i j good p q =
      let (a, e) = get_elem?-below xs i p in
      let (b, k) = get_elem?-below xs j q in
      rw (e, k) (total a b (good a (count-get_elem? xs i a e)) (good b (count-get_elem? xs j b k)))

  swap-then :
      (xs : List ℕ) (i j : ℕ) (next : List ℕ → Option (List ℕ))
      → Among Good xs
      → i < length xs
      → j < length xs
      → ((ys : List ℕ) → length ys ≡ length xs → Among Good ys → Returns (Same ys) (next ys))
      → Returns (Same xs) (swap i j xs >>= next)
  swap-then xs i j next good p q k =
      Returns->>= (Same xs) (Same xs) (swap i j xs) next (swap-Same i j xs p q) (λ ys s.
        Returns-weaken (Same ys) (Same xs) (next ys) (k ys s.0 (Same-Among Good xs ys s good))
          (λ zs t. Same-trans xs ys zs s t))

  up-Same :
      (f j : ℕ) (xs : List ℕ)
      → Among Good xs
      → j < f
      → j < length xs
      → Returns (Same xs) (up before f j xs)
  unfolding up
  up-Same zero j xs good enough inside = absurd (omega arith)
  up-Same (suc f) j xs good enough inside =
      let above : (j - 1) / 2 < length xs = omega arith in
      Returns-elim (Same xs) ((j - 1) / 2 == j) _ _ (λ top. (refl, λ x. refl))
        (λ low.
          Returns->>= (λ _. Unit) (Same xs) (less_at before xs j ((j - 1) / 2)) _
            (less_at-Returns xs j ((j - 1) / 2) good inside above)
            (λ less _.
              Returns-elim (Same xs) less _ _
                (λ _.
                  swap-then xs ((j - 1) / 2) j (up before f ((j - 1) / 2)) good above inside
                    (λ ys e g. up-Same f ((j - 1) / 2) ys g (ground arith) (omega arith)))
                (λ _. (refl, λ x. refl))))

  smaller_child-Returns :
      (xs : List ℕ) (j n : ℕ)
      → Among Good xs
      → j < n
      → n ≤ length xs
      → Returns (λ c. (j ≤ c) × (c < n)) (smaller_child before j n xs)
  smaller_child-Returns xs j n good p q =
      Returns-elim _ (ltb (j + 1) n) _ _
        (λ two.
          Returns->>= (λ _. Unit) (λ c. (j ≤ c) × (c < n)) (less_at before xs (j + 1) j) _
            (less_at-Returns xs (j + 1) j good (ground arith) (omega arith))
            (λ less _. ground arith))
        (λ one. omega arith)

  down-Same :
      (f i n : ℕ) (xs : List ℕ)
      → Among Good xs
      → n < f + i
      → i ≤ n
      → n ≤ length xs
      → Returns (Same xs) (down before f i n xs)
  unfolding down
  down-Same zero i n xs good enough low inside = absurd (omega arith)
  down-Same (suc f) i n xs good enough low inside =
      Returns-elim (Same xs) (leb n (2 * i + 1)) _ _ (λ leaf. (refl, λ x. refl))
        (λ inner.
          let more : 2 * i + 1 < n = ground arith in
          Returns->>= (λ c. (2 * i + 1 ≤ c) × (c < n)) (Same xs)
            (smaller_child before (2 * i + 1) n xs) _
            (smaller_child-Returns xs (2 * i + 1) n good more inside)
            (λ c at.
              Returns->>= (λ _. Unit) (Same xs) (less_at before xs c i) _
                (less_at-Returns xs c i good (omega arith) (omega arith))
                (λ less _.
                  Returns-elim (Same xs) less _ _
                    (λ _.
                      swap-then xs i c (down before f c n) good (omega arith) (omega arith)
                        (λ ys e g. down-Same f c n ys g (omega arith) (omega arith) (omega arith)))
                    (λ _. (refl, λ x. refl)))))

  pushed : (x : ℕ) (xs : List ℕ) → Among Good xs → Good x → Among Good (xs ++ (x ∷ []))
  pushed x xs good one y h = elim (Bool-cases (y == x)) [
    | inl e ↦ subst Good (ground arith) one
    | inr e ↦ good y (ground (arith, count-append y xs (x ∷ [])))
  ]

  -- heap.Push adds its id and does not panic.
  pub push-Same :
      (x : ℕ) (xs : List ℕ) → Among Good xs → Good x → Returns (Same (x ∷ xs)) (push before x xs)
  unfolding push
  push-Same x xs good one =
      Returns-weaken (Same (xs ++ (x ∷ []))) (Same (x ∷ xs))
        (up before (suc (length xs)) (length xs) (xs ++ (x ∷ [])))
        (up-Same (suc (length xs)) (length xs) (xs ++ (x ∷ [])) (pushed x xs good one) (omega arith)
          (omega (arith, length-append xs (x ∷ []))))
        (λ ys s. (
          omega (arith, length-append xs (x ∷ [])),
          λ y. omega (arith, count-append y xs (x ∷ []), s.1 y),
        ))

  -- heap.Pop takes one id out and does not panic.
  pub pop-Same : (xs : List ℕ) → Among Good xs → 0 < length xs → Returns (Popped xs) (pop before xs)
  unfolding pop
  pop-Same xs good some_left =
      let n = length xs - 1 in
      Returns->>= (Same xs) (Popped xs) (swap 0 n xs) _ (swap-Same 0 n xs some_left (omega arith))
        (λ ys s.
          Returns->>= (Same ys) (Popped xs) (down before (suc n) 0 n ys) _
            (down-Same (suc n) 0 n ys (Same-Among Good xs ys s good) (omega arith) (omega arith)
              (omega arith))
            (λ zs t. last_one xs n zs (Same-trans xs ys zs s t) (omega arith)))
