-- ===== src/Vector/Counts.antt =====
-- How often a number stands in a list: the lists of node ids, whatever their order.
use torvmremix.Base.{
  ℕ, zero, suc, ◌+◌, ◌≤◌, ◌<◌, ◌≡◌, refl, some, List, [], ◌∷◌, ◌++◌, Bool, true, false, ◌||◌,
  length, get_elem?, take, ◌==◌, if◌then◌else◌, arith, is_nil,
}

abbrev pub count : ℕ → List ℕ → ℕ
count x [] = 0
count x (y ∷ ys) = (if x == y then 1 else 0) + count x ys

-- `visited[x]`, of a map to booleans by its keys.
abbrev pub contains : ℕ → List ℕ → Bool
contains x [] = false
contains x (y ∷ ys) = x == y || contains x ys

pub contains-true : (x : ℕ) (ys : List ℕ) → contains x ys ≡ true → 0 < count x ys
contains-true x [] h = cc
contains-true x (y ∷ ys) h = ground (arith, contains-true x ys)

pub contains-false : (x : ℕ) (ys : List ℕ) → contains x ys ≡ false → count x ys ≡ 0
contains-false x [] h = refl
contains-false x (y ∷ ys) h = ground (arith, contains-false x ys)

pub count-append : (x : ℕ) (ys zs : List ℕ) → count x (ys ++ zs) ≡ count x ys + count x zs
count-append x [] zs = omega arith
count-append x (y ∷ ys) zs = ground (arith, count-append x ys zs)

pub count-take : (x n : ℕ) (ys : List ℕ) → count x (take n ys) ≤ count x ys
count-take x zero ys = omega arith
count-take x (suc n) [] = omega arith
count-take x (suc n) (y ∷ ys) = ground (arith, count-take x n ys)

pub count-get_elem? : (ys : List ℕ) (i x : ℕ) → get_elem? ys i ≡ some x → 0 < count x ys
count-get_elem? [] i x h = absurd (cc)
count-get_elem? (y ∷ ys) zero x h = ground arith
count-get_elem? (y ∷ ys) (suc i) x h = ground (arith, count-get_elem? ys i x h)

-- The list without a number.
without : ℕ → List ℕ → List ℕ
without x [] = []
without x (y ∷ ys) = if x == y then without x ys else y ∷ without x ys

length-without : (x : ℕ) (ys : List ℕ) → length ys ≡ length (without x ys) + count x ys
unfolding without
length-without x [] = refl
length-without x (y ∷ ys) = ground (arith, length-without x ys)

count-without :
    (z x : ℕ) (ys : List ℕ) → count z (without x ys) ≡ (if z == x then 0 else count z ys)
unfolding without
count-without z x [] = ground arith
count-without z x (y ∷ ys) = ground (arith, count-without z x ys)

no-numbers : (xs : List ℕ) → ((x : ℕ) → count x xs ≡ 0) → length xs ≡ 0
no-numbers [] h = refl
no-numbers (x ∷ xs) h = ground (arith, h x)

-- Numbers below `n`, none of them twice, are at most `n`.
pub length_distinct :
    (n : ℕ) (xs : List ℕ)
    → ((x : ℕ) → count x xs ≤ 1)
    → ((x : ℕ) → 0 < count x xs → x < n)
    → length xs ≤ n
length_distinct zero xs once below = omega (arith, no-numbers xs (λ x. ground (arith, below x)))
length_distinct (suc n) xs once below = omega (
  arith,
  length-without n xs,
  once n,
  length_distinct n (without n xs) (λ x. ground (arith, count-without x n xs, once x))
      (λ x h. ground (arith, count-without x n xs, below x)),
)

pub is_nil-length : (xs : List ℕ) → is_nil xs ≡ false → 0 < length xs
is_nil-length [] h = absurd (cc)
is_nil-length (x ∷ xs) h = omega arith
