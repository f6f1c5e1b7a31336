-- ===== src/Vector/Distances.antt =====
-- The distance to a stored vector can be computed.
use torvmremix.Base.{
  ℕ, zero, suc, ◌+◌, ◌*◌, ◌<◌, ◌≤◌, ◌≡◌, List, [], ◌∷◌, true, length, drop, leb, arith, length-take,
  length-drop, Bool-cases, inl, inr,
}
use torvmremix.Vector.Partial.{Returns, Returns->>=}
use torvmremix.Vector.Graph.{Floats, Sums, vector_at, sums, cosine_similarity, distance}

pub block-within : (a n d : ℕ) → a < n → a * d + d ≤ n * d
block-within a zero d h = absurd (omega arith)
block-within a (suc n) d h = elim (Bool-cases (leb n a)) [
  | inl e ↦ let k : a ≡ n = ground arith in rw k (grind arith)
  | inr e ↦ grind (arith, block-within a n d (ground arith))
]

module _ (fl : Floats) where
  sums-Returns :
      (n : ℕ) (q v : List fl.Float32) (s : Sums fl)
      → n ≤ length q
      → n ≤ length v
      → Returns (λ _. Unit) (sums fl n q v s)
  unfolding sums
  sums-Returns zero q v s p r = tt
  sums-Returns (suc n) [] v s p r = absurd (omega arith)
  sums-Returns (suc n) (a ∷ q) [] s p r = absurd (omega arith)
  sums-Returns (suc n) (a ∷ q) (b ∷ v) s p r = sums-Returns n q v _ (omega arith) (omega arith)

  pub vector_at-Returns :
      (d : ℕ) (xs : List fl.Float32) (a : ℕ)
      → a * d + d ≤ length xs
      → Returns (λ v. length v ≡ d) (vector_at fl d xs a)
  unfolding vector_at
  vector_at-Returns d xs a h =
      let e : leb (a * d + d) (length xs) ≡ true = ground arith in
      rw e (omega (arith, length-take d (drop (a * d) xs), length-drop (a * d) xs))

  pub cosine_similarity-Returns :
      (d : ℕ) (xs q : List fl.Float32) (a : ℕ)
      → a * d + d ≤ length xs
      → d ≤ length q
      → Returns (λ _. Unit) (cosine_similarity fl d xs q a)
  unfolding cosine_similarity
  cosine_similarity-Returns d xs q a h k =
      Returns->>= (λ v. length v ≡ d) (λ _. Unit) (vector_at fl d xs a) _
        (vector_at-Returns d xs a h)
        (λ v e.
          Returns->>= (λ _. Unit) (λ _. Unit) (sums fl d q v _) _
            (sums-Returns d q v _ k (omega arith)) (λ s _. tt))

  pub distance-Returns :
      (d : ℕ) (xs q : List fl.Float32) (a : ℕ)
      → a * d + d ≤ length xs
      → d ≤ length q
      → Returns (λ _. Unit) (distance fl d xs q a)
  unfolding distance
  distance-Returns d xs q a h k =
      Returns->>= (λ _. Unit) (λ _. Unit) (cosine_similarity fl d xs q a) _
        (cosine_similarity-Returns d xs q a h k) (λ s _. tt)
