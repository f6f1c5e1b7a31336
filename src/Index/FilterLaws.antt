-- ===== src/Index/FilterLaws.antt =====
-- The two filters of controller/internal/index/metadata.go against each other.
use torvmremix.Base.{
  ℕ, ◌/◌, ◌≡◌, refl, true, false, Option, none, some, ltb, arith, Bool-cases, inl, inr,
}
use torvmremix.Index.Meta.{Time, is_zero_time, unix, minus, DocMeta, doc_meta_to_replica_info}
use torvmremix.Index.Filter.{
  MetadataFilter, less, time_allowed, matches, seconds_allowed, matches_replica_info,
}

less-minus : (a b k : ℕ) → ltb a b ≡ false → less (minus a k) (minus b k) ≡ false
less-minus a b k h = elim (Bool-cases (ltb a k)) [
  | inl p ↦ elim (Bool-cases (ltb b k)) [ inl q ↦ ground arith | inr q ↦ ground arith ]
  | inr p ↦ elim (Bool-cases (ltb b k)) [ inl q ↦ ground arith | inr q ↦ ground arith ]
]

-- A time that is not before another has no smaller number of seconds.
less-unix : (s t : Time) → ltb s t ≡ false → less (unix s) (unix t) ≡ false
unfolding unix
less-unix s t h = less-minus (s / 1000000000) (t / 1000000000) 62135596800 (ground arith)

time-seconds :
    (after before t : Time)
    → is_zero_time t ≡ false
    → time_allowed after before t ≡ true
    → seconds_allowed after before (unix t) ≡ true
unfolding time_allowed seconds_allowed
time-seconds after before t z h = ground (arith, less-unix t after, less-unix before t)

-- A document that the filter accepts and whose two times are known is accepted as a replica too.
pub matches-replica :
    (f : Option MetadataFilter) (doc : DocMeta)
    → is_zero_time doc.created_at ≡ false
    → is_zero_time doc.modified_at ≡ false
    → matches f doc ≡ true
    → matches_replica_info f (doc_meta_to_replica_info doc) ≡ true
unfolding matches matches_replica_info doc_meta_to_replica_info
matches-replica none doc h k m = refl
matches-replica (some f) doc h k m = ground (
  arith,
  time-seconds f.created_after f.created_before doc.created_at h,
  time-seconds f.modified_after f.modified_before doc.modified_at k,
)
