-- ===== src/Index/Filter.antt =====
-- controller/internal/index/metadata.go: the filter on documents and on replicas. A nil filter is `none`.
use torvmremix.Base.{
  Bool, true, false, not, ◌&&◌, ◌||◌, Option, none, some, List, ℤ, pos, negsuc, gt_lit, is_zero,
  ltb, all, any, Bytes, is_nil, eq_bytes, to_lower, map, one_of,
}
use torvmremix.Index.Meta.{Time, is_zero_time, unix, DocMeta, ReplicaDocInfo}

pub record MetadataFilter : Type 0 where
  pub file_types : List Bytes
  pub min_size : ℤ
  pub max_size : ℤ
  pub created_after : Time
  pub created_before : Time
  pub modified_after : Time
  pub modified_before : Time
  pub tags : List Bytes

-- a < b on integers.
abbrev pub less : ℤ → ℤ → Bool
less (pos m) (pos n) = ltb m n
less (pos m) (negsuc n) = false
less (negsuc m) (pos n) = true
less (negsuc m) (negsuc n) = ltb n m

unfoldable pub is_empty : Option MetadataFilter → Bool
is_empty none = true
is_empty (some f) =
    is_nil f.file_types
    && is_zero f.min_size
    && is_zero f.max_size
    && is_zero_time f.created_after
    && is_zero_time f.created_before
    && is_zero_time f.modified_after
    && is_zero_time f.modified_before
    && is_nil f.tags

-- strings.EqualFold, on ASCII.
abbrev pub equal_fold : Bytes → Bytes → Bool
equal_fold s t = eq_bytes (to_lower s) (to_lower t)

-- The first test of both loops: `true` unless the code returns false.
unfoldable pub type_allowed : MetadataFilter → Bytes → Bool
type_allowed f t = is_nil f.file_types || any (λ ft. equal_fold ft t) f.file_types

unfoldable pub size_allowed : MetadataFilter → ℤ → Bool
size_allowed f size =
    not (gt_lit f.min_size 0 && less size f.min_size)
    && not (gt_lit f.max_size 0 && less f.max_size size)

-- `after` and `before` are the bounds on the time `t` of a document.
unfoldable pub time_allowed : (after before t : Time) → Bool
time_allowed after before t =
    not (not (is_zero_time after) && not (is_zero_time t) && ltb t after)
    && not (not (is_zero_time before) && not (is_zero_time t) && ltb before t)

unfoldable pub tags_allowed : MetadataFilter → List Bytes → Bool
tags_allowed f tags = is_nil f.tags || all (λ r. one_of (to_lower r) (map to_lower tags)) f.tags

unfoldable pub matches : Option MetadataFilter → DocMeta → Bool
matches none doc = true
matches (some f) doc =
    type_allowed f doc.file_type
    && size_allowed f doc.size
    && time_allowed f.created_after f.created_before doc.created_at
    && time_allowed f.modified_after f.modified_before doc.modified_at
    && tags_allowed f doc.tags

unfoldable pub seconds_allowed : (after before : Time) → ℤ → Bool
seconds_allowed after before t =
    not (not (is_zero_time after) && less t (unix after))
    && not (not (is_zero_time before) && less (unix before) t)

unfoldable pub matches_replica_info : Option MetadataFilter → ReplicaDocInfo → Bool
matches_replica_info none info = true
matches_replica_info (some f) info =
    type_allowed f info.file_type
    && size_allowed f info.size
    && seconds_allowed f.created_after f.created_before info.created_at
    && seconds_allowed f.modified_after f.modified_before info.modified_at
