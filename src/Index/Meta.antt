-- ===== src/Index/Meta.antt =====
-- controller/internal/index/metadata.go and inverted.go: what is kept of a document. A `time.Time` is the
-- number of nanoseconds since the zero time. A path has its parts between slashes, as on Unix.
use torvmremix.Base.{
  ℕ, ◌-◌, ◌/◌, Bool, List, [], ◌∷◌, ℤ, pos, negsuc, ltb, ◌==◌, if◌then◌else◌, Bytes, bytes, is_nil,
  eq_bytes, has_byte, to_lower, one_of,
}

abbrev pub Time : Type 0
Time = ℕ

-- t.IsZero()
abbrev pub is_zero_time : Time → Bool
is_zero_time t = t == 0

abbrev pub minus : ℕ → ℕ → ℤ
minus a b = if ltb a b then negsuc (b - a - 1) else pos (a - b)

-- t.Unix(): the zero time is 62135596800 seconds before 1970.
unfoldable pub unix : Time → ℤ
unix t = minus (t / 1000000000) 62135596800

pub record DocMeta : Type 0 where
  pub id : ℕ
  pub path : Bytes
  pub title : Bytes
  pub size : ℤ
  pub indexed_at : Time
  pub file_type : Bytes
  pub mime_type : Bytes
  pub created_at : Time
  pub modified_at : Time
  pub tags : List Bytes
  pub word_count : ℕ

-- `ext` is in lower case.
unfoldable pub file_type_of : Bytes → Bytes
file_type_of ext =
    if eq_bytes ext (bytes ".txt")
    then bytes "text"
    else if one_of ext (bytes ".md" ∷ bytes ".markdown" ∷ [])
    then bytes "markdown"
    else if eq_bytes ext (bytes ".json")
    then bytes "json"
    else if eq_bytes ext (bytes ".xml")
    then bytes "xml"
    else if one_of ext (bytes ".html" ∷ bytes ".htm" ∷ [])
    then bytes "html"
    else if one_of ext (bytes ".yaml" ∷ bytes ".yml" ∷ [])
    then bytes "yaml"
    else if eq_bytes ext (bytes ".toml")
    then bytes "toml"
    else if one_of ext (bytes ".cfg" ∷ bytes ".conf" ∷ bytes ".ini" ∷ [])
    then bytes "config"
    else if eq_bytes ext (bytes ".log")
    then bytes "log"
    else if eq_bytes ext (bytes ".csv")
    then bytes "data"
    else bytes "unknown"

unfoldable pub detect_file_type : Bytes → Bytes
detect_file_type ext = file_type_of (to_lower ext)

unfoldable pub mime_type_of : Bytes → Bytes
mime_type_of ext =
    if eq_bytes ext (bytes ".txt")
    then bytes "text/plain"
    else if one_of ext (bytes ".md" ∷ bytes ".markdown" ∷ [])
    then bytes "text/markdown"
    else if eq_bytes ext (bytes ".json")
    then bytes "application/json"
    else if eq_bytes ext (bytes ".xml")
    then bytes "application/xml"
    else if one_of ext (bytes ".html" ∷ bytes ".htm" ∷ [])
    then bytes "text/html"
    else if one_of ext (bytes ".yaml" ∷ bytes ".yml" ∷ [])
    then bytes "text/yaml"
    else if eq_bytes ext (bytes ".toml")
    then bytes "text/toml"
    else if eq_bytes ext (bytes ".csv")
    then bytes "text/csv"
    else if one_of ext (bytes ".log" ∷ bytes ".cfg" ∷ bytes ".conf" ∷ bytes ".ini" ∷ [])
    then bytes "text/plain"
    else bytes "application/octet-stream"

unfoldable pub detect_mime_type : Bytes → Bytes
detect_mime_type ext = mime_type_of (to_lower ext)

-- What stands behind the last slash.
unfoldable pub last_part : Bytes → Bytes
last_part [] = []
last_part (c ∷ s) =
    let rest = last_part s in if has_byte b'/' s then rest else if c == b'/' then s else c ∷ s

-- The text from its last dot on, if there is one.
unfoldable pub from_dot : Bytes → Bytes
from_dot [] = []
from_dot (c ∷ s) =
    let rest = from_dot s in if has_byte b'.' s then rest else if c == b'.' then c ∷ s else []

-- filepath.Ext
unfoldable pub ext_of : Bytes → Bytes
ext_of path = from_dot (last_part path)

-- A path without the slashes at its end.
unfoldable pub drop_slashes : Bytes → Bytes
drop_slashes [] = []
drop_slashes (c ∷ s) =
    let rest = drop_slashes s in
    if is_nil rest then (if c == b'/' then [] else c ∷ []) else c ∷ rest

-- filepath.Base
unfoldable pub base_of : Bytes → Bytes
base_of [] = bytes "."
base_of (c ∷ s) = let p = drop_slashes (c ∷ s) in if is_nil p then bytes "/" else last_part p

pub record ReplicaDocInfo : Type 0 where
  pub file_type : Bytes
  pub size : ℤ
  pub created_at : ℤ
  pub modified_at : ℤ
  pub word_count : ℕ

unfoldable pub doc_meta_to_replica_info : DocMeta → ReplicaDocInfo
doc_meta_to_replica_info doc = record {
  file_type = doc.file_type;
  size = doc.size;
  created_at = unix doc.created_at;
  modified_at = unix doc.modified_at;
  word_count = doc.word_count;
}
