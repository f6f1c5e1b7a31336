-- ===== src/Tor/Events.antt =====
-- What Tor tells the controller: controller/internal/tor/bootstrap.go, bandwidth.go and the helpers at the
-- end of control.go.
use torvmremix.Base.{
  ℕ, ◌+◌, ◌-◌, ◌*◌, Bool, true, false, not, ◌&&◌, ◌||◌, Option, none, some, List, [], ◌∷◌, ℤ, pos,
  negsuc, Result, ok, err, ◌>>=◌, ◌>>◌, refuse_if, Bytes, bytes, is_nil, has_prefix, has_byte,
  after_first, up_to_byte, if◌then◌else◌, length, drop, ltb, leb, ◌==◌,
}
use torvmremix.Tor.Fields.{fields}

pub data EventError : Type 0 where
  no_progress not_a_number not_bandwidth wrong_format empty_response has_newline : EventError
  refused : Bytes → EventError

-- The value of digits, if there is nothing else.
unfoldable pub digits_value : ℕ → Bytes → Option ℕ
digits_value v [] = some v
digits_value v (c ∷ s) =
    let rest = digits_value (v * 10 + (c - b'0')) s in
    if leb b'0' c && leb c b'9' then rest else none

-- 2 ^ 63
abbrev pub int_limit : ℕ
int_limit = 9223372036854775808

abbrev in_range : Bool → ℕ → Option ℤ
in_range false v = if ltb v int_limit then some (pos v) else none
in_range true v =
    if v == 0 then some (pos 0) else if leb v int_limit then some (negsuc (v - 1)) else none

abbrev signed : Bool → Bytes → Option ℤ
signed minus s =
    if is_nil s then none else elim (digits_value 0 s) [ none ↦ none | some v ↦ in_range minus v ]

-- strconv.Atoi and strconv.ParseInt(s, 10, 64).
unfoldable pub parse_int : Bytes → Option ℤ
parse_int [] = none
parse_int (c ∷ s) =
    if c == b'-' then signed true s else if c == b'+' then signed false s else signed false (c ∷ s)

abbrev pub number : Bytes → Result EventError ℤ
number s = elim (parse_int s) [ none ↦ err not_a_number | some n ↦ ok n ]

pub record BootstrapStatus : Type 0 where
  pub progress : ℤ
  pub tag : Bytes
  pub summary : Bytes

-- What stands behind the first occurrence of a key, up to a byte; nothing if the key is not there.
unfoldable pub value_after : Bytes → ℕ → Bytes → Bytes
value_after key stop line = elim (after_first line key) [ none ↦ [] | some s ↦ up_to_byte stop s ]

unfoldable pub parse_bootstrap_status : Bytes → Result EventError BootstrapStatus
parse_bootstrap_status line = elim (after_first line (bytes "PROGRESS=")) [
  | none ↦ err no_progress
  | some s ↦ number (up_to_byte 32 s) >>= λ n. ok (record {
    progress = n;
    tag = value_after (bytes "TAG=") 32 line;
    summary = value_after (bytes "SUMMARY=\"") 34 line;
  })
]

pub record BandwidthStats : Type 0 where
  pub bytes_read : ℤ
  pub bytes_written : ℤ

abbrev without_code : Bytes → Bytes
without_code s = if has_prefix s (bytes "650 ") || has_prefix s (bytes "650-") then drop 4 s else s

abbrev three_fields : List Bytes → Result EventError BandwidthStats
three_fields (a ∷ r ∷ w ∷ []) =
    number r >>= λ m. number w >>= λ n. ok (record { bytes_read = m; bytes_written = n })
three_fields _ = err wrong_format

unfoldable pub parse_bandwidth_event : Bytes → Result EventError BandwidthStats
parse_bandwidth_event line =
    refuse_if (not (has_prefix (without_code line) (bytes "BW "))) not_bandwidth
    >> three_fields (fields (without_code line))

unfoldable pub is_async_event : Bytes → Bool
is_async_event line = has_prefix line (bytes "650")

-- The action and the body of an event.
unfoldable pub dispatch_event : Bytes → Bytes × Bytes
dispatch_event line =
    let body = if ltb 4 (length line) then drop 4 line else [] in (up_to_byte 32 body, body)

unfoldable pub strip_status_prefix : Bytes → Bytes
strip_status_prefix line = if leb 4 (length line) then drop 4 line else line

unfoldable pub expect_ok : List Bytes → Result EventError (Unit {0})
expect_ok [] = err empty_response
expect_ok (l ∷ []) = refuse_if (not (has_prefix l (bytes "250 "))) (refused l)
expect_ok (l ∷ k ∷ ls) = expect_ok (k ∷ ls)

unfoldable pub validate_no_newlines : Bytes → Result EventError (Unit {0})
validate_no_newlines s = refuse_if (has_byte 13 s || has_byte 10 s) has_newline
