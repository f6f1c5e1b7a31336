-- ===== src/Config/Address.antt =====
-- The functions of the Go packages `net` and `net/netip` by which the configuration checks
-- addresses: whether `net.ParseIP` accepts a text, and `net.SplitHostPort`.
use torvmremix.Base.{
  ℕ, zero, suc, ◌+◌, ◌-◌, ◌*◌, Bool, true, false, not, ◌&&◌, ◌||◌, Option, none, some, [], ◌∷◌, ltb,
  leb, ◌==◌, if◌then◌else◌, Bytes, is_nil, split_at_byte, has_byte, drop, length, Result, ok, err,
  eq_bytes, has_prefix,
}

abbrev pub is_digit : ℕ → Bool
is_digit c = leb b'0' c && leb c b'9'

-- netip.parseIPv4Fields: `value` and `digits` describe the field that is read, `dots` counts the
-- dots behind. A field is a number up to 255 with no leading zero.
unfoldable pub ipv4_fields : (value digits dots : ℕ) → Bytes → Bool
ipv4_fields value digits dots [] = ltb 0 digits && dots == 3
ipv4_fields value digits dots (c ∷ s) =
    let next = ipv4_fields (value * 10 + (c - b'0')) (digits + 1) dots s in
    let field = ipv4_fields 0 0 (dots + 1) s in
    if is_digit c
    then (if digits == 1 && value == 0
        then false
        else if ltb 255 (value * 10 + (c - b'0'))
        then false
        else next)
    else if c == b'.' && ltb 0 digits && ltb dots 3
    then field
    else false

abbrev pub hex_value : ℕ → Option ℕ
hex_value c =
    if is_digit c
    then some (c - b'0')
    else if leb b'a' c && leb c b'f'
    then some (c - b'a' + 10)
    else if leb b'A' c && leb c b'F'
    then some (c - b'A' + 10)
    else none

-- The hexadecimal digits at the head of a text: how many there are (at most five are counted), and
-- the rest.
unfoldable pub hex_run : ℕ → Bytes → ℕ × Bytes
hex_run zero s = (0, s)
hex_run (suc f) [] = (0, [])
hex_run (suc f) (c ∷ s) =
    let rest = hex_run f s in
    elim (hex_value c) [ none ↦ (0, c ∷ s) | some v ↦ (suc rest.0, rest.1) ]

abbrev pub ipv6_finish : ℕ → Bool → Bool
ipv6_finish i ellipsis = (ltb i 16 && ellipsis) || (i == 16 && not ellipsis)

-- What follows a group of digits that fills the bytes below `i`; `more` is the loop.
unfoldable pub ipv6_after :
    (more : ℕ → Bool → Bytes → Bool) → (i : ℕ) (ellipsis : Bool) → Bytes → Bool
ipv6_after more i ellipsis [] = ipv6_finish i ellipsis
ipv6_after more i ellipsis (c ∷ []) = false
ipv6_after more i ellipsis (c ∷ d ∷ []) =
    if not (c == b':')
    then false
    else if d == b':'
    then not ellipsis && ipv6_finish i true
    else ltb i 16 && more i ellipsis (d ∷ [])
ipv6_after more i ellipsis (c ∷ d ∷ e ∷ s) =
    if not (c == b':')
    then false
    else if d == b':'
    then not ellipsis && ltb i 16 && more i true (e ∷ s)
    else ltb i 16 && more i ellipsis (d ∷ e ∷ s)

-- netip.parseIPv6; a zone, which `net.ParseIP` refuses, is no text of this form. `i` is the number
-- of bytes that are filled in. The fuel counts the groups, of which there are at most eight.
unfoldable pub ipv6_fields : ℕ → (i : ℕ) (ellipsis : Bool) → Bytes → Bool
ipv6_fields zero i ellipsis s = false
ipv6_fields (suc f) i ellipsis s =
    let run = hex_run 5 s in
    let v4 = has_prefix run.1 (b'.' ∷ []) in
    if run.0 == 0 || ltb 4 run.0
    then false
    else if v4
    then (ellipsis || i == 12) && leb i 12 && ipv4_fields 0 0 0 s && ipv6_finish (i + 4) ellipsis
    else ipv6_after (ipv6_fields f) (i + 2) ellipsis run.1

unfoldable pub parse_ipv6_ok : Bytes → Bool
parse_ipv6_ok s =
    if eq_bytes s (b':' ∷ b':' ∷ [])
    then true
    else if has_prefix s (b':' ∷ b':' ∷ [])
    then ipv6_fields 8 0 true (drop 2 s)
    else ipv6_fields 8 0 false s

-- netip.ParseAddr goes by the first dot or colon.
unfoldable pub parse_addr_ok : Bytes → Bytes → Bool
parse_addr_ok whole [] = false
parse_addr_ok whole (c ∷ s) =
    if c == b'.'
    then ipv4_fields 0 0 0 whole
    else if c == b':'
    then parse_ipv6_ok whole
    else if c == b'%'
    then false
    else parse_addr_ok whole s

-- net.ParseIP(s) != nil
unfoldable pub parse_ip_ok : Bytes → Bool
unfolding parse_addr_ok parse_ipv6_ok ipv6_fields ipv6_after hex_run ipv4_fields has_prefix eq_bytes
parse_ip_ok s = parse_addr_ok s s

-- The last occurrence of a byte: the text before it and behind it.
split_at_last : ℕ → Bytes → Option (Bytes × Bytes)
split_at_last c [] = none
split_at_last c (a ∷ s) = elim (split_at_last c s) [
  | some p ↦ some (a ∷ p.0, p.1)
  | none ↦ if a == c then some ([], s) else none
]

pub data AddrError : Type 0 where
  missing_port too_many_colons missing_bracket unexpected_bracket : AddrError

-- A host in brackets: `inside` is the text behind `[`, and `i` the place of the last colon.
split_bracketed : (inside : Bytes) (i : ℕ) (port : Bytes) → Result AddrError (Bytes × Bytes)
split_bracketed inside i port = elim (split_at_byte b']' inside) [
  | none ↦ err missing_bracket
  | some p ↦
      if is_nil p.1
      then err missing_port
      else if length p.0 + 2 == i
      then (if has_byte b'[' inside || has_byte b']' p.1
          then err unexpected_bracket
          else ok (p.0, port))
      else if has_prefix p.1 (b':' ∷ [])
      then err too_many_colons
      else err missing_port
]

-- net.SplitHostPort
unfoldable pub split_host_port : Bytes → Result AddrError (Bytes × Bytes)
unfolding split_at_last split_bracketed split_at_byte has_byte has_prefix
split_host_port s = elim (split_at_last b':' s) [
  | none ↦ err missing_port
  | some p ↦
      if has_prefix s (b'[' ∷ [])
      then split_bracketed (drop 1 s) (length p.0) p.1
      else if has_byte b':' p.0
      then err too_many_colons
      else if has_byte b'[' s || has_byte b']' s
      then err unexpected_bracket
      else ok p
]
