-- ===== src/Tor/Relays.antt =====
-- controller/internal/tor/relay.go, GetCircuits of circuit.go and GetBootstrapStatus of bootstrap.go: what is
-- asked of Tor by GETINFO.
use torvmremix.Base.{
  ◌-◌, ◌&&◌, Option, none, some, List, [], ◌∷◌, ◌++◌, ℤ, pos, Result, ok, err, ◌>>=◌, ◌>>◌, Bytes,
  bytes, is_nil, eq_bytes, has_prefix, drop, split, trim_space, leb, if◌then◌else◌, get_elem?,
}
use torvmremix.Tor.Fields.{fields}
use torvmremix.Tor.Directives.{lookup}
use torvmremix.Tor.Events.{BootstrapStatus, parse_bootstrap_status}
use torvmremix.Tor.Control.{ControlError, not_found, not_ok, Wire, get_info, check, wrap}
use torvmremix.Tor.Circuit.{CircuitInfo, get_circuits, parse_relay_path}
use torvmremix.Tor.Countries.{Place, country_centroids}

-- strings.ToUpper on ASCII.
unfoldable pub to_upper : Bytes → Bytes
to_upper [] = []
to_upper (c ∷ s) = (if leb b'a' c && leb c b'z' then c - 32 else c) ∷ to_upper s

-- The value of the one key that is asked for, if Tor gives it.
unfoldable pub ask : Bytes → Wire → Result ControlError (Option Bytes)
ask key w = (get_info (key ∷ []) w).1 >>= λ m. ok (lookup key m)

-- `none` is the panic of parseCircuitLine.
unfoldable pub list_circuits : Wire → Result ControlError (Option (List CircuitInfo))
list_circuits w = ask (bytes "circuit-status") w >>= λ r.
    ok (elim r [ none ↦ some [] | some raw ↦ get_circuits raw ])

unfoldable pub get_bootstrap_status : Wire → Result ControlError BootstrapStatus
get_bootstrap_status w = ask (bytes "status/bootstrap-phase") w >>= λ r. elim r [
  | none ↦ err (not_found (bytes "status/bootstrap-phase"))
  | some phase ↦ wrap not_ok (parse_bootstrap_status phase)
]

unfoldable pub get_relay_country : Bytes → Wire → Result ControlError Bytes
get_relay_country ip w =
    check ip
    >> (ask (bytes "ip-to-country/" ++ ip) w >>= λ r. elim r [
      | none ↦ err (not_found ip)
      | some code ↦ if is_nil code then err (not_found ip) else ok (to_upper (trim_space code))
    ])

-- The seventh field of the first line that begins with `r ` and has so many.
unfoldable pub find_address : List Bytes → Option Bytes
find_address [] = none
find_address (l ∷ ls) =
    let rest = find_address ls in
    let t = trim_space l in
    if has_prefix t (bytes "r ")
    then elim (get_elem? (fields t) 6) [ none ↦ rest | some a ↦ some a ]
    else rest

abbrev pub trim_dollar : Bytes → Bytes
trim_dollar s = if has_prefix s (bytes "$") then drop 1 s else s

unfoldable pub get_relay_address : Bytes → Wire → Result ControlError Bytes
get_relay_address fingerprint w =
    check fingerprint
    >> (ask (bytes "ns/id/" ++ trim_dollar fingerprint) w >>= λ r. elim r [
      | none ↦ err (not_found fingerprint)
      | some raw ↦ elim (find_address (split 10 raw)) [
        | none ↦ err (not_found fingerprint)
        | some a ↦ ok a
      ]
    ])

pub record RelayInfo : Type 0 where
  pub fingerprint : Bytes
  pub nickname : Bytes
  pub country_code : Bytes
  pub latitude : ℤ
  pub longitude : ℤ
  pub role : Bytes

unfoldable pub centroid : Bytes → List Place → Option (ℤ × ℤ)
centroid code [] = none
centroid code (p ∷ ps) = if eq_bytes p.0 code then some p.1 else centroid code ps

abbrev pub unlocated : Bytes × Bytes → Bytes → RelayInfo
unlocated entry code = record {
  fingerprint = entry.0;
  nickname = entry.1;
  country_code = code;
  latitude = pos 0;
  longitude = pos 0;
  role = [];
}

-- The country and its centre, if the table has it.
abbrev pub located : Bytes × Bytes → Bytes → RelayInfo
located entry code = elim (centroid code country_centroids) [
  | none ↦ unlocated entry code
  | some c ↦ record (unlocated entry code) { latitude = c.0; longitude = c.1 }
]

unfoldable pub with_country :
    Bytes × Bytes → Result ControlError Bytes → RelayInfo × Option ControlError
with_country entry (err e) = (unlocated entry [], some e)
with_country entry (ok code) = (located entry code, none)

unfoldable pub with_address :
    Bytes × Bytes
    → Result ControlError Bytes
    → (Bytes → Result ControlError Bytes)
    → RelayInfo × Option ControlError
with_address entry (err e) country = (unlocated entry [], some e)
with_address entry (ok ip) country = with_country entry (country ip)

-- ResolveRelay: what is known of the relay, and the error, if there is one. The two commands meet
-- one wire each.
unfoldable pub resolve_relay : Bytes → Wire → Wire → RelayInfo × Option ControlError
resolve_relay entry w₁ w₂ =
    let parts = parse_relay_path entry in
    with_address parts (get_relay_address parts.0 w₁) (λ ip. get_relay_country ip w₂)
