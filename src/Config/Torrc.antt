-- ===== src/Config/Torrc.antt =====
-- controller/internal/config/torrc.go: the lines of torrc that the bridges, the proxy, the relays and
-- the hidden service ask for. A rune below 128 is a byte, and the tests are about such runes.
use torvmremix.Base.{
  ℕ, Bool, true, false, not, ◌&&◌, ◌||◌, List, [], ◌∷◌, ◌++◌, gt_lit, Result, ok, err, ◌>>=◌, ◌>>◌,
  refuse_if, each, leb, ltb, ◌==◌, if◌then◌else◌, all, any, length, Bytes, bytes, is_nil, eq_bytes,
  has_byte, trim_space, to_lower, join, port_text,
}
use torvmremix.Config.Schema.{BridgeConfig, ProxyConfig, RelayConfig, FheConfig, Config}
use torvmremix.Config.Address.{AddrError, split_host_port}
use torvmremix.Config.Validate.{is_letter, is_alnum}

pub data TorrcError : Type 0 where
  has_newline has_control too_long bad_characters bad_relay : Bytes → TorrcError
  not_host_port : AddrError → TorrcError
  no_host no_port : TorrcError
  unsupported_transport : Bytes → TorrcError

abbrev pub TorrcCheck : Type 0
TorrcCheck = Result TorrcError (Unit {0})

abbrev pub is_control : ℕ → Bool
is_control c = ltb c 32 || c == 127

unfoldable pub sanitize_torrc_line : Bytes → Bytes → TorrcCheck
sanitize_torrc_line field value = do
  refuse_if (has_byte 13 value || has_byte 10 value) (has_newline field)
  refuse_if (any (λ c. is_control c) value) (has_control field)

-- A class of a regular expression: letters, digits and the bytes listed.
abbrev pub in_class : Bytes → ℕ → Bool
in_class extra c = is_alnum c || has_byte c extra

-- ^[a-zA-Z0-9.:[\] /=,+_-]+$
unfoldable pub bridge_line_re : Bytes → Bool
bridge_line_re s = not (is_nil s) && all (in_class (bytes ".:[] /=,+_-")) s

-- ^[a-zA-Z0-9!@#$%^&*()_+=[\]{}<>,.?/~-]+$
unfoldable pub credential_re : Bytes → Bool
credential_re s = not (is_nil s) && all (in_class (bytes "!@#$%^&*()_+=[]{}<>,.?/~-")) s

abbrev pub is_hex : ℕ → Bool
is_hex c = leb b'0' c && leb c b'9' || leb b'a' c && leb c b'f' || leb b'A' c && leb c b'F'

-- ^\$[0-9a-fA-F]{40}$
unfoldable pub fingerprint_re : Bytes → Bool
fingerprint_re [] = false
fingerprint_re (c ∷ s) = c == b'$' && length s == 40 && all (λ d. is_hex d) s

-- ^\{[a-zA-Z]{2}\}$
unfoldable pub country_code_re : Bytes → Bool
country_code_re (a ∷ b ∷ c ∷ d ∷ []) = a == b'{' && is_letter b && is_letter c && d == b'}'
country_code_re _ = false

unfoldable pub validate_bridge_line : Bytes → TorrcCheck
unfolding sanitize_torrc_line bridge_line_re
validate_bridge_line line = do
  sanitize_torrc_line (bytes "bridge") line
  refuse_if (ltb 1024 (length line)) (too_long (bytes "bridge line"))
  refuse_if (not (bridge_line_re line)) (bad_characters (bytes "bridge line"))

unfoldable pub check_host_port : Result AddrError (Bytes × Bytes) → TorrcCheck
check_host_port (err e) = err (not_host_port e)
check_host_port (ok p) = refuse_if (is_nil p.0) no_host >> refuse_if (is_nil p.1) no_port

unfoldable pub validate_proxy_address : Bytes → TorrcCheck
unfolding sanitize_torrc_line check_host_port
validate_proxy_address addr = do
  sanitize_torrc_line (bytes "proxy address") addr
  check_host_port (split_host_port addr)

unfoldable pub validate_credential : Bytes → Bytes → TorrcCheck
unfolding sanitize_torrc_line credential_re
validate_credential field value = if is_nil value then ok tt else do
  sanitize_torrc_line field value
  refuse_if (ltb 255 (length value)) (too_long field)
  refuse_if (not (credential_re value)) (bad_characters field)

unfoldable pub validate_relay_entry : Bytes → TorrcCheck
unfolding sanitize_torrc_line fingerprint_re country_code_re
validate_relay_entry entry = do
  sanitize_torrc_line (bytes "relay entry") entry
  refuse_if (not (fingerprint_re entry) && not (country_code_re entry)) (bad_relay entry)

unfoldable pub validate_relay_config : RelayConfig → TorrcCheck
unfolding validate_relay_entry
validate_relay_config rc = do
  each validate_relay_entry rc.exclude_nodes
  each validate_relay_entry rc.exclude_exit_nodes

abbrev pub Lines : Type 0
Lines = Result TorrcError (List Bytes)

-- The line that a transport asks for.
unfoldable pub transport_lines : Bytes → Lines
transport_lines t =
    if eq_bytes t (bytes "obfs4")
    then ok (bytes "ClientTransportPlugin obfs4 exec /usr/bin/obfs4proxy" ∷ [])
    else if eq_bytes t (bytes "meek-azure")
    then ok (bytes "ClientTransportPlugin meek_lite exec /usr/bin/obfs4proxy" ∷ [])
    else if eq_bytes t (bytes "snowflake")
    then ok (bytes "ClientTransportPlugin snowflake exec /usr/bin/snowflake-client" ∷ [])
    else if is_nil t || eq_bytes t (bytes "none")
    then ok []
    else err (unsupported_transport t)

unfoldable pub bridge_line : Bytes → Lines
unfolding validate_bridge_line
bridge_line raw =
    let b = trim_space raw in
    if is_nil b then ok [] else validate_bridge_line b >> ok ((bytes "Bridge " ++ b) ∷ [])

unfoldable pub bridge_lines : List Bytes → Lines
bridge_lines [] = ok []
bridge_lines (b ∷ bs) = do l ← bridge_line b; ls ← bridge_lines bs; ok (l ++ ls)

unfoldable pub bridge_section : BridgeConfig → Lines
unfolding transport_lines bridge_lines bridge_line
bridge_section b = if not b.use_bridges then ok [] else do
  t ← transport_lines b.transport
  ls ← bridge_lines b.bridges
  ok (bytes "UseBridges 1" ∷ (t ++ ls))

-- The lines of one kind of proxy.
unfoldable pub proxy_lines : ProxyConfig → List Bytes
proxy_lines p =
    let kind = to_lower p.kind in
    let auth = p.username ++ bytes ":" ++ p.password in
    if eq_bytes kind (bytes "http")
    then (bytes "HTTPProxy " ++ p.address)
      ∷ (if is_nil p.username then [] else (bytes "HTTPProxyAuthenticator " ++ auth) ∷ [])
    else if eq_bytes kind (bytes "https")
    then (bytes "HTTPSProxy " ++ p.address)
      ∷ (if is_nil p.username then [] else (bytes "HTTPSProxyAuthenticator " ++ auth) ∷ [])
    else if eq_bytes kind (bytes "socks5")
    then (bytes "Socks5Proxy " ++ p.address)
      ∷ (if is_nil p.username
          then []
          else (bytes "Socks5ProxyUsername " ++ p.username)
            ∷ (bytes "Socks5ProxyPassword " ++ p.password)
            ∷ [])
    else []

unfoldable pub proxy_section : ProxyConfig → Lines
unfolding proxy_lines validate_proxy_address validate_credential
proxy_section p = if is_nil p.kind || is_nil p.address then ok [] else do
  validate_proxy_address p.address
  validate_credential (bytes "proxy username") p.username
  validate_credential (bytes "proxy password") p.password
  ok (proxy_lines p)

abbrev pub when : Bool → Bytes → List Bytes
when true l = l ∷ []
when false l = []

unfoldable pub relay_lines : RelayConfig → List Bytes
relay_lines rc =
    when (not (is_nil rc.exclude_nodes))
      (bytes "ExcludeNodes " ++ join (bytes ",") rc.exclude_nodes)
    ++ (when (not (is_nil rc.exclude_exit_nodes))
          (bytes "ExcludeExitNodes " ++ join (bytes ",") rc.exclude_exit_nodes)
        ++ when rc.strict_nodes (bytes "StrictNodes 1"))

unfoldable pub relay_section : RelayConfig → Lines
unfolding relay_lines validate_relay_config
relay_section rc = validate_relay_config rc >> ok (relay_lines rc)

unfoldable pub service_section : FheConfig → Bytes → List Bytes
service_section f host_ip =
    if f.enabled && f.share_enabled && gt_lit f.hidden_service_port 0
    then bytes "HiddenServiceDir /home/tor/hidden_service/fhe_index"
      ∷ (bytes "HiddenServicePort "
          ++ (port_text f.hidden_service_port
              ++ (bytes " " ++ (host_ip ++ (bytes ":" ++ port_text f.hidden_service_port)))))
      ∷ []
    else []

-- All lines, in their order.
unfoldable pub overlay_lines : Config → Lines
unfolding bridge_section proxy_section relay_section service_section
overlay_lines c = do
  b ← bridge_section c.bridge
  p ← proxy_section c.proxy
  r ← relay_section c.relays
  ok (b ++ (p ++ (r ++ service_section c.fhe c.host_ip)))

abbrev pub overlay_text : List Bytes → Bytes
overlay_text [] = []
overlay_text (l ∷ ls) = join (bytes "\n") (l ∷ ls) ++ bytes "\n"

unfoldable pub torrc_overlay : Config → Result TorrcError Bytes
unfolding overlay_lines
torrc_overlay c = do ls ← overlay_lines c; ok (overlay_text ls)
