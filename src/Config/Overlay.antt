-- ===== src/Config/Overlay.antt =====
-- The text that TorrcOverlay of controller/internal/config/torrc.go makes holds the intended lines
-- and no others.
use torvmremix.Base.{
  port_text, ℕ, ◌+◌, ◌/◌, zero, suc, ◌≡◌, refl, ◌∙◌, ap, subst, true, not, inl, inr, List, [], ◌∷◌,
  ◌++◌, append_assoc, ℤ, pos, negsuc, ok, >>=-ok, >>-ok, each, All, Bytes, bytes, is_nil, eq_bytes,
  join, decimal, decimal_fuel, split, one_of, if◌then◌else◌, Bool-cases, arith, ltb, &&-true,
}
use torvmremix.Config.Schema.{ProxyConfig, RelayConfig, FheConfig, Config}
use torvmremix.Config.Torrc.{
  is_control, validate_proxy_address, validate_credential, validate_relay_entry,
  validate_relay_config, proxy_lines, proxy_section, relay_lines, relay_section, service_section,
  overlay_lines, overlay_text, torrc_overlay,
}
use torvmremix.Config.CleanAddress.{is_clean}
use torvmremix.Config.CleanAddress.{parse_ip-clean}
use torvmremix.Config.Address.{parse_ip_ok}
use torvmremix.Config.Directives.{
  directives, IsDirective, IsDirective-clean, clean-append, directive, plain, Good, Good-nil,
  Good-cons, Good-append, Good-if, Good-when, Yields, yields, Yields-if, Yields-check, Yields-bind,
  Yields-Good, proxy-clean, credential-clean, relays-clean, bridge_section-Yields,
}

auth-Good :
    (u d v : Bytes)
    → one_of d directives ≡ true
    → is_clean u ≡ true
    → is_clean v ≡ true
    → Good (if is_nil u then [] else (d ++ (u ++ bytes ":" ++ v)) ∷ [])
unfolding bytes
auth-Good u d v o h k = Good-if (is_nil u) Good-nil (
    Good-cons
      (directive d _ o (clean-append (u ++ bytes ":") v (clean-append u (bytes ":") h refl) k))
      Good-nil)

proxy_lines-Good :
    (p : ProxyConfig)
    → is_clean p.address ≡ true
    → is_clean p.username ≡ true
    → is_clean p.password ≡ true
    → Good (proxy_lines p)
unfolding proxy_lines bytes eq_bytes
proxy_lines-Good p a u v =
    Good-if _
      (Good-cons (directive (bytes "HTTPProxy ") p.address refl a)
        (auth-Good p.username (bytes "HTTPProxyAuthenticator ") p.password refl u v))
      (Good-if _
        (Good-cons (directive (bytes "HTTPSProxy ") p.address refl a)
          (auth-Good p.username (bytes "HTTPSProxyAuthenticator ") p.password refl u v))
        (Good-if _
          (Good-cons (directive (bytes "Socks5Proxy ") p.address refl a) (
            Good-if _ Good-nil (
              Good-cons (directive (bytes "Socks5ProxyUsername ") p.username refl u)
                (Good-cons (directive (bytes "Socks5ProxyPassword ") p.password refl v) Good-nil))))
          Good-nil))

proxy_section-Yields : (p : ProxyConfig) → Yields (proxy_section p)
unfolding proxy_section
proxy_section-Yields p = Yields-if _ (yields Good-nil) (
    Yields-check (validate_proxy_address p.address) λ a.
      Yields-check (validate_credential (bytes "proxy username") p.username) λ u.
        Yields-check (validate_credential (bytes "proxy password") p.password) λ v.
          yields (
            proxy_lines-Good p (proxy-clean _ a) (credential-clean _ _ u) (credential-clean _ _ v)))

relay_section-Yields : (r : RelayConfig) → Yields (relay_section r)
unfolding relay_section relay_lines validate_relay_config bytes eq_bytes
relay_section-Yields r = Yields-check (validate_relay_config r) λ c.
    let (x, y) = >>-ok (each validate_relay_entry r.exclude_nodes) _ c in
    yields (
      Good-append
        (Good-when _ (
          directive (bytes "ExcludeNodes ") _ refl
            (relays-clean (bytes ",") r.exclude_nodes refl x)))
        (Good-append
          (Good-when _ (
            directive (bytes "ExcludeExitNodes ") _ refl
              (relays-clean (bytes ",") r.exclude_exit_nodes refl y)))
          (Good-when r.strict_nodes (plain (bytes "StrictNodes 1") refl))))

digits-clean : (f n : ℕ) → is_clean (decimal_fuel f n) ≡ true
unfolding decimal_fuel
digits-clean zero n = ground arith
digits-clean (suc f) n = elim (Bool-cases (ltb n 10)) [
  | inl h ↦ rw h (ground arith)
  | inr h ↦ rw h (clean-append (decimal_fuel f (n / 10)) _ (digits-clean f (n / 10)) (ground arith))
]

port-clean : (z : ℤ) → is_clean (port_text z) ≡ true
unfolding decimal bytes
port-clean (pos n) = digits-clean n n
port-clean (negsuc n) =
    clean-append (bytes "-") (decimal_fuel (n + 1) (n + 1)) refl (digits-clean (n + 1) (n + 1))

service-Good : (f : FheConfig) (ip : Bytes) → is_clean ip ≡ true → Good (service_section f ip)
unfolding service_section bytes eq_bytes
service-Good f ip h =
    Good-if _
      (Good-cons (plain (bytes "HiddenServiceDir /home/tor/hidden_service/fhe_index") refl) (
        Good-cons
          (directive (bytes "HiddenServicePort ") _ refl (
            clean-append (port_text f.hidden_service_port) _ (port-clean f.hidden_service_port) (
              clean-append (bytes " ") (ip ++ (bytes ":" ++ port_text f.hidden_service_port)) refl (
                clean-append ip (bytes ":" ++ port_text f.hidden_service_port) h (
                  clean-append (bytes ":") (port_text f.hidden_service_port) refl
                    (port-clean f.hidden_service_port))))))
          Good-nil))
      Good-nil

overlay_lines-Good :
    (c : Config) (ls : List Bytes) → is_clean c.host_ip ≡ true → overlay_lines c ≡ ok ls → Good ls
unfolding overlay_lines
overlay_lines-Good c ls h =
    Yields-Good
      (Yields-bind (bridge_section-Yields c.bridge) λ b g.
        Yields-bind (proxy_section-Yields c.proxy) λ p g'.
          Yields-bind (relay_section-Yields c.relays) λ r g''.
            yields
              (Good-append g (Good-append g' (Good-append g'' (service-Good c.fhe c.host_ip h)))))
      ls

-- A text without newlines is one part of the split.
split-line : (l rest : Bytes) → is_clean l ≡ true → split 10 (l ++ (10 ∷ rest)) ≡ l ∷ split 10 rest
unfolding split
split-line [] rest h = refl
split-line (c ∷ l) rest h =
    rw (split-line l rest (&&-true (not (is_control c)) _ h).1) (ground arith)

split-overlay :
    (l : Bytes) (ls : List Bytes)
    → All (λ k. is_clean k ≡ true) (l ∷ ls)
    → split 10 (join (10 ∷ []) (l ∷ ls) ++ (10 ∷ [])) ≡ (l ∷ ls) ++ ([] ∷ [])
unfolding join
split-overlay l [] h = split-line l [] h.0 ∙ ap (λ (t : List Bytes). l ∷ t) (unfold split in refl)
split-overlay l (k ∷ ks) h =
    ap (split 10) (simp append_assoc)
    ∙ split-line l (join (10 ∷ []) (k ∷ ks) ++ (10 ∷ [])) h.0
    ∙ ap (λ (t : List Bytes). l ∷ t) (split-overlay k ks h.1)

lines_clean : (ls : List Bytes) → All IsDirective ls → All (λ k. is_clean k ≡ true) ls
lines_clean [] h = tt
lines_clean (l ∷ ls) h = (IsDirective-clean l h.0, lines_clean ls h.1)

overlay_split :
    (ls : List Bytes)
    → All (λ k. is_clean k ≡ true) ls
    → split 10 (overlay_text ls) ≡ ls ++ ([] ∷ [])
unfolding bytes split
overlay_split [] h = refl
overlay_split (l ∷ ls) h = split-overlay l ls h

-- If TorrcOverlay makes a text and the host's address parses, then splitting the text at its
-- newlines gives back the lines that were put together and one empty part behind the last newline:
-- no value added a line. And each line is one of the directives that the code writes, followed by
-- a value with no control character.
pub torrc_overlay_lines :
    (c : Config) (text : Bytes)
    → parse_ip_ok c.host_ip ≡ true
    → torrc_overlay c ≡ ok text
    → (ls : List Bytes) × (overlay_lines c ≡ ok ls)
      × (split 10 text ≡ ls ++ ([] ∷ []))
      × All IsDirective ls
unfolding torrc_overlay
torrc_overlay_lines c text h k =
    let (ls, q, r) = >>=-ok (overlay_lines c) _ k in
    let good = overlay_lines-Good c ls (parse_ip-clean c.host_ip h) q in
    (
      ls,
      q,
      subst (λ (t : Bytes). split 10 t ≡ ls ++ ([] ∷ [])) (ground arith)
          (overlay_split ls (lines_clean ls good.lines)),
      good.lines,
    )
