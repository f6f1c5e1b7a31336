-- ===== src/Config/CleanAddress.antt =====
-- An address that `net.ParseIP` accepts holds no control character, so it can stand in a line of torrc
-- (controller/internal/config/torrc.go).
use torvmremix.Base.{
  ℕ, zero, suc, ◌+◌, ◌*◌, ◌-◌, ◌≡◌, refl, Bool, true, false, not, [], ◌∷◌, all, arith, Bytes,
  Bool-cases, drop, eq_bytes, has_prefix, eq_bytes_sound, inl, inr,
}
use torvmremix.Config.Address.{
  parse_ip_ok, parse_addr_ok, parse_ipv6_ok, ipv6_fields, ipv6_after, hex_run, ipv4_fields,
}
use torvmremix.Config.Torrc.{is_control}

abbrev pub is_clean : Bytes → Bool
is_clean s = all (λ c. not (is_control c)) s

ipv4-clean : (v d k : ℕ) (s : Bytes) → ipv4_fields v d k s ≡ true → is_clean s ≡ true
unfolding ipv4_fields
ipv4-clean v d k [] h = refl
ipv4-clean v d k (c ∷ s) h =
    ground (arith, ipv4-clean (v * 10 + (c - b'0')) (d + 1) k s, ipv4-clean 0 0 (k + 1) s)

hex_run-clean : (f : ℕ) (s : Bytes) → is_clean (hex_run f s).1 ≡ true → is_clean s ≡ true
unfolding hex_run
hex_run-clean zero s h = h
hex_run-clean (suc f) [] h = refl
hex_run-clean (suc f) (c ∷ s) h = ground (arith, hex_run-clean f s)

after-clean :
    (more : ℕ → Bool → Bytes → Bool)
    → ((i : ℕ) (e : Bool) (s : Bytes) → more i e s ≡ true → is_clean s ≡ true)
    → (i : ℕ) (e : Bool) (s : Bytes) → ipv6_after more i e s ≡ true
    → is_clean s ≡ true
unfolding ipv6_after
after-clean more k i e [] h = refl
after-clean more k i e (c ∷ []) h = absurd (cc)
after-clean more k i e (c ∷ d ∷ []) h = ground (arith, k i e (d ∷ []))
after-clean more k i e (c ∷ d ∷ x ∷ s) h = ground (arith, k i true (x ∷ s), k i e (d ∷ x ∷ s))

ipv6-clean : (f i : ℕ) (e : Bool) (s : Bytes) → ipv6_fields f i e s ≡ true → is_clean s ≡ true
unfolding ipv6_fields
ipv6-clean zero i e s h = absurd (cc)
ipv6-clean (suc f) i e s h = ground (
  arith,
  ipv4-clean 0 0 0 s,
  hex_run-clean 5 s,
  after-clean (ipv6_fields f) (ipv6-clean f) (i + 2) e (hex_run 5 s).1,
)

double_colon :
    (s : Bytes)
    → has_prefix s (b':' ∷ b':' ∷ []) ≡ true
    → is_clean (drop 2 s) ≡ true
    → is_clean s ≡ true
unfolding has_prefix
double_colon [] h k = refl
double_colon (a ∷ []) h k = ground arith
double_colon (a ∷ b ∷ s) h k = ground arith

parse_ipv6-clean : (s : Bytes) → parse_ipv6_ok s ≡ true → is_clean s ≡ true
unfolding parse_ipv6_ok
parse_ipv6-clean s h = elim (Bool-cases (eq_bytes s (b':' ∷ b':' ∷ []))) [
  | inl q ↦ rw (eq_bytes_sound s _ q) refl
  | inr n ↦ ground (arith, double_colon s, ipv6-clean 8 0 true (drop 2 s), ipv6-clean 8 0 false s)
]

parse_addr-clean : (whole s : Bytes) → parse_addr_ok whole s ≡ true → is_clean whole ≡ true
unfolding parse_addr_ok
parse_addr-clean whole [] h = absurd (cc)
parse_addr-clean whole (c ∷ s) h =
    ground (arith, ipv4-clean 0 0 0 whole, parse_ipv6-clean whole, parse_addr-clean whole s)

pub parse_ip-clean : (s : Bytes) → parse_ip_ok s ≡ true → is_clean s ≡ true
unfolding parse_ip_ok
parse_ip-clean s h = parse_addr-clean s s h
