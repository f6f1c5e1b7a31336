-- ===== src/Tor/Globe.antt =====
-- The places that ResolveRelay of controller/internal/tor/relay.go gives.
use torvmremix.Base.{
  ℕ, ◌+◌, ◌≡◌, refl, subst, Bool, true, false, ◌&&◌, Option, none, some, List, [], ◌∷◌, ℤ, pos,
  negsuc, Result, ok, err, leb, all, eq_bytes, Bytes, &&-true, if◌then◌else◌,
}
use mathlib.Core.Option.{some-injective}
use torvmremix.Tor.Control.{ControlError, Wire}
use torvmremix.Tor.Circuit.{parse_relay_path}
use torvmremix.Tor.Countries.{Place, country_centroids}
use torvmremix.Tor.Relays.{
  RelayInfo, unlocated, located, centroid, get_relay_address, get_relay_country, resolve_relay,
  with_country, with_address,
}

-- |z| ≤ n
unfoldable pub within : ℕ → ℤ → Bool
within n (pos m) = leb m n
within n (negsuc m) = leb (m + 1) n

-- At most 90 degrees of latitude and 180 of longitude.
unfoldable pub is_place : ℤ → ℤ → Bool
is_place latitude longitude = within 9000 latitude && within 18000 longitude

table_places : all (λ (p : Place). is_place p.1.0 p.1.1) country_centroids ≡ true
unfolding country_centroids within is_place
table_places = refl

kept :
    (p : Place) (found : Option (ℤ × ℤ)) (c : ℤ × ℤ) (b : Bool)
    → is_place p.1.0 p.1.1 ≡ true
    → (found ≡ some c → is_place c.0 c.1 ≡ true)
    → (if b then some p.1 else found) ≡ some c
    → is_place c.0 c.1 ≡ true
kept p found c true h rest k = subst (λ d. is_place d.0 d.1 ≡ true) (some-injective p.1 c k) h
kept p found c false h rest k = rest k

centroid-place :
    (code : Bytes) (ps : List Place) (c : ℤ × ℤ)
    → all (λ (p : Place). is_place p.1.0 p.1.1) ps ≡ true
    → centroid code ps ≡ some c
    → is_place c.0 c.1 ≡ true
unfolding centroid
centroid-place code [] c h k = cc
centroid-place code (p ∷ ps) c h k =
    let (a, b) = &&-true (is_place p.1.0 p.1.1) (all (λ (q : Place). is_place q.1.0 q.1.1) ps) h in
    kept p (centroid code ps) c (eq_bytes p.0 code) a (centroid-place code ps c b) k

abbrev OnGlobe : RelayInfo → Type 0
OnGlobe r = is_place r.latitude r.longitude ≡ true

unlocated-place : (parts : Bytes × Bytes) (code : Bytes) → OnGlobe (unlocated parts code)
unfolding within is_place
unlocated-place parts code = refl

located-place : (parts : Bytes × Bytes) (code : Bytes) → OnGlobe (located parts code)
located-place parts code =
    go (centroid code country_centroids) (λ c. centroid-place code country_centroids c table_places)
  where
    go :
        (o : Option (ℤ × ℤ))
        → ((c : ℤ × ℤ) → o ≡ some c → is_place c.0 c.1 ≡ true)
        → OnGlobe (elim o [
          | none ↦ unlocated parts code
          | some c ↦ record (unlocated parts code) { latitude = c.0; longitude = c.1 }
        ])
    go none h = unlocated-place parts code
    go (some c) h = h c refl

country-place :
    (parts : Bytes × Bytes) (r : Result ControlError Bytes) → OnGlobe (with_country parts r).0
unfolding with_country
country-place parts (err e) = unlocated-place parts []
country-place parts (ok code) = located-place parts code

address-place :
    (parts : Bytes × Bytes) (r : Result ControlError Bytes) (f : Bytes → Result ControlError Bytes)
    → OnGlobe (with_address parts r f).0
unfolding with_address
address-place parts (err e) f = unlocated-place parts []
address-place parts (ok ip) f = country-place parts (f ip)

-- Whatever Tor answers, ResolveRelay gives a place on the globe: a latitude of at most 90 degrees and
-- a longitude of at most 180, to the north or south, east or west.
pub resolve_relay-place :
    (entry : Bytes) (w₁ w₂ : Wire)
    → is_place (resolve_relay entry w₁ w₂).0.latitude (resolve_relay entry w₁ w₂).0.longitude ≡ true
unfolding resolve_relay
resolve_relay-place entry w₁ w₂ =
    let parts = parse_relay_path entry in
    address-place parts (get_relay_address parts.0 w₁) (λ ip. get_relay_country ip w₂)
