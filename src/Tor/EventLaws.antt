-- ===== src/Tor/EventLaws.antt =====
-- What the readers of controller/internal/tor/bootstrap.go and bandwidth.go accept.
use mathlib.Core.Option
use torvmremix.Base.{
  Result, ◌>>=◌, ℕ, ◌≡◌, refl, sym, Bool, true, false, Option, none, some, [], ◌∷◌, ◌++◌, ok, err,
  >>=-ok, Bytes, bytes, has_prefix, after_first, up_to_byte, split_at_byte, ◌==◌, if◌then◌else◌,
  arith, Free, has_prefix_sound, subst,
}
use torvmremix.Tor.Events.{
  EventError, no_progress, number, BootstrapStatus, value_after, parse_bootstrap_status,
  parse_bandwidth_event,
}

up_to_byte-Free : (c : ℕ) (s : Bytes) → Free c (up_to_byte c s)
unfolding split_at_byte
up_to_byte-Free c [] = tt
up_to_byte-Free c (a ∷ s) = go (a == c) refl (split_at_byte c s) (up_to_byte-Free c s)
  where
    cut : Bool → Option (Bytes × Bytes) → Option (Bytes × Bytes)
    cut b r = if b then some ([], s) else Option.map (λ (p : Bytes × Bytes). (a ∷ p.0, p.1)) r

    go :
        (b : Bool)
        → a == c ≡ b
        → (r : Option (Bytes × Bytes)) → Free c (elim r as (λ _. Bytes) [ none ↦ s | some p ↦ p.0 ])
        → Free c (elim (cut b r) as (λ _. Bytes) [ none ↦ a ∷ s | some p ↦ p.0 ])
    go true q r h = tt
    go false q none h = (ground (arith, q), h)
    go false q (some p) h = (ground (arith, q), h)

value_after-Free : (key : Bytes) (c : ℕ) (line : Bytes) → Free c (value_after key c line)
unfolding value_after
value_after-Free key c line = go (after_first line key)
  where
    go : (r : Option Bytes) → Free c (elim r [ none ↦ [] | some s ↦ up_to_byte c s ])
    go none = tt
    go (some s) = up_to_byte-Free c s

-- A bootstrap status that is read has a tag without a space and a summary without a quote, whatever
-- the line holds.
pub parse_bootstrap_status-Free :
    (line : Bytes) (status : BootstrapStatus)
    → parse_bootstrap_status line ≡ ok status
    → Free 32 status.tag × Free 34 status.summary
unfolding parse_bootstrap_status
parse_bootstrap_status-Free line status h = go (after_first line (bytes "PROGRESS=")) h
  where
    rest : Option Bytes → Result EventError BootstrapStatus
    rest r = elim r [
      | none ↦ err no_progress
      | some s ↦ number (up_to_byte 32 s) >>= λ n. ok (record {
        progress = n;
        tag = value_after (bytes "TAG=") 32 line;
        summary = value_after (bytes "SUMMARY=\"") 34 line;
      })
    ]

    go : (r : Option Bytes) → rest r ≡ ok status → Free 32 status.tag × Free 34 status.summary
    go none k = absurd (cc)
    go (some s) k =
        let (n, e, q) = >>=-ok (number (up_to_byte 32 s)) _ k in
        subst
          (λ (x : Result EventError BootstrapStatus). elim x as (λ _. Type 0) [
            | ok st ↦ Free 32 st.tag × Free 34 st.summary
            | err w ↦ Unit {0}
          ])
          q (value_after-Free (bytes "TAG=") 32 line, value_after-Free (bytes "SUMMARY=\"") 34 line)

-- A text that begins with `BW` and a space is read in the same way with the code 650 in front of it,
-- in both of its forms, and without it.
pub parse_bandwidth_event-code :
    (s : Bytes)
    → has_prefix s (bytes "BW ") ≡ true
    → (parse_bandwidth_event (bytes "650 " ++ s) ≡ parse_bandwidth_event s)
      × (parse_bandwidth_event (bytes "650-" ++ s) ≡ parse_bandwidth_event s)
unfolding parse_bandwidth_event bytes has_prefix
parse_bandwidth_event-code s h =
    let (rest, e) = has_prefix_sound s (bytes "BW ") h in
    subst
      (λ t.
        (parse_bandwidth_event (bytes "650 " ++ t) ≡ parse_bandwidth_event t)
        × (parse_bandwidth_event (bytes "650-" ++ t) ≡ parse_bandwidth_event t))
      (sym e) (refl, refl)
