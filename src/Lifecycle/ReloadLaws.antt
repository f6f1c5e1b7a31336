-- ===== src/Lifecycle/ReloadLaws.antt =====
-- What comes of a relay that is blocked in the window (controller/gui/circuits_tab.go) and reloaded with
-- ReloadConfig (controller/internal/lifecycle/lifecycle.go).
use torvmremix.Base.{
  ℕ, ◌≡◌, refl, ap, sym, subst, ◌∙◌, Bool, true, false, List, [], ◌∷◌, ◌++◌, ok, Bytes,
  if◌then◌else◌, arith, ==_iff, one_of, eq_bytes_refl,
}
use torvmremix.Config.Schema.{Config}
use torvmremix.Config.Deep.{bool_deep}
use torvmremix.Config.Diff.{has_changes, diff}
use torvmremix.Config.DiffLaws.{diff-persisted}
use torvmremix.Lifecycle.State.{running, same_state}
use torvmremix.Lifecycle.Reload.{
  Heap, Live, Link, reload_config, Window, with_dollar, exclude, put_config, reload_if_running,
  block_relay,
}

diff_self : (c : Config) → has_changes (diff c c) ≡ false
diff_self c = (diff-persisted c c).1 refl

if-false : {A : Type 0} (b : Bool) (x y : A) → b ≡ false → (if b then x else y) ≡ y
if-false true x y h = cc
if-false false x y h = refl

reload_self :
    (heap : Heap) (live : Live) (cfg : ℕ) (link : Link)
    → cfg ≡ live.config
    → reload_if_running heap live cfg link ≡ (heap, (live, []))
unfolding reload_if_running reload_config
reload_self heap live cfg link h = go (same_state live.state running)
  where
    unchanged : has_changes (diff (heap live.config) (heap cfg)) ≡ false
    unchanged = rw h (diff_self (heap live.config))

    alone : reload_config heap live cfg link ≡ (live, ([], ok tt))
    alone = if-false (has_changes (diff (heap live.config) (heap cfg))) _ _ unchanged

    go :
        (b : Bool)
        → ◌≡◌ {A = Window}
            (if b
              then (
                heap,
                ((reload_config heap live cfg link).0, (reload_config heap live cfg link).1.0),
              )
              else (heap, (live, [])))
            (heap, (live, []))
    go true = rw alone refl
    go false = refl

one_of-last : (v : Bytes) (xs : List Bytes) → one_of v (xs ++ (v ∷ [])) ≡ true
one_of-last v [] = rw (eq_bytes_refl v) refl
one_of-last v (x ∷ xs) = ground (arith, one_of-last v xs)

-- When the window and the engine share one configuration, as main makes them, a relay that is
-- blocked in the window stands in its ExcludeNodes, but nothing is sent to Tor, whatever state it is in.
pub block_relay-unsent :
    (heap : Heap) (live : Live) (cfg : ℕ) (fingerprint : Bytes) (link : Link)
    → cfg ≡ live.config
    → let (heap', (live', sent)) = block_relay heap live cfg fingerprint link in
      (one_of (with_dollar fingerprint) (heap' cfg).relays.exclude_nodes ≡ true)
      × (live' ≡ live)
      × (sent ≡ [])
unfolding block_relay
block_relay-unsent heap live cfg fingerprint link h =
    go (one_of fp (heap cfg).relays.exclude_nodes) refl
  where
    fp : Bytes
    fp = with_dollar fingerprint

    heap₁ : Heap
    heap₁ = put_config cfg (exclude fp (heap cfg)) heap

    Unsent : Window → Type 0
    Unsent w = (one_of fp (w.0 cfg).relays.exclude_nodes ≡ true) × (w.1.0 ≡ live) × (w.1.1 ≡ [])

    put : (heap₁ cfg).relays.exclude_nodes ≡ (heap cfg).relays.exclude_nodes ++ (fp ∷ [])
    put = rw ((==_iff cfg cfg).1 refl) refl

    go :
        (b : Bool)
        → one_of fp (heap cfg).relays.exclude_nodes ≡ b
        → Unsent (if b then (heap, (live, [])) else reload_if_running heap₁ live cfg link)
    go true k = (k, refl, refl)
    go false k =
        subst Unsent (sym (reload_self heap₁ live cfg link h))
          (ap (one_of fp) put ∙ one_of-last fp (heap cfg).relays.exclude_nodes, refl, refl)
