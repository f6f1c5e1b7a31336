-- ===== src/Lifecycle/Graph.antt =====
-- The moves between the phases that the engine of controller/internal/lifecycle can make. README.md
-- draws fewer and other ones: in its diagram a failed check of the privileges leads to the shutdown,
-- where the code returns; it has no arrow from ConfigureTAP to Shutdown, and no retries.
use torvmremix.Base.{◌+◌, ◌≡◌, refl, true, false, ◌≢◌, ◌⊎◌, inl, inr, Option, none, some, arith}
use torvmremix.Lifecycle.State.{
  State, init, check_privileges, save_network, create_tap, launch_vm, wait_tap, configure_tap,
  flush_dns, wait_bootstrap, running, shutdown, restore_network, cleanup, failed, put_attempts,
}
use torvmremix.Lifecycle.Retry.{GoError, should_retry}
use torvmremix.Lifecycle.Engine.{Engine, transition, activate, deactivate}
use torvmremix.Lifecycle.Handlers.{
  World, Handled, returns, done, continues, returned, on_error, enter, iterate,
}
use torvmremix.Lifecycle.Turn.{
  Turn, starts, denied, allowed, not_saved, saves, bad_address, not_created, creates, not_launched,
  launches, no_tap, tap_appears, bad_gateway, not_routed, routes, flushes, no_bootstrap, bootstraps,
  vm_ends, vm_dies, stops_open, stops_closed, undoes, undoes_blocked, cleans, dead,
}
use torvmremix.Lifecycle.Invariant.{
  Continues, by_success, by_error, iterate-Continues, iterate-returned,
}

-- The arrows of a phase that succeeds.
pub data Next : State → State → Type 0 where
  start : Next init check_privileges
  privileged : Next check_privileges save_network
  saved : Next save_network create_tap
  created : Next create_tap launch_vm
  launched : Next launch_vm wait_tap
  appeared : Next wait_tap configure_tap
  routed : Next configure_tap flush_dns
  flushed : Next flush_dns wait_bootstrap
  bootstrapped : Next wait_bootstrap running
  ended : Next running shutdown
  stopped : Next shutdown restore_network
  restored : Next restore_network cleanup

-- The phases of which an error does not end `Run`.
pub data Fallible : State → Type 0 where
  in_save : Fallible save_network
  in_create : Fallible create_tap
  in_launch : Fallible launch_vm
  in_wait_tap : Fallible wait_tap
  in_configure : Fallible configure_tap
  in_bootstrap : Fallible wait_bootstrap

-- What a handler may do that is entered in phase `s`. One that fails leaves alone what the retry
-- goes by.
pub record IsFailure (s : State) (e e' : Engine) : Type 0 where
  pub fallible : Fallible s
  pub same_phase : e'.state ≡ e.state
  pub same_attempts : e'.attempts ≡ e.attempts
  pub same_policy : e'.retry_policy ≡ e.retry_policy
  pub same_failsafe : e'.failsafe ≡ e.failsafe

abbrev pub Follows : State → Engine → Handled → Type 0
Follows s e (returns e' r) =
    (s ≡ cleanup) × (r ≡ none) × (e' ≡ deactivate e)
    ⊎ (((s ≡ check_privileges) ⊎ (s ≡ failed)) × (r ≢ none) × (e' ≡ e))
Follows s e (done e' none) = Next s e'.state
Follows s e (done e' (some x)) = IsFailure s e e'

failing :
    (s : State) (e e' : Engine)
    → Fallible s
    → e'.state ≡ e.state
    → e'.attempts ≡ e.attempts
    → e'.retry_policy ≡ e.retry_policy
    → e'.failsafe ≡ e.failsafe
    → IsFailure s e e'
failing s e e' f a b c d = record {
  fallible = f;
  same_phase = a;
  same_attempts = b;
  same_policy = c;
  same_failsafe = d;
}

pub Turn-Follows : {s : State} {e : Engine} {h : Handled} → Turn s e h → Follows s e h
unfolding transition
Turn-Follows starts = start
Turn-Follows (denied x) = inr (inl refl, (λ h. cc), refl)
Turn-Follows allowed = privileged
Turn-Follows {s} {e} (not_saved x) = failing s e _ in_save refl refl refl refl
Turn-Follows (saves s) = saved
Turn-Follows {s} {e} (bad_address x) = failing s e _ in_create refl refl refl refl
Turn-Follows {s} {e} (not_created x) = failing s e _ in_create refl refl refl refl
Turn-Follows creates = created
Turn-Follows {s} {e} (not_launched x) = failing s e _ in_launch refl refl refl refl
Turn-Follows launches = launched
Turn-Follows {s} {e} (no_tap x) = failing s e _ in_wait_tap refl refl refl refl
Turn-Follows tap_appears = appeared
Turn-Follows {s} {e} (bad_gateway x) = failing s e _ in_configure refl refl refl refl
Turn-Follows {s} {e} (not_routed x) = failing s e _ in_configure refl refl refl refl
Turn-Follows routes = routed
Turn-Follows (flushes c) = flushed
Turn-Follows {s} {e} (no_bootstrap x) = failing s e _ in_bootstrap refl refl refl refl
Turn-Follows bootstraps = bootstrapped
Turn-Follows vm_ends = ended
Turn-Follows vm_dies = ended
Turn-Follows (stops_open h k) = stopped
Turn-Follows (stops_closed h k) = stopped
Turn-Follows (undoes h) = restored
Turn-Follows (undoes_blocked h) = restored
Turn-Follows cleans = inl (refl, refl, refl)
Turn-Follows (dead x) = inr (inr refl, (λ h. cc), refl)

-- An error of a handler has one of three ends. If another attempt is allowed and its delay passes,
-- the engine changes in nothing but one more attempt counted for its phase. If the context ends the
-- delay, the engine goes to the shutdown. If no attempt is allowed, it goes to the shutdown with
-- the failsafe active.
pub on_error_cases :
    (e : Engine) (x : GoError) (w : World)
    → let e' = on_error e x w in
      let retry =
        (should_retry e.state
          (some x)
          (e.attempts e.state)
          (e.retry_policy e.state)
          w.rand
          w.beyond).0 in
      ((retry ≡ true)
        × (w.ctx_done_in_delay ≡ false)
        × (e' ≡ record e { attempts = put_attempts e.attempts e.state (e.attempts e.state + 1) }))
      ⊎ (((retry ≡ true) × (w.ctx_done_in_delay ≡ true) × (e'.state ≡ shutdown))
          ⊎ ((retry ≡ false) × (e'.state ≡ shutdown) × (e'.failsafe ≡ true)))
unfolding on_error transition activate
on_error_cases e x w = ground arith

-- One turn of the loop of `Run` that goes on makes a move of `Next`, the arrows of the phases that
-- succeed, or handles an error: then the phase is one of those of `Fallible`, among them ConfigureTAP
-- but not CheckPrivileges, and is kept for another attempt or left for the shutdown. A context that is
-- done makes the move start at the shutdown.
pub iterate_follows :
    (e : Engine) (w : World) (e' : Engine)
    → iterate e w ≡ continues e'
    → let s = (enter e w).state in
      Next s e'.state ⊎ (Fallible s × ((e'.state ≡ s) ⊎ (e'.state ≡ shutdown)))
iterate_follows e w e' h = go (enter e w) (iterate-Continues e w e' h)
  where
    go :
        (e₀ : Engine)
        → Continues e₀ w e'
        → Next e₀.state e'.state
          ⊎ (Fallible e₀.state × ((e'.state ≡ e₀.state) ⊎ (e'.state ≡ shutdown)))
    go e₀ (by_success t) = inl (Turn-Follows t)
    go e₀ (by_error f x t eq) =
        let i = Turn-Follows t in
        inr (i.fallible, ground (arith, on_error_cases f x w, i.same_phase))

-- `Run` returns without an error only from the cleanup, and with one only from the check of the
-- privileges or the failed state. The cleanup switches the failsafe off; a return with an error leaves
-- the engine as it is, without the shutdown and without activating the failsafe.
pub iterate_returns :
    (e : Engine) (w : World) (e' : Engine) (r : Option GoError)
    → iterate e w ≡ returned e' r
    → let e₀ = enter e w in
      (e₀.state ≡ cleanup) × (r ≡ none) × (e' ≡ deactivate e₀)
      ⊎ (((e₀.state ≡ check_privileges) ⊎ (e₀.state ≡ failed)) × (r ≢ none) × (e' ≡ e₀))
iterate_returns e w e' r h = Turn-Follows (iterate-returned e w e' r h)

-- Fail closed: when the context is done neither at the head of the turn nor in the delay before
-- another attempt, a turn that leads to the shutdown from any phase but `running` leaves the
-- failsafe active.
pub iterate_fails_closed :
    (e : Engine) (w : World) (e' : Engine)
    → w.ctx_done ≡ false
    → w.ctx_done_in_delay ≡ false
    → e.state ≢ running
    → iterate e w ≡ continues e'
    → e'.state ≡ shutdown
    → e'.failsafe ≡ true
unfolding enter
iterate_fails_closed e w e' a b n h k = go e (ground arith) n (iterate-Continues e w e' h)
  where
    unended : (s t : State) → Next s t → t ≡ shutdown → s ≢ running → ⊥
    unended s t ended q m = m refl
    unended s t start q m = cc
    unended s t privileged q m = cc
    unended s t saved q m = cc
    unended s t created q m = cc
    unended s t launched q m = cc
    unended s t appeared q m = cc
    unended s t routed q m = cc
    unended s t flushed q m = cc
    unended s t bootstrapped q m = cc
    unended s t stopped q m = cc
    unended s t restored q m = cc

    in_place : (s : State) → Fallible s → s ≡ shutdown → ⊥
    in_place s in_save q = cc
    in_place s in_create q = cc
    in_place s in_launch q = cc
    in_place s in_wait_tap q = cc
    in_place s in_configure q = cc
    in_place s in_bootstrap q = cc

    go :
        (e₀ : Engine)
        → enter e w ≡ e₀
        → e₀.state ≢ running
        → Continues (enter e w) w e'
        → e'.failsafe ≡ true
    go e₀ q m (by_success t) = absurd (unended _ _ (Turn-Follows t) k (λ z. m (ground arith)))
    go e₀ q m (by_error f x t eq) =
        let i = Turn-Follows t in
        ground (arith, on_error_cases f x w, i.same_phase, in_place _ i.fallible)
