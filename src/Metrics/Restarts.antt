-- ===== src/Metrics/Restarts.antt =====
-- The counter of restarts of controller/internal/metrics/metrics.go, over the runs of the engine.
use torvmremix.Base.{
  ℕ, ◌≡◌, refl, Bool, true, false, not, List, [], ◌∷◌, all, arith, bytes, eq_bytes,
}
use torvmremix.Config.Schema.{Config}
use torvmremix.Lifecycle.State.{
  State, create_tap, launch_vm, shutdown, state_name, check_privileges, save_network, wait_tap,
  configure_tap, flush_dns, wait_bootstrap, running, restore_network, cleanup,
}
use torvmremix.Lifecycle.Engine.{
  Engine, Call, moved, new_engine, transition, activate, deactivate, saves_config, creates_tap,
  starts_vm, sets_up_routing, flushes_dns, opens_control, closes_control, stops_vm,
  tears_down_routing, destroys_tap, restores_config,
}
use torvmremix.Lifecycle.Handlers.{World, Handled, Outcome, continues, returned, run}
use torvmremix.Lifecycle.Turn
use torvmremix.Lifecycle.Turn.{Turn, Connects, Stops, Restores}
use torvmremix.Lifecycle.Invariant.{IsInvariant, Leaves, Ends, run_keeps}
use torvmremix.Metrics.Recorder.{Recorder, new_recorder, is_restart, record_transition}

-- What the recorder has after the calls of a log, whose latest call is first. `clock` gives the times.
unfoldable pub recorded : (List Call → ℕ) → List Call → Recorder
recorded clock [] = new_recorder
recorded clock (moved from to ∷ log) =
    record_transition (clock log) (state_name from) (state_name to) (recorded clock log)
recorded clock (c ∷ log) = recorded clock log

unfoldable is_calm : Call → Bool
is_calm (moved from to) = not (is_restart (state_name from) (state_name to))
is_calm _ = true

abbrev IsCalm : Engine → Type 0
IsCalm e = all is_calm e.log ≡ true

elsewhere :
    (from to : State)
    → eq_bytes (state_name to) (bytes "LaunchVM") ≡ false
    → is_calm (moved from to) ≡ true
unfolding is_calm is_restart
elsewhere from to h = rw h refl

moved-IsCalm :
    (t : State) (e : Engine)
    → eq_bytes (state_name t) (bytes "LaunchVM") ≡ false
    → all is_calm e.log ≡ true
    → IsCalm (transition e t)
unfolding transition
moved-IsCalm t e h d = rw (elsewhere e.state t h, d) refl

-- A call that is no transition.
plain : (c : Call) (e : Engine) → is_calm c ≡ true → IsCalm e → all is_calm (c ∷ e.log) ≡ true
plain c e h d = rw (h, d) refl

activate-IsCalm : (e : Engine) → IsCalm e → IsCalm (activate e)
unfolding activate is_calm
activate-IsCalm e d = ground arith

deactivate-IsCalm : (e : Engine) → IsCalm e → IsCalm (deactivate e)
unfolding deactivate
deactivate-IsCalm e d = d

Connects-IsCalm : {e e' : Engine} → Connects e e' → IsCalm e → IsCalm e'
unfolding is_calm
Connects-IsCalm Turn.unreachable d = d
Connects-IsCalm Turn.refused d = d
Connects-IsCalm Turn.connects d = d

Stops-IsCalm : {e e' : Engine} → Stops e e' → IsCalm e → IsCalm e'
unfolding is_calm
Stops-IsCalm Turn.idle d = d
Stops-IsCalm Turn.stops d = d

Restores-IsCalm : {e e' : Engine} → Restores e e' → IsCalm e → IsCalm e'
unfolding is_calm
Restores-IsCalm (Turn.nothing_saved h) d = d
Restores-IsCalm (Turn.restores c h) d = d

created-IsCalm : (e : Engine) → e.state ≡ create_tap → IsCalm e → IsCalm (transition e launch_vm)
unfolding transition is_calm is_restart state_name bytes eq_bytes
created-IsCalm e q d = rw (q, d) refl

IsCalm-turned :
    {s : State} {e : Engine} {h : Handled} → Turn s e h → e.state ≡ s → IsCalm e → Leaves IsCalm h
unfolding is_calm state_name bytes eq_bytes
IsCalm-turned Turn.starts q d = moved-IsCalm check_privileges _ refl d
IsCalm-turned (Turn.denied x) q d = d
IsCalm-turned Turn.allowed q d = moved-IsCalm save_network _ refl d
IsCalm-turned (Turn.not_saved x) q d = d
IsCalm-turned (Turn.saves s) q d = moved-IsCalm create_tap _ refl d
IsCalm-turned (Turn.bad_address x) q d = d
IsCalm-turned (Turn.not_created x) q d = d
IsCalm-turned Turn.creates q d = created-IsCalm _ q d
IsCalm-turned (Turn.not_launched x) q d = d
IsCalm-turned Turn.launches q d = moved-IsCalm wait_tap _ refl d
IsCalm-turned (Turn.no_tap x) q d = d
IsCalm-turned Turn.tap_appears q d = moved-IsCalm configure_tap _ refl d
IsCalm-turned (Turn.bad_gateway x) q d = d
IsCalm-turned (Turn.not_routed x) q d = d
IsCalm-turned Turn.routes q d = moved-IsCalm flush_dns _ refl d
IsCalm-turned (Turn.flushes c) q d = moved-IsCalm wait_bootstrap _ refl (Connects-IsCalm c d)
IsCalm-turned (Turn.no_bootstrap x) q d = d
IsCalm-turned Turn.bootstraps q d = moved-IsCalm running _ refl d
IsCalm-turned {e} Turn.vm_ends q d = moved-IsCalm shutdown _ refl (deactivate-IsCalm e d)
IsCalm-turned {e} Turn.vm_dies q d =
    moved-IsCalm shutdown _ refl (activate-IsCalm (deactivate e) (deactivate-IsCalm e d))
IsCalm-turned (Turn.stops_open t k) q d = moved-IsCalm restore_network _ refl (Stops-IsCalm k d)
IsCalm-turned (Turn.stops_closed t k) q d = moved-IsCalm restore_network _ refl (Stops-IsCalm k d)
IsCalm-turned (Turn.undoes k) q d = moved-IsCalm cleanup _ refl (Restores-IsCalm k d)
IsCalm-turned (Turn.undoes_blocked k) q d =
    moved-IsCalm cleanup _ refl (Restores-IsCalm k (activate-IsCalm _ d))
IsCalm-turned {e} Turn.cleans q d = deactivate-IsCalm e d
IsCalm-turned (Turn.dead x) q d = d

IsCalm-invariant : IsInvariant IsCalm
unfolding is_calm state_name bytes eq_bytes
IsCalm-invariant = record {
  stopped = λ e d. moved-IsCalm shutdown e refl d;
  blocked = λ e d. moved-IsCalm shutdown (activate e) refl (activate-IsCalm e d);
  counted = λ e m d. d;
  turned = IsCalm-turned;
}

calm-recorded :
    (clock : List Call → ℕ) (log : List Call)
    → all is_calm log ≡ true
    → (recorded clock log).restarts_total ≡ 0
unfolding recorded new_recorder record_transition is_calm
calm-recorded clock [] h = refl
calm-recorded clock (moved from to ∷ log) h = ground (arith, calm-recorded clock log, h)
calm-recorded clock (saves_config ∷ log) h = calm-recorded clock log h
calm-recorded clock (creates_tap ∷ log) h = calm-recorded clock log h
calm-recorded clock (starts_vm ∷ log) h = calm-recorded clock log h
calm-recorded clock (sets_up_routing ∷ log) h = calm-recorded clock log h
calm-recorded clock (flushes_dns ∷ log) h = calm-recorded clock log h
calm-recorded clock (opens_control ∷ log) h = calm-recorded clock log h
calm-recorded clock (closes_control ∷ log) h = calm-recorded clock log h
calm-recorded clock (stops_vm ∷ log) h = calm-recorded clock log h
calm-recorded clock (tears_down_routing ∷ log) h = calm-recorded clock log h
calm-recorded clock (destroys_tap ∷ log) h = calm-recorded clock log h
calm-recorded clock (restores_config s ∷ log) h = calm-recorded clock log h

-- The recorder that is told the transitions of the engine counts no restart.
abbrev pub Uncounted : (List Call → ℕ) → Engine → Type 0
Uncounted clock e = (recorded clock e.log).restarts_total ≡ 0

uncounted : (clock : List Call → ℕ) (o : Outcome) → Ends IsCalm o → Ends (Uncounted clock) o
uncounted clock (continues e) d = calm-recorded clock e.log d
uncounted clock (returned e r) d = calm-recorded clock e.log d

-- However many turns a new engine takes, whatever the environment answers and whatever the times
-- are, the recorder that is told its transitions has counted no restart.
pub run-Uncounted :
    (clock : List Call → ℕ) (c : Config) (ws : List World)
    → Ends (Uncounted clock) (run (new_engine c) ws)
unfolding new_engine
run-Uncounted clock c ws =
    uncounted clock _ (run_keeps IsCalm IsCalm-invariant (new_engine c) ws refl)
