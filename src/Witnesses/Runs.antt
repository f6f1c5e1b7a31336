-- ===== src/Witnesses/Runs.antt =====
-- Concrete runs of the engine of controller/internal/lifecycle/lifecycle.go, with the default settings
-- and an environment that answers well.
use torvmremix.Metrics.Restarts.{Uncounted, run-Uncounted}
use torvmremix.Base.{
  negsuc, ◌+◌, ℕ, zero, suc, ◌≡◌, ◌≢◌, refl, true, false, Option, none, some, List, [], ◌∷◌, ◌++◌,
  ◌+◌, All, replicate, ok, err, bytes, contains, has_prefix, arith, ◌⊎◌,
}
use torvmremix.Config.Schema.{linux, Config, default_config}
use torvmremix.Config.Address.{parse_ip_ok}
use torvmremix.Lifecycle.State.{
  check_privileges, save_network, shutdown, restore_network, cleanup, failed,
}
use torvmremix.Lifecycle.Retry.{
  GoError, message, RetryPolicy, policy_of, classify_error, should_retry, default_retry_policy,
}
use torvmremix.Lifecycle.Engine.{
  SavedConfig, Engine, new_engine, transition, deactivate, activate, Call, moved, destroys_tap,
  tears_down_routing,
}
use torvmremix.Lifecycle.Waits.{
  Round, BootRound, wait_for_tap, wait_for_bootstrap, tap_round, boot_round, boot_timeout, poll,
  next_backoff,
}
use torvmremix.Lifecycle.Handlers.{
  World, Outcome, continues, returned, enter, iterate, run, handle, after, privileges_err, on_error,
}
use torvmremix.Lifecycle.Polling.{Ended, wait_for_bootstrap_total}
use torvmremix.Lifecycle.Invariant.{Ends}
use torvmremix.Lifecycle.Graph.{
  Next, Fallible, iterate_follows, iterate_returns, iterate_fails_closed,
}
use torvmremix.Lifecycle.Order.{InOrder, run-InOrder}
use torvmremix.Lifecycle.Ends.{run_ends}
use torvmremix.Lifecycle.Cancel.{undo_calls, cancelled_never_restores}
use torvmremix.Lifecycle.Exit.{restoring, clean_return}

abbrev settings : Config
settings = default_config linux

abbrev tap_answers : ℕ → Round
tap_answers n = record { ctx_err = none; vm_running = true; reachable = true; lag = 3 }

abbrev boot_answers : ℕ → BootRound
boot_answers n = record {
  ctx_err = none;
  vm_running = true;
  progress = some 100;
  reachable = true;
  lag = 3;
}

abbrev saved : SavedConfig
saved = record { content = []; platform = []; hmac = [] }

abbrev calm : World
calm = record {
  ctx_done = false;
  os = linux;
  uid = 0;
  save = ok saved;
  tap_err = none;
  start_err = none;
  tap_rounds = tap_answers;
  routing_err = none;
  flush_err = none;
  connect_err = none;
  auth_err = none;
  boot_rounds = boot_answers;
  wait_err = none;
  ctx_done_after_wait = false;
  vm_running = true;
  stop_err = none;
  teardown_err = none;
  restore_err = none;
  rand = 0;
  beyond = negsuc 9223372036854775807;
  ctx_done_in_delay = false;
}

abbrev cancelled : World
cancelled = record calm { ctx_done = true }

abbrev denied : World
denied = record calm { save = err (message (bytes "permission denied")) }

-- The engine that an outcome holds.
abbrev engine_of : Outcome → Engine
engine_of (continues e) = e
engine_of (returned e r) = e

abbrev saving : Engine
saving = record (new_engine settings) { state = save_network }

abbrev cleaning : Engine
cleaning = record (new_engine settings) { state = cleanup; failsafe = true }

cancelled_never_restores_example :
    (e' : Engine) × (run saving (cancelled ∷ cancelled ∷ []) ≡ continues e')
    × (e'.state ≡ restore_network)
    × (undo_calls e'.log ≡ undo_calls saving.log)
cancelled_never_restores_example =
    cancelled_never_restores saving cancelled (cancelled ∷ []) (refl, (refl, tt))

abbrev no_error : Option GoError
no_error = none

abbrev last_engine : Engine
last_engine = engine_of (run (new_engine settings) (replicate 13 calm))

clean_return_example :
    (last_engine.state ≡ cleanup)
    × (last_engine.failsafe ≡ false)
    × ((before : List Call) × (last_engine.log
          ≡ moved restore_network cleanup
            ∷ destroys_tap
            ∷ (restoring last_engine.saved_net ++ (tears_down_routing ∷ before))))
unfolding run iterate after enter handle new_engine transition deactivate default_config parse_ip_ok
    bytes wait_for_tap wait_for_bootstrap poll tap_round boot_round next_backoff privileges_err
clean_return_example = clean_return settings (replicate 13 calm) last_engine refl

all_calm : (n : ℕ) → All (λ (w : World). w.ctx_done ≡ false) (replicate n calm)
all_calm zero = tt
all_calm (suc n) = (refl, all_calm n)

run_ends_example :
    (e : Engine) × (r : Option GoError) × (run (new_engine settings) (replicate 56 calm)
      ≡ returned e r)
run_ends_example = run_ends settings (replicate 56 calm) (all_calm 56) (omega arith)

run-InOrder_example : Ends InOrder (run (new_engine settings) (replicate 9 calm))
run-InOrder_example = run-InOrder settings (replicate 9 calm)

run-Uncounted_example : Ends (Uncounted (λ log. 5)) (run (new_engine settings) (replicate 9 calm))
run-Uncounted_example = run-Uncounted (λ log. 5) settings (replicate 9 calm)

iterate_fails_closed_example : (engine_of (iterate saving denied)).failsafe ≡ true
unfolding iterate after enter handle on_error transition activate should_retry classify_error bytes
    contains has_prefix new_engine default_retry_policy
iterate_fails_closed_example =
    iterate_fails_closed saving denied (engine_of (iterate saving denied)) refl refl (cc) refl refl

iterate_follows_example :
    Next save_network (engine_of (iterate saving calm)).state
    ⊎ (Fallible save_network
        × (((engine_of (iterate saving calm)).state ≡ save_network)
            ⊎ ((engine_of (iterate saving calm)).state ≡ shutdown)))
unfolding iterate after enter handle transition new_engine
iterate_follows_example = iterate_follows saving calm (engine_of (iterate saving calm)) refl

iterate_returns_example :
    (cleaning.state ≡ cleanup) × (no_error ≡ none) × (deactivate cleaning ≡ deactivate cleaning)
    ⊎ (((cleaning.state ≡ check_privileges) ⊎ (cleaning.state ≡ failed))
        × (no_error ≢ none)
        × (deactivate cleaning ≡ cleaning))
unfolding iterate after enter handle
iterate_returns_example = iterate_returns cleaning calm (deactivate cleaning) none refl

wait_for_bootstrap_total_example :
    (r : Option GoError) × (wait_for_bootstrap 34 true boot_answers ≡ some r)
    × Ended 300000 boot_timeout
        (λ n. boot_round true (boot_answers n))
        (λ n. (boot_answers n).lag)
        r
        0
        0
        1000
wait_for_bootstrap_total_example = wait_for_bootstrap_total true boot_answers

abbrev policy : RetryPolicy
policy = policy_of 3 2 30 200

abbrev refused : Option GoError
refused = some (message (bytes "connection refused"))
