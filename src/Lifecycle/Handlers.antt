-- ===== src/Lifecycle/Handlers.antt =====
-- controller/internal/lifecycle/lifecycle.go: the handler of each phase and the loop of `Run`.
-- `World` holds what the outside answers during one turn of the loop.
use torvmremix.Base.{
  ℤ, ℕ, ◌+◌, Bool, true, false, not, ◌||◌, ◌&&◌, Option, none, some, List, [], ◌∷◌, ◌++◌, Result,
  ok, err, ◌==◌, if◌then◌else◌, Bytes, bytes, quote, decimal,
}
use torvmremix.Config.Schema.{Os, is_windows}
use torvmremix.Config.Address.{parse_ip_ok}
use torvmremix.Lifecycle.State.{
  State, init, check_privileges, save_network, create_tap, launch_vm, wait_tap, configure_tap,
  flush_dns, wait_bootstrap, running, shutdown, restore_network, cleanup, failed, put_attempts,
}
use torvmremix.Lifecycle.Retry.{GoError, message, should_retry}
use torvmremix.Lifecycle.Engine.{
  SavedConfig, saves_config, creates_tap, starts_vm, sets_up_routing, flushes_dns, opens_control,
  closes_control, stops_vm, tears_down_routing, destroys_tap, restores_config, Engine, call,
  transition, activate, deactivate,
}
use torvmremix.Lifecycle.Waits.{
  Round, BootRound, wait_for_tap, wait_for_bootstrap, tap_timeout, boot_timeout,
}

pub record World : Type 0 where
  pub ctx_done : Bool  -- ctx.Err() != nil at the head of the loop
  pub os : Os
  pub uid : ℕ
  pub save : Result GoError SavedConfig
  pub tap_err : Option GoError
  pub start_err : Option GoError
  pub tap_rounds : ℕ → Round
  pub routing_err : Option GoError
  pub flush_err : Option GoError
  pub connect_err : Option GoError
  pub auth_err : Option GoError
  pub boot_rounds : ℕ → BootRound
  pub wait_err : Option GoError  -- what VM.Wait returns
  pub ctx_done_after_wait : Bool
  pub vm_running : Bool
  pub stop_err : Option GoError
  pub teardown_err : Option GoError
  pub restore_err : Option GoError
  pub rand : ℕ
  pub beyond : ℤ
  pub ctx_done_in_delay : Bool  -- the select after an error takes ctx.Done()

-- How a handler leaves the engine: `Run` returns, or the handler has an error or not.
pub data Handled : Type 0 where
  returns : Engine → Option GoError → Handled
  done : Engine → Option GoError → Handled

abbrev pub fails : Engine → GoError → Handled
fails e x = done e (some x)

abbrev pub moves : Engine → State → Handled
moves e next = done (transition e next) none

-- `if err != nil { return err }`, then a transition.
abbrev pub unless_err : Option GoError → Engine → State → Handled
unless_err (some x) e next = fails e x
unless_err none e next = moves e next

unfoldable pub privileges_err : Os → ℕ → Option GoError
privileges_err os uid =
    if is_windows os || uid == 0
    then none
    else some (message (bytes "must run as root (current uid=" ++ decimal uid ++ bytes ")"))

abbrev pub invalid_ip : Bytes → Bytes → GoError
invalid_ip field value = message (bytes "invalid " ++ field ++ bytes ": " ++ quote value)

do_save_network : Engine → World → Handled
do_save_network e w = elim w.save [
  | err x ↦ fails (call saves_config e) x
  | ok s ↦ moves (record e { saved_net = some s; log = saves_config ∷ e.log }) create_tap
]

do_create_tap : Engine → World → Handled
do_create_tap e w =
    if not (parse_ip_ok e.config.host_ip)
    then fails e (invalid_ip (bytes "HostIP") e.config.host_ip)
    else if not (parse_ip_ok e.config.vm_ip)
    then fails e (invalid_ip (bytes "VMIP") e.config.vm_ip)
    else if not (parse_ip_ok e.config.subnet_mask)
    then fails e (invalid_ip (bytes "SubnetMask") e.config.subnet_mask)
    else unless_err w.tap_err (call creates_tap e) launch_vm

do_launch_vm : Engine → World → Handled
do_launch_vm e w = unless_err w.start_err (call starts_vm e) wait_tap

do_wait_tap : Engine → World → Handled
do_wait_tap e w = elim (wait_for_tap 11 w.tap_rounds) [
  | none ↦ fails e tap_timeout
  | some r ↦ unless_err r e configure_tap
]

do_configure_tap : Engine → World → Handled
do_configure_tap e w =
    if not (parse_ip_ok e.config.vm_ip)
    then fails e (invalid_ip (bytes "VMIP") e.config.vm_ip)
    else unless_err w.routing_err (call sets_up_routing e) flush_dns

-- An error of FlushDNS is only logged, and so is one of the control connection.
unfoldable pub connect_control : Engine → World → Engine
connect_control e w = elim w.connect_err [
  | some x ↦ e
  | none ↦ elim w.auth_err [
    | some x ↦ record e { log = closes_control ∷ opens_control ∷ e.log }
    | none ↦ record e { tor_control = true; log = opens_control ∷ e.log }
  ]
]

do_flush_dns : Engine → World → Handled
do_flush_dns e w = moves (connect_control (call flushes_dns e) w) wait_bootstrap

do_wait_bootstrap : Engine → World → Handled
do_wait_bootstrap e w = elim (wait_for_bootstrap 34 e.tor_control w.boot_rounds) [
  | none ↦ fails e boot_timeout
  | some r ↦ unless_err r e running
]

abbrev pub is_some {ℓ} : {A : Type ℓ} → Option A → Bool
is_some none = false
is_some (some a) = true

do_running : Engine → World → Handled
do_running e w =
    let e' = deactivate e in
    moves (if is_some w.wait_err && not w.ctx_done_after_wait then activate e' else e') shutdown

unfoldable pub close_control : Engine → Engine
close_control e =
    if e.tor_control then record e { tor_control = false; log = closes_control ∷ e.log } else e

-- An error of VM.Stop is only logged.
do_shutdown : Engine → World → Handled
do_shutdown e w =
    let e' = close_control e in
    moves (if w.vm_running then call stops_vm e' else e') restore_network

unfoldable pub restore_saved : Option SavedConfig → Engine → Engine
restore_saved none e = e
restore_saved (some s) e = call (restores_config s) e

-- An error of RestoreConfig or DestroyTAP is only logged.
do_restore_network : Engine → World → Handled
do_restore_network e w =
    let e' = call tears_down_routing e in
    let e'' = if is_some w.teardown_err then activate e' else e' in
    moves (call destroys_tap (restore_saved e.saved_net e'')) cleanup

do_cleanup : Engine → Handled
do_cleanup e = returns (deactivate e) none

-- The `switch` of Run.
unfoldable pub handle : State → Engine → World → Handled
unfolding do_save_network do_create_tap do_launch_vm do_wait_tap do_configure_tap connect_control
    do_flush_dns do_wait_bootstrap do_running close_control do_shutdown restore_saved
    do_restore_network do_cleanup
handle init e w = moves e check_privileges
handle check_privileges e w = elim (privileges_err w.os w.uid) [
  | some x ↦ returns e (some x)
  | none ↦ moves e save_network
]
handle save_network e w = do_save_network e w
handle create_tap e w = do_create_tap e w
handle launch_vm e w = do_launch_vm e w
handle wait_tap e w = do_wait_tap e w
handle configure_tap e w = do_configure_tap e w
handle flush_dns e w = do_flush_dns e w
handle wait_bootstrap e w = do_wait_bootstrap e w
handle running e w = do_running e w
handle shutdown e w = do_shutdown e w
handle restore_network e w = do_restore_network e w
handle cleanup e w = do_cleanup e
handle failed e w = returns e (some (message (bytes "lifecycle: entered failed state")))

-- What Run does with a handler's error.
unfoldable pub on_error : Engine → GoError → World → Engine
on_error e x w =
    let retry =
      (should_retry e.state (some x) (e.attempts e.state) (e.retry_policy e.state) w.rand
        w.beyond).0 in
    let e' = record e { attempts = put_attempts e.attempts e.state (e.attempts e.state + 1) } in
    if retry
    then (if w.ctx_done_in_delay then transition e' shutdown else e')
    else transition (activate e) shutdown

pub data Outcome : Type 0 where
  continues : Engine → Outcome
  returned : Engine → Option GoError → Outcome

unfoldable pub after : Handled → World → Outcome
after (returns e r) w = returned e r
after (done e none) w = continues e
after (done e (some x)) w = continues (on_error e x w)

-- The head of the loop.
unfoldable pub enter : Engine → World → Engine
enter e w = if w.ctx_done then transition e shutdown else e

-- One turn of the loop.
unfoldable pub iterate : Engine → World → Outcome
unfolding after
iterate e w = after (handle (enter e w).state (enter e w) w) w

abbrev pub resume : Outcome → (Engine → Outcome) → Outcome
resume (continues e) f = f e
resume (returned e r) f = returned e r

-- As many turns as the environment gives answers for.
unfoldable pub run : Engine → List World → Outcome
run e [] = continues e
run e (w ∷ ws) = resume (iterate e w) (λ e'. run e' ws)
