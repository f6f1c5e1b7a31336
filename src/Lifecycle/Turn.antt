-- ===== src/Lifecycle/Turn.antt =====
-- controller/internal/lifecycle/lifecycle.go: what each handler can do, as a relation. The
-- invariants of the engine are proved by cases on it.
use torvmremix.Base.{
  ◌≡◌, refl, Bool, true, false, not, Option, none, some, ◌∷◌, Result, ok, err, ◌&&◌, if◌then◌else◌,
  arith,
}
use torvmremix.Config.Address.{parse_ip_ok}
use torvmremix.Lifecycle.State.{
  State, init, check_privileges, save_network, create_tap, launch_vm, wait_tap, configure_tap,
  flush_dns, wait_bootstrap, running, shutdown, restore_network, cleanup, failed,
}
use torvmremix.Lifecycle.Retry.{GoError}
use torvmremix.Lifecycle.Waits.{wait_for_tap, wait_for_bootstrap, tap_timeout, boot_timeout}
use torvmremix.Lifecycle.Engine.{
  SavedConfig, saves_config, creates_tap, starts_vm, sets_up_routing, flushes_dns, opens_control,
  closes_control, stops_vm, tears_down_routing, destroys_tap, restores_config, Engine, call,
  activate, deactivate,
}
use torvmremix.Lifecycle.Handlers.{
  World, Handled, returns, fails, moves, unless_err, is_some, privileges_err, handle,
  connect_control, restore_saved,
}

-- The calls by which a phase that waits for something leaves the engine as it was, or connects it.
pub data Connects (e : Engine) : Engine → Type 0 where
  unreachable : Connects e e
  refused : Connects e (record e { log = closes_control ∷ opens_control ∷ e.log })
  connects : Connects e (record e { tor_control = true; log = opens_control ∷ e.log })

pub data Stops (e : Engine) : Engine → Type 0 where
  idle : Stops e e
  stops : Stops e (call stops_vm e)

pub data Restores (e : Engine) : Engine → Type 0 where
  nothing_saved : e.saved_net ≡ none → Restores e e
  restores : (s : SavedConfig) → e.saved_net ≡ some s → Restores e (call (restores_config s) e)

pub data Turn : State → Engine → Handled → Type 0 where
  starts : {e : Engine} → Turn init e (moves e check_privileges)
  denied : {e : Engine} (x : GoError) → Turn check_privileges e (returns e (some x))
  allowed : {e : Engine} → Turn check_privileges e (moves e save_network)
  not_saved : {e : Engine} (x : GoError) → Turn save_network e (fails (call saves_config e) x)
  saves :
      {e : Engine} (s : SavedConfig)
      → Turn save_network e
          (moves (record e { saved_net = some s; log = saves_config ∷ e.log }) create_tap)
  bad_address : {e : Engine} (x : GoError) → Turn create_tap e (fails e x)
  not_created : {e : Engine} (x : GoError) → Turn create_tap e (fails (call creates_tap e) x)
  creates : {e : Engine} → Turn create_tap e (moves (call creates_tap e) launch_vm)
  not_launched : {e : Engine} (x : GoError) → Turn launch_vm e (fails (call starts_vm e) x)
  launches : {e : Engine} → Turn launch_vm e (moves (call starts_vm e) wait_tap)
  no_tap : {e : Engine} (x : GoError) → Turn wait_tap e (fails e x)
  tap_appears : {e : Engine} → Turn wait_tap e (moves e configure_tap)
  bad_gateway : {e : Engine} (x : GoError) → Turn configure_tap e (fails e x)
  not_routed : {e : Engine} (x : GoError) → Turn configure_tap e (fails (call sets_up_routing e) x)
  routes : {e : Engine} → Turn configure_tap e (moves (call sets_up_routing e) flush_dns)
  flushes :
      {e e' : Engine}
      → Connects (call flushes_dns e) e'
      → Turn flush_dns e (moves e' wait_bootstrap)
  no_bootstrap : {e : Engine} (x : GoError) → Turn wait_bootstrap e (fails e x)
  bootstraps : {e : Engine} → Turn wait_bootstrap e (moves e running)
  vm_ends : {e : Engine} → Turn running e (moves (deactivate e) shutdown)
  vm_dies : {e : Engine} → Turn running e (moves (activate (deactivate e)) shutdown)
  stops_open :
      {e e' : Engine}
      → e.tor_control ≡ true
      → Stops (record e { tor_control = false; log = closes_control ∷ e.log }) e'
      → Turn shutdown e (moves e' restore_network)
  stops_closed :
      {e e' : Engine}
      → e.tor_control ≡ false
      → Stops e e'
      → Turn shutdown e (moves e' restore_network)
  undoes :
      {e e' : Engine}
      → Restores (call tears_down_routing e) e'
      → Turn restore_network e (moves (call destroys_tap e') cleanup)
  undoes_blocked :
      {e e' : Engine}
      → Restores (activate (call tears_down_routing e)) e'
      → Turn restore_network e (moves (call destroys_tap e') cleanup)
  cleans : {e : Engine} → Turn cleanup e (returns (deactivate e) none)
  dead : {e : Engine} (x : GoError) → Turn failed e (returns e (some x))

unless_cases :
    (P : Handled → Type 0) (r : Option GoError) (e : Engine) (next : State)
    → ((x : GoError) → P (fails e x))
    → P (moves e next)
    → P (unless_err r e next)
unless_cases P none e next f m = m
unless_cases P (some x) e next f m = f x

if_cases : (P : Handled → Type 0) (b : Bool) (x y : Handled) → P x → P y → P (if b then x else y)
if_cases P true x y p q = p
if_cases P false x y p q = q

connect-Connects : (e : Engine) (w : World) → Connects e (connect_control e w)
unfolding connect_control
connect-Connects e w = go w.connect_err w.auth_err
  where
    go :
        (c a : Option GoError)
        → Connects e (elim c [
          | some x ↦ e
          | none ↦ elim a [
            | some x ↦ record e { log = closes_control ∷ opens_control ∷ e.log }
            | none ↦ record e { tor_control = true; log = opens_control ∷ e.log }
          ]
        ])
    go none none = connects
    go none (some x) = refused
    go (some x) a = unreachable

stop-Stops : (b : Bool) (e : Engine) → Stops e (if b then call stops_vm e else e)
stop-Stops true e = stops
stop-Stops false e = idle

restore-Restores :
    (r : Option SavedConfig) (e : Engine) → e.saved_net ≡ r → Restores e (restore_saved r e)
unfolding restore_saved
restore-Restores none e h = nothing_saved h
restore-Restores (some s) e h = restores s h

activate-saved_net : (e : Engine) → (activate e).saved_net ≡ e.saved_net
unfolding activate
activate-saved_net e = ground arith

shutdown-Turn :
    (b : Bool) (e : Engine) (w : World)
    → e.tor_control ≡ b
    → Turn shutdown e (
        let e' = if b then record e { tor_control = false; log = closes_control ∷ e.log } else e in
        moves (if w.vm_running then call stops_vm e' else e') restore_network)
shutdown-Turn true e w h = stops_open h (stop-Stops w.vm_running _)
shutdown-Turn false e w h = stops_closed h (stop-Stops w.vm_running _)

-- The handler of every phase refines the step relation: from any state of the engine and with any
-- answers of the environment it makes one of the steps that `Turn` allows for its phase.
pub handle-Turn : (s : State) (e : Engine) (w : World) → Turn s e (handle s e w)
unfolding handle
handle-Turn init e w = starts
handle-Turn check_privileges e w = go (privileges_err w.os w.uid)
  where
    go :
        (r : Option GoError)
        → Turn check_privileges e
            (elim r [ some x ↦ returns e (some x) | none ↦ moves e save_network ])
    go none = allowed
    go (some x) = denied x
handle-Turn save_network e w = go w.save
  where
    go :
        (r : Result GoError SavedConfig)
        → Turn save_network e (elim r [
          | err x ↦ fails (call saves_config e) x
          | ok s ↦ moves (record e { saved_net = some s; log = saves_config ∷ e.log }) create_tap
        ])
    go (ok s) = saves s
    go (err x) = not_saved x
handle-Turn create_tap e w =
    if_cases (Turn create_tap e) (not (parse_ip_ok e.config.host_ip)) _ _ (bad_address _) (
      if_cases (Turn create_tap e) (not (parse_ip_ok e.config.vm_ip)) _ _ (bad_address _) (
        if_cases (Turn create_tap e) (not (parse_ip_ok e.config.subnet_mask)) _ _ (bad_address _)
          (unless_cases (Turn create_tap e) w.tap_err _ _ not_created creates)))
handle-Turn launch_vm e w = unless_cases (Turn launch_vm e) w.start_err _ _ not_launched launches
handle-Turn wait_tap e w = go (wait_for_tap 11 w.tap_rounds)
  where
    go :
        (r : Option (Option GoError))
        → Turn wait_tap e
            (elim r [ none ↦ fails e tap_timeout | some q ↦ unless_err q e configure_tap ])
    go none = no_tap _
    go (some q) = unless_cases (Turn wait_tap e) q _ _ no_tap tap_appears
handle-Turn configure_tap e w =
    if_cases (Turn configure_tap e) (not (parse_ip_ok e.config.vm_ip)) _ _ (bad_gateway _)
      (unless_cases (Turn configure_tap e) w.routing_err _ _ not_routed routes)
handle-Turn flush_dns e w = flushes (connect-Connects (call flushes_dns e) w)
handle-Turn wait_bootstrap e w = go (wait_for_bootstrap 34 e.tor_control w.boot_rounds)
  where
    go :
        (r : Option (Option GoError))
        → Turn wait_bootstrap e
            (elim r [ none ↦ fails e boot_timeout | some q ↦ unless_err q e running ])
    go none = no_bootstrap _
    go (some q) = unless_cases (Turn wait_bootstrap e) q _ _ no_bootstrap bootstraps
handle-Turn running e w = go (is_some w.wait_err && not w.ctx_done_after_wait)
  where
    go :
        (b : Bool)
        → Turn running e (moves (if b then activate (deactivate e) else deactivate e) shutdown)
    go true = vm_dies
    go false = vm_ends
handle-Turn shutdown e w = shutdown-Turn e.tor_control e w refl
handle-Turn restore_network e w = go (is_some w.teardown_err)
  where
    go :
        (b : Bool)
        → Turn restore_network e (
            moves
              (call destroys_tap (
                restore_saved e.saved_net
                  (if b then activate (call tears_down_routing e) else call tears_down_routing e)))
              cleanup)
    go true = undoes_blocked (restore-Restores e.saved_net _ (activate-saved_net _))
    go false = undoes (restore-Restores e.saved_net _ refl)
handle-Turn cleanup e w = cleans
handle-Turn failed e w = dead _
