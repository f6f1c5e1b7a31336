-- ===== src/Lifecycle/Order.antt =====
-- In which order the engine of controller/internal/lifecycle calls on the VM and the network.
use torvmremix.Base.{◌≡◌, refl, Bool, true, false, ◌||◌, List, [], ◌∷◌, arith, any, subst}
use torvmremix.Config.Schema.{Config}
use torvmremix.Lifecycle.State.{
  State, create_tap, launch_vm, wait_tap, configure_tap, flush_dns, wait_bootstrap, running,
  shutdown,
}
use torvmremix.Lifecycle.Engine.{
  Engine, Call, new_engine, transition, activate, deactivate, saves_config, creates_tap, starts_vm,
  sets_up_routing, flushes_dns, opens_control, closes_control, stops_vm, tears_down_routing,
  destroys_tap, restores_config, moved,
}
use torvmremix.Lifecycle.Handlers.{World, Handled, Outcome, continues, returned, is_some, run}
use torvmremix.Lifecycle.Turn
use torvmremix.Lifecycle.Turn.{Turn, Connects, Stops, Restores}
use torvmremix.Lifecycle.Invariant.{IsInvariant, Leaves, Ends, run_keeps}

abbrev pub is_save : Call → Bool
is_save saves_config = true
is_save _ = false

abbrev pub is_create : Call → Bool
is_create creates_tap = true
is_create _ = false

abbrev pub is_start : Call → Bool
is_start starts_vm = true
is_start _ = false

abbrev pub is_route : Call → Bool
is_route sets_up_routing = true
is_route _ = false

-- Before each call of the first kind there is one of the second. The log has the latest call first.
abbrev pub Preceded : (Call → Bool) → (Call → Bool) → List Call → Type 0
Preceded p q [] = Unit {0}
Preceded p q (c ∷ l) = (p c ≡ true → any q l ≡ true) × Preceded p q l

-- The phases that are entered with the TAP device created, and so on.
abbrev saved_by : State → Bool
saved_by create_tap = true
saved_by launch_vm = true
saved_by wait_tap = true
saved_by configure_tap = true
saved_by flush_dns = true
saved_by wait_bootstrap = true
saved_by running = true
saved_by _ = false

abbrev created_by : State → Bool
created_by launch_vm = true
created_by wait_tap = true
created_by configure_tap = true
created_by flush_dns = true
created_by wait_bootstrap = true
created_by running = true
created_by _ = false

abbrev started_by : State → Bool
started_by wait_tap = true
started_by configure_tap = true
started_by flush_dns = true
started_by wait_bootstrap = true
started_by running = true
started_by _ = false

-- What has to have happened by the phase `s`, given what is saved and logged.
record Done (s : State) (kept : Bool) (l : List Call) : Type 0 where
  saved_net : saved_by s ≡ true → kept ≡ true
  saved : saved_by s ≡ true → any is_save l ≡ true
  created : created_by s ≡ true → any is_create l ≡ true
  started : started_by s ≡ true → any is_start l ≡ true
  create_saved : any is_create l ≡ true → kept ≡ true
  tap_after_save : Preceded is_create is_save l
  vm_after_tap : Preceded is_start is_create l
  routing_after_vm : Preceded is_route is_start l

abbrev IsOrdered : Engine → Type 0
IsOrdered e = Done e.state (is_some e.saved_net) e.log

-- A call of no kind that matters, written to the log.
abbrev is_plain : Call → Bool
is_plain c = is_save c || is_create c || is_start c || is_route c

Done-plain :
    (c : Call) {s : State} {k : Bool} {l : List Call}
    → is_plain c ≡ false
    → Done s k l
    → Done s k (c ∷ l)
Done-plain c h d = ground arith

-- A phase that asks for less.
Done-late :
    {s t : State} {k : Bool} {l : List Call}
    → (saved_by t || created_by t || started_by t) ≡ false
    → Done s k l
    → Done t k l
Done-late a d = record {
  saved_net = ground arith;
  saved = ground arith;
  created = ground arith;
  started = ground arith;
  create_saved = d.create_saved;
  tap_after_save = d.tap_after_save;
  vm_after_tap = d.vm_after_tap;
  routing_after_vm = d.routing_after_vm;
}

Connects-ordered :
    (s : State) {e e' : Engine}
    → Connects e e'
    → Done s (is_some e.saved_net) e.log
    → Done s (is_some e'.saved_net) e'.log
Connects-ordered s Turn.unreachable d = d
Connects-ordered s Turn.refused d = Done-plain closes_control refl (Done-plain opens_control refl d)
Connects-ordered s Turn.connects d = Done-plain opens_control refl d

Stops-ordered :
    (s : State) {e e' : Engine}
    → Stops e e'
    → Done s (is_some e.saved_net) e.log
    → Done s (is_some e'.saved_net) e'.log
Stops-ordered s Turn.idle d = d
Stops-ordered s Turn.stops d = Done-plain stops_vm refl d

Restores-ordered :
    (s : State) {e e' : Engine}
    → Restores e e'
    → Done s (is_some e.saved_net) e.log
    → Done s (is_some e'.saved_net) e'.log
Restores-ordered s (Turn.nothing_saved h) d = d
Restores-ordered s (Turn.restores c h) d = Done-plain (restores_config c) refl d

activate-ordered :
    (s : State) (e : Engine)
    → Done s (is_some e.saved_net) e.log
    → Done s (is_some (activate e).saved_net) (activate e).log
unfolding activate
activate-ordered s e d = go e.failsafe
  where
    go :
        (b : Bool)
        → Done s
            (is_some
              (elim b as (λ b. Engine) [
                | true ↦ e
                | false ↦ record e { failsafe = true; log = tears_down_routing ∷ e.log }
              ]).saved_net)
            (elim b as (λ b. Engine) [
              | true ↦ e
              | false ↦ record e { failsafe = true; log = tears_down_routing ∷ e.log }
            ]).log
    go true = d
    go false = Done-plain tears_down_routing refl d

-- The entry that a transition writes.
moved-IsOrdered :
    (t : State) (e : Engine) → Done t (is_some e.saved_net) e.log → IsOrdered (transition e t)
unfolding transition
moved-IsOrdered t e d = Done-plain (moved e.state t) refl d

deactivate-IsOrdered : (e : Engine) → IsOrdered e → IsOrdered (deactivate e)
unfolding deactivate
deactivate-IsOrdered e d = d

IsOrdered-turned :
    {s : State} {e : Engine} {h : Handled}
    → Turn s e h
    → e.state ≡ s
    → IsOrdered e
    → Leaves IsOrdered h
IsOrdered-turned Turn.starts q d = moved-IsOrdered _ _ (Done-late refl d)
IsOrdered-turned (Turn.denied x) q d = d
IsOrdered-turned Turn.allowed q d = moved-IsOrdered _ _ (Done-late refl d)
IsOrdered-turned (Turn.not_saved x) q d = ground arith
IsOrdered-turned (Turn.saves s) q d = moved-IsOrdered _ _ (ground arith)
IsOrdered-turned (Turn.bad_address x) q d = d
IsOrdered-turned (Turn.not_created x) q d = ground arith
IsOrdered-turned Turn.creates q d = moved-IsOrdered _ _ (ground arith)
IsOrdered-turned (Turn.not_launched x) q d = ground arith
IsOrdered-turned Turn.launches q d = moved-IsOrdered _ _ (ground arith)
IsOrdered-turned (Turn.no_tap x) q d = d
IsOrdered-turned Turn.tap_appears q d = moved-IsOrdered _ _ (ground arith)
IsOrdered-turned (Turn.bad_gateway x) q d = d
IsOrdered-turned (Turn.not_routed x) q d = ground arith
IsOrdered-turned Turn.routes q d = moved-IsOrdered _ _ (ground arith)
IsOrdered-turned (Turn.flushes c) q d =
    moved-IsOrdered _ _
      (Connects-ordered wait_bootstrap c (Done-plain flushes_dns refl (ground arith)))
IsOrdered-turned (Turn.no_bootstrap x) q d = d
IsOrdered-turned Turn.bootstraps q d = moved-IsOrdered _ _ (ground arith)
IsOrdered-turned Turn.vm_ends q d = moved-IsOrdered _ _ (Done-late refl (deactivate-IsOrdered _ d))
IsOrdered-turned {e} Turn.vm_dies q d =
    moved-IsOrdered _ _
      (Done-late refl (activate-ordered _ (deactivate e) (deactivate-IsOrdered e d)))
IsOrdered-turned (Turn.stops_open t k) q d =
    moved-IsOrdered _ _ (Done-late refl (Stops-ordered _ k (Done-plain closes_control refl d)))
IsOrdered-turned (Turn.stops_closed t k) q d =
    moved-IsOrdered _ _ (Done-late refl (Stops-ordered _ k d))
IsOrdered-turned (Turn.undoes k) q d = moved-IsOrdered _ _ (
    Done-plain destroys_tap refl
      (Done-late refl (Restores-ordered _ k (Done-plain tears_down_routing refl d))))
IsOrdered-turned (Turn.undoes_blocked k) q d = moved-IsOrdered _ _ (
    Done-plain destroys_tap refl (
      Done-late refl
        (Restores-ordered _ k (activate-ordered _ _ (Done-plain tears_down_routing refl d)))))
IsOrdered-turned Turn.cleans q d = deactivate-IsOrdered _ d
IsOrdered-turned (Turn.dead x) q d = d

activate-phase : (e : Engine) → e.state ≡ (activate e).state
unfolding activate
activate-phase e = ground arith

IsOrdered-invariant : IsInvariant IsOrdered
IsOrdered-invariant = record {
  stopped = λ e d. moved-IsOrdered shutdown e (Done-late refl d);
  blocked = λ e d. moved-IsOrdered shutdown (activate e) (Done-late refl (activate-state e d));
  counted = λ e m d. d;
  turned = IsOrdered-turned;
}
  where
    activate-state : (e : Engine) → IsOrdered e → IsOrdered (activate e)
    activate-state e d =
        subst (λ (s : State). Done s (is_some (activate e).saved_net) (activate e).log)
          (activate-phase e) (activate-ordered e.state e d)

-- The order of the calls, and a saved configuration to go back to.
pub record InOrder (e : Engine) : Type 0 where
  pub routing_after_vm : Preceded is_route is_start e.log
  pub vm_after_tap : Preceded is_start is_create e.log
  pub tap_after_save : Preceded is_create is_save e.log
  pub way_back : any is_create e.log ≡ true → is_some e.saved_net ≡ true

in_order : (o : Outcome) → Ends IsOrdered o → Ends InOrder o
in_order (continues e) d = record {
  routing_after_vm = d.routing_after_vm;
  vm_after_tap = d.vm_after_tap;
  tap_after_save = d.tap_after_save;
  way_back = d.create_saved;
}
in_order (returned e r) d = record {
  routing_after_vm = d.routing_after_vm;
  vm_after_tap = d.vm_after_tap;
  tap_after_save = d.tap_after_save;
  way_back = d.create_saved;
}

new-IsOrdered : (c : Config) → IsOrdered (new_engine c)
unfolding new_engine
new-IsOrdered c = ground arith

-- However many turns a new engine takes, and whatever the environment answers: the routing is set up
-- only after the VM was started, the VM is started only after the TAP device was created, the TAP
-- device is created only after the configuration was read, and once it has been created there is a
-- saved configuration.
pub run-InOrder : (c : Config) (ws : List World) → Ends InOrder (run (new_engine c) ws)
run-InOrder c ws =
    in_order _ (run_keeps IsOrdered IsOrdered-invariant (new_engine c) ws (new-IsOrdered c))
