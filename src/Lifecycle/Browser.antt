-- ===== src/Lifecycle/Browser.antt =====
-- The engine of the browser VM: controller/internal/lifecycle/browser.go with Stop and Wait of
-- controller/internal/vm/browser.go, and the buttons of controller/gui/browser_tab.go. The goroutine of
-- `run` and those that handle a compromise take turns in any order; a turn goes to the next place
-- where the goroutine waits, or calls the VM. Each Start of the VM makes a new channel for the end of
-- its process, and its number stands for it. The end of a process and the value that it sends are
-- one step, so no Start falls between the two.
use torvmremix.Base.{
  ℕ, zero, suc, Bool, true, false, not, ◌&&◌, List, [], ◌∷◌, ◌++◌, ◌==◌, if◌then◌else◌, Option,
  none, some, get_elem?,
}
use torvmremix.Secwatch.Monitor.{Monitor, subscribes, starts, stops, act, new_monitor}

pub data BrowserState : Type 0 where
  idle waiting_for_tor starting running compromised stopping : BrowserState

abbrev pub is_idle : BrowserState → Bool
is_idle idle = true
is_idle _ = false

-- Where `run` stands: before its first look at Tor, in the loop that polls it, at the start_run of the
-- VM, in Wait and in Stop with the channel that they read, or returned.
pub data RunPlace : Type 0 where
  entered polling launching returned : RunPlace
  waiting closing : ℕ → RunPlace

-- Where a call of handleCompromise stands: at its start_run, in Stop, in the pause before a restart, at
-- the start_run of the VM, or returned.
pub data HandlerPlace : Type 0 where
  reported pausing relaunching finished : HandlerPlace
  ending : ℕ → HandlerPlace

-- A call of `run`, and whether its context has ended.
pub record Run : Type 0 where
  pub place : RunPlace
  pub cancelled : Bool

-- A call of handleCompromise by the observer that a run has registered.
pub record Handler : Type 0 where
  pub place : HandlerPlace
  pub owner : ℕ

-- What the goroutines share.
pub record Shared : Type 0 where
  pub state : BrowserState
  pub vm_running : Bool
  pub channel : ℕ  -- of the last Start
  pub held : ℕ → Bool  -- whether a channel holds a value
  pub monitor : Monitor
  pub told : List (BrowserState × BrowserState)  -- the observers, the last call first

pub record BrowserEngine : Type 0 where
  pub shared : Shared
  pub runs : List Run  -- in the order of their starts; `cancel` is the last one's
  pub handlers : List Handler

unfoldable pub new_browser_engine : BrowserEngine
unfolding new_monitor
new_browser_engine = record {
  shared = record {
    state = idle;
    vm_running = false;
    channel = 0;
    held = λ n. false;
    monitor = new_monitor;
    told = [];
  };
  runs = [];
  handlers = [];
}

abbrev pub transition_to : Shared → BrowserState → Shared
transition_to b next = record b { state = next; told = (b.state, next) ∷ b.told }

abbrev pub with_value : ℕ → Bool → (ℕ → Bool) → ℕ → Bool
with_value n v held m = if m == n then v else held m

-- A value is read from a channel.
abbrev pub read : ℕ → Shared → Shared
read n b = record b { held = with_value n false b.held }

-- What a turn meets: Tor's state as it looks, the outcome of a Start, the value of the channel, the
-- end of the context, or of a timer.
pub data Meets : Type 0 where
  sees_tor starts_vm : Bool → Meets
  receives context_done elapses : Meets

-- VM.Start and SecMonitor.Start, and the state that follows.
abbrev pub up_again : Shared → Shared
up_again b =
    transition_to
      (record b { vm_running = true; channel = suc b.channel; monitor = (act b.monitor starts).0 })
      running

abbrev pub subscribed : Shared → Shared
subscribed b = record b { monitor = (act b.monitor (subscribes 0)).0 }

-- A return ends the context, by the deferred call.
abbrev pub done : Shared → Run × Shared
done b = (record { place = returned; cancelled = true }, b)

-- Behind Wait: the monitor is stopped, and the VM, if it still runs.
abbrev pub wind_down : Run → Shared → Run × Shared
wind_down r b =
    let b' = transition_to (record b { monitor = (act b.monitor stops).0 }) stopping in
    if b.vm_running
    then (record r { place = closing b.channel }, b')
    else done (transition_to b' idle)

-- A turn of `run` at a place.
unfoldable pub run_at : RunPlace → Run → Shared → Meets → Run × Shared
unfolding act
run_at entered r b (sees_tor true) = (record r { place = launching }, transition_to b starting)
run_at entered r b (sees_tor false) =
    (record r { place = polling }, transition_to b waiting_for_tor)
run_at polling r b (sees_tor true) = (record r { place = launching }, transition_to b starting)
run_at polling r b context_done = if r.cancelled then done b else (r, b)
run_at launching r b (starts_vm good) =
    if good && not b.vm_running
    then (record r { place = waiting (suc b.channel) }, up_again (subscribed b))
    else done (transition_to b idle)
run_at (waiting n) r b receives = if b.held n then wind_down r (read n b) else (r, b)
run_at (waiting n) r b context_done = if r.cancelled then wind_down r b else (r, b)
run_at (closing n) r b receives = if b.held n then done (transition_to (read n b) idle) else (r, b)
run_at (closing n) r b elapses = done (transition_to b idle)
run_at place r b m = (r, b)

-- Behind Stop.
abbrev pub remediate : Bool → HandlerPlace
remediate auto = if auto then pausing else finished

-- A turn of a handler at a place; `auto` is AutoRemediate, and `over` the end of its context.
unfoldable pub handler_at : Bool → Bool → HandlerPlace → Shared → Meets → HandlerPlace × Shared
unfolding act
handler_at auto over reported b m =
    (if b.vm_running then ending b.channel else remediate auto, transition_to b compromised)
handler_at auto over (ending n) b receives =
    if b.held n then (remediate auto, read n b) else (ending n, b)
handler_at auto over (ending n) b elapses = (remediate auto, b)
handler_at auto over pausing b context_done = (if over then finished else pausing, b)
handler_at auto over pausing b (sees_tor tor) =
    if tor then (relaunching, transition_to b starting) else (finished, b)
handler_at auto over relaunching b (starts_vm good) =
    (finished, if good && not b.vm_running then up_again b else transition_to b idle)
handler_at auto over place b m = (place, b)

-- What happens: Start, which the controller calls when Tor is up if AutoStart is set, the window's
-- buttons, a critical event that the observer of a run gets, the end of the process, and the turns.
pub data BrowserMove : Type 0 where
  start_called : BrowserMove
  launch_pressed : Bool → BrowserMove  -- with whether Tor is running
  stop_pressed process_ends : BrowserMove
  critical : ℕ → BrowserMove
  run_turns handler_turns : ℕ → Meets → BrowserMove

abbrev pub put_at : {A : Type 0} → ℕ → A → List A → List A
put_at i v [] = []
put_at zero v (x ∷ xs) = v ∷ xs
put_at (suc i) v (x ∷ xs) = x ∷ put_at i v xs

abbrev pub is_over : Option Run → Bool
is_over none = false
is_over (some r) = r.cancelled

abbrev pub cancel_last : List Run → List Run
cancel_last [] = []
cancel_last (r ∷ []) = record r { cancelled = true } ∷ []
cancel_last (r ∷ s ∷ rs) = r ∷ cancel_last (s ∷ rs)

abbrev pub start_run : BrowserEngine → BrowserEngine
start_run e = record e { runs = e.runs ++ (record { place = entered; cancelled = false } ∷ []) }

abbrev pub turn_run : BrowserEngine → ℕ → Option Run → Meets → BrowserEngine
turn_run e i none m = e
turn_run e i (some r) m =
    let t = run_at r.place r e.shared m in record e { shared = t.1; runs = put_at i t.0 e.runs }

abbrev pub turn_handler : Bool → BrowserEngine → ℕ → Option Handler → Meets → BrowserEngine
turn_handler auto e i none m = e
turn_handler auto e i (some h) m =
    let t = handler_at auto (is_over (get_elem? e.runs h.owner)) h.place e.shared m in
    record e { shared = t.1; handlers = put_at i (record h { place = t.0 }) e.handlers }

abbrev pub end_process : Shared → Shared
end_process b =
    if b.vm_running
    then record b { vm_running = false; held = with_value b.channel true b.held }
    else b

unfoldable pub advance : Bool → BrowserEngine → BrowserMove → BrowserEngine
unfolding run_at handler_at
advance auto e start_called = start_run e
advance auto e (launch_pressed tor) = if is_idle e.shared.state && tor then start_run e else e
advance auto e stop_pressed = record e { runs = cancel_last e.runs }
advance auto e (critical i) = record e {
  handlers = e.handlers ++ (record { place = reported; owner = i } ∷ []);
}
advance auto e process_ends = record e { shared = end_process e.shared }
advance auto e (run_turns i m) = turn_run e i (get_elem? e.runs i) m
advance auto e (handler_turns i m) = turn_handler auto e i (get_elem? e.handlers i) m

unfoldable pub advance_all : Bool → BrowserEngine → List BrowserMove → BrowserEngine
unfolding advance
advance_all auto e [] = e
advance_all auto e (x ∷ xs) = advance_all auto (advance auto e x) xs
