-- ===== src/Metrics/Recorder.antt =====
-- The recorder of controller/internal/metrics/metrics.go. The counters and gauges of the Prometheus client are
-- their values; of a histogram it is the observations, the latest first. A duration is in nanoseconds.
use torvmremix.Base.{
  ℕ, ◌+◌, Bool, true, false, ◌&&◌, List, [], ◌∷◌, ℤ, pos, Bytes, bytes, is_nil, eq_bytes, one_of,
  if◌then◌else◌,
}

pub record Recorder : Type 0 where
  pub state_transitions : List (Bytes × Bytes)
  pub bootstrap_duration : List ℕ
  pub failsafe_active : Bool
  pub bootstrap_progress : ℤ
  pub state_duration : List (Bytes × ℕ)
  pub restarts_total : ℕ
  pub failsafe_activations : ℕ
  pub current_state : Bytes
  pub stopped : Bool

unfoldable pub new_recorder : Recorder
new_recorder = record {
  state_transitions = [];
  bootstrap_duration = [];
  failsafe_active = false;
  bootstrap_progress = pos 0;
  state_duration = [];
  restarts_total = 0;
  failsafe_activations = 0;
  current_state = bytes "Init";
  stopped = false;
}

unfoldable pub is_restart : Bytes → Bytes → Bool
is_restart from to =
    eq_bytes to (bytes "LaunchVM")
    && one_of from (bytes "Shutdown" ∷ bytes "RestoreNetwork" ∷ bytes "Cleanup" ∷ [])

-- `elapsed` is the time since the state was entered.
unfoldable pub record_transition : (elapsed : ℕ) → (from to : Bytes) → Recorder → Recorder
record_transition elapsed from to r = record r {
  state_transitions = (from, to) ∷ r.state_transitions;
  state_duration =
      if is_nil r.current_state
      then r.state_duration
      else (r.current_state, elapsed) ∷ r.state_duration;
  current_state = to;
  restarts_total = if is_restart from to then r.restarts_total + 1 else r.restarts_total;
}

unfoldable pub record_bootstrap_progress : ℤ → Recorder → Recorder
record_bootstrap_progress pct r = record r { bootstrap_progress = pct }

unfoldable pub record_failsafe_activation : Recorder → Recorder
record_failsafe_activation r = record r { failsafe_activations = r.failsafe_activations + 1 }

unfoldable pub record_bootstrap_duration : ℕ → Recorder → Recorder
record_bootstrap_duration d r = record r { bootstrap_duration = d ∷ r.bootstrap_duration }

unfoldable pub set_failsafe_active : Bool → Recorder → Recorder
set_failsafe_active active r = record r { failsafe_active = active }

unfoldable pub stop : Recorder → Recorder
stop r = record r { stopped = true }
