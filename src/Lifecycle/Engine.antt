-- ===== src/Lifecycle/Engine.antt =====
-- controller/internal/lifecycle/lifecycle.go and failsafe.go: the engine's state, the moves between
-- phases and the failsafe. What the engine asks of the VM, the network manager and the control
-- client is written to `log`, the latest call first, and so is each transition, which is what the
-- observers and the metrics are told. A log line of the program is no part of the model.
use torvmremix.Base.{Bool, true, false, Option, none, List, [], ◌∷◌, Bytes}
use torvmremix.Config.Schema.{Config}
use torvmremix.Lifecycle.State.{State, init, Attempts, delete_attempts}
use torvmremix.Lifecycle.Retry.{RetryPolicy, default_retry_policy}

-- controller/internal/network/network.go: what the network manager saves is opaque here.
pub record SavedConfig : Type 0 where
  pub content : Bytes
  pub platform : Bytes
  pub hmac : Bytes

pub data Call : Type 0 where
  moved : (from to : State) → Call
  saves_config creates_tap starts_vm sets_up_routing flushes_dns : Call
  opens_control closes_control stops_vm tears_down_routing destroys_tap : Call
  restores_config : SavedConfig → Call

pub record Engine : Type 0 where
  pub config : Config
  pub state : State
  pub saved_net : Option SavedConfig
  pub tor_control : Bool  -- whether TorControl is set
  pub failsafe : Bool  -- whether FailSafe is active
  pub retry_policy : State → Option RetryPolicy
  pub attempts : Attempts
  pub log : List Call

unfoldable pub new_engine : Config → Engine
new_engine c = record {
  config = c;
  state = init;
  saved_net = none;
  tor_control = false;
  failsafe = false;
  retry_policy = default_retry_policy;
  attempts = λ s. 0;
  log = [];
}

abbrev pub call : Call → Engine → Engine
call c e = record e { log = c ∷ e.log }

unfoldable pub transition : Engine → State → Engine
transition e next = record e {
  state = next;
  attempts = delete_attempts e.attempts e.state;
  log = moved e.state next ∷ e.log;
}

-- FailSafe.Activate: the error of the call is only logged.
unfoldable pub activate : Engine → Engine
activate e = elim e.failsafe [
  | true ↦ e
  | false ↦ record e { failsafe = true; log = tears_down_routing ∷ e.log }
]

unfoldable pub deactivate : Engine → Engine
deactivate e = record e { failsafe = false }
