-- ===== src/Lifecycle/State.antt =====
-- controller/internal/lifecycle/lifecycle.go: the phases, with the numbers that `iota` gives them.
use torvmremix.Base.{ℕ, Bool, ◌==◌, if◌then◌else◌, Bytes, bytes}

pub data State : Type 0 where
  init check_privileges save_network create_tap launch_vm : State
  wait_tap configure_tap flush_dns wait_bootstrap running : State
  shutdown restore_network cleanup failed : State

abbrev pub code : State → ℕ
code init = 0
code check_privileges = 1
code save_network = 2
code create_tap = 3
code launch_vm = 4
code wait_tap = 5
code configure_tap = 6
code flush_dns = 7
code wait_bootstrap = 8
code running = 9
code shutdown = 10
code restore_network = 11
code cleanup = 12
code failed = 13

-- The names that are logged and recorded by the metrics.
unfoldable pub state_name : State → Bytes
state_name init = bytes "Init"
state_name check_privileges = bytes "CheckPrivileges"
state_name save_network = bytes "SaveNetwork"
state_name create_tap = bytes "CreateTAP"
state_name launch_vm = bytes "LaunchVM"
state_name wait_tap = bytes "WaitTAP"
state_name configure_tap = bytes "ConfigureTAP"
state_name flush_dns = bytes "FlushDNS"
state_name wait_bootstrap = bytes "WaitBootstrap"
state_name running = bytes "Running"
state_name shutdown = bytes "Shutdown"
state_name restore_network = bytes "RestoreNetwork"
state_name cleanup = bytes "Cleanup"
state_name failed = bytes "Failed"

abbrev pub same_state : State → State → Bool
same_state s t = code s == code t

-- A Go map from phases to numbers: a key that is not there reads as 0.
abbrev pub Attempts : Type 0
Attempts = State → ℕ

unfoldable pub put_attempts : Attempts → State → ℕ → Attempts
put_attempts m s n t = if same_state s t then n else m t

-- delete(m, s)
unfoldable pub delete_attempts : Attempts → State → Attempts
unfolding put_attempts
delete_attempts m s = put_attempts m s 0
