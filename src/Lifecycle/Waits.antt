-- ===== src/Lifecycle/Waits.antt =====
-- controller/internal/lifecycle/lifecycle.go: the two polling loops. Times are in milliseconds
-- since the loop began. A round of the environment says what the checks of one round of the loop
-- see, and `lag`, the time that the round takes beyond its sleep. `none` means that the fuel ran
-- out; 11 rounds of the one loop and 34 of the other are enough.
use torvmremix.Base.{
  ℕ, zero, suc, ◌+◌, ◌*◌, Bool, not, Option, none, some, ltb, leb, if◌then◌else◌, bytes,
}
use torvmremix.Lifecycle.Retry.{GoError, message}

-- backoff = backoff * 2, capped
unfoldable pub next_backoff : ℕ → ℕ
next_backoff b = if ltb 10000 (b * 2) then 10000 else b * 2

pub record Round : Type 0 where
  pub ctx_err : Option GoError
  pub vm_running : Bool
  pub reachable : Bool  -- the dial succeeds
  pub lag : ℕ

-- What ends a round: the loop returns, or it goes on.
pub data Verdict : Type 0 where
  connected : Verdict
  gives_up : GoError → Verdict
  goes_on : Verdict

unfoldable pub tap_round : Round → Verdict
tap_round r = elim r.ctx_err [
  | some e ↦ gives_up e
  | none ↦
      if not r.vm_running
      then gives_up (message (bytes "VM exited during TAP wait"))
      else if r.reachable
      then connected
      else goes_on
]

-- A round of the second loop asks the control client, if there is one.
pub record BootRound : Type 0 where
  pub ctx_err : Option GoError
  pub vm_running : Bool
  pub progress : Option ℕ  -- the control client's answer, if the query succeeds
  pub reachable : Bool  -- the dial of the SOCKS port succeeds
  pub lag : ℕ

abbrev pub progress_verdict : Option ℕ → Verdict
progress_verdict none = goes_on
progress_verdict (some p) = if leb 100 p then connected else goes_on

unfoldable pub boot_round : (tor_control : Bool) → BootRound → Verdict
boot_round tor_control r = elim r.ctx_err [
  | some e ↦ gives_up e
  | none ↦
      if not r.vm_running
      then gives_up (message (bytes "VM exited during bootstrap"))
      else if tor_control
      then progress_verdict r.progress
      else if r.reachable
      then connected
      else goes_on
]

-- `for time.Now().Before(deadline)`: the n-th round has verdict `verdict n` and takes `lag n` and
-- its sleep. The answer is the loop's error, if there is one.
unfoldable pub poll :
    (deadline : ℕ) (timeout : GoError) (verdict : ℕ → Verdict) (lag : ℕ → ℕ)
    → ℕ
    → (n now backoff : ℕ) → Option (Option GoError)
poll deadline timeout verdict lag zero n now backoff = none
poll deadline timeout verdict lag (suc f) n now backoff =
    let rest =
      poll deadline timeout verdict lag f (suc n) (now + lag n + backoff) (next_backoff backoff) in
    if ltb now deadline
    then elim (verdict n) [ connected ↦ some none | gives_up e ↦ some (some e) | goes_on ↦ rest ]
    else some (some timeout)

abbrev pub tap_timeout : GoError
tap_timeout = message (bytes "TAP connect timeout after 1m0s")

abbrev pub boot_timeout : GoError
boot_timeout = message (bytes "Tor bootstrap timeout after 5m0s")

unfoldable pub wait_for_tap : ℕ → (ℕ → Round) → Option (Option GoError)
wait_for_tap fuel rounds =
    poll 60000 tap_timeout (λ n. tap_round (rounds n)) (λ n. (rounds n).lag) fuel 0 0 500

unfoldable pub wait_for_bootstrap :
    ℕ → (tor_control : Bool) → (ℕ → BootRound) → Option (Option GoError)
wait_for_bootstrap fuel tor_control rounds =
    poll 300000 boot_timeout (λ n. boot_round tor_control (rounds n)) (λ n. (rounds n).lag) fuel 0 0
      1000
