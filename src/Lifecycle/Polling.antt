-- ===== src/Lifecycle/Polling.antt =====
-- The polling loops of controller/internal/lifecycle/lifecycle.go end within their fuel, and what
-- their answers mean.
use torvmremix.Base.{ℕ, zero, suc, ◌+◌, ◌≤◌, ◌<◌, ◌≡◌, refl, Bool, Option, none, some, arith}
use native.Mathlib.Decide.{dec_lt}
use torvmremix.Lifecycle.Retry.{GoError}
use torvmremix.Lifecycle.Waits.{
  Verdict, connected, gives_up, goes_on, Round, BootRound, next_backoff, poll, tap_round,
  boot_round, wait_for_tap, wait_for_bootstrap, tap_timeout, boot_timeout,
}

-- The time that `f` sleeps take.
slept : ℕ → ℕ → ℕ
slept zero b = 0
slept (suc f) b = b + slept f (next_backoff b)

-- What the answer of a loop says of its rounds, from the n-th on, when the time is `now`.
pub data Ended (deadline : ℕ) (timeout : GoError) (verdict : ℕ → Verdict) (lag : ℕ → ℕ)
    (r : Option GoError) : ℕ → ℕ → ℕ → Type 0 where
  by_deadline :
      {n now b : ℕ}
      → deadline ≤ now
      → r ≡ some timeout
      → Ended deadline timeout verdict lag r n now b
  by_success :
      {n now b : ℕ}
      → now < deadline
      → verdict n ≡ connected
      → r ≡ none
      → Ended deadline timeout verdict lag r n now b
  by_error :
      {n now b : ℕ} (e : GoError)
      → now < deadline
      → verdict n ≡ gives_up e
      → r ≡ some e
      → Ended deadline timeout verdict lag r n now b
  later :
      {n now b : ℕ}
      → now < deadline
      → verdict n ≡ goes_on
      → Ended deadline timeout verdict lag r (suc n) (now + lag n + b) (next_backoff b)
      → Ended deadline timeout verdict lag r n now b

module _ (deadline : ℕ) (timeout : GoError) (verdict : ℕ → Verdict) (lag : ℕ → ℕ) where
  -- One turn of the loop, by the verdict.
  poll_turn :
      (f n now b : ℕ)
      → now < deadline
      → poll deadline timeout verdict lag (suc f) n now b ≡ elim (verdict n) [
        | connected ↦ some none
        | gives_up e ↦ some (some e)
        | goes_on ↦ poll deadline timeout verdict lag f (suc n) (now + lag n + b) (next_backoff b)
      ]
  unfolding poll
  poll_turn f n now b h = ground arith

  poll_over :
      (f n now b : ℕ)
      → deadline ≤ now
      → poll deadline timeout verdict lag (suc f) n now b ≡ some (some timeout)
  unfolding poll
  poll_over f n now b h = ground arith

  poll_total :
      (f n now b : ℕ)
      → deadline ≤ now + slept f b
      → (r : Option GoError) × (poll deadline timeout verdict lag (suc f) n now b ≡ some r)
        × Ended deadline timeout verdict lag r n now b
  unfolding slept
  poll_total zero n now b h =
      (some timeout, poll_over 0 n now b (omega arith), by_deadline (omega arith) refl)
  poll_total (suc f) n now b h = elim (dec_lt now deadline) [
    | no p ↦ (some timeout, poll_over (suc f) n now b (omega arith), by_deadline (omega arith) refl)
    | yes p ↦
        go (verdict n) refl (poll_total f (suc n) (now + lag n + b) (next_backoff b) (omega arith))
          p
  ]
    where
      go :
          (v : Verdict)
          → verdict n ≡ v
          → (r : Option GoError) × (poll deadline timeout verdict lag
                (suc f)
                (suc n)
                (now + lag n + b)
                (next_backoff b)
              ≡ some r)
            × Ended deadline timeout verdict lag r (suc n) (now + lag n + b) (next_backoff b)
          → now < deadline
          → (r : Option GoError) × (poll deadline timeout verdict lag (suc (suc f)) n now b
              ≡ some r)
            × Ended deadline timeout verdict lag r n now b
      go connected e rest p = (none, rw (poll_turn (suc f) n now b p, e), by_success p e refl)
      go (gives_up x) e rest p = (some x, rw (poll_turn (suc f) n now b p, e), by_error x p e refl)
      go goes_on e rest p = (rest.0, rw (poll_turn (suc f) n now b p, e) rest.1, later p e rest.2)

-- The loop that waits for the TAP device always answers within eleven rounds, whatever the
-- environment does: the deadline of 60 seconds has passed, or some round before it ended the loop
-- and every round before that one went on.
pub wait_for_tap_total :
    (rounds : ℕ → Round)
    → (r : Option GoError) × (wait_for_tap 11 rounds ≡ some r)
      × Ended 60000 tap_timeout (λ n. tap_round (rounds n)) (λ n. (rounds n).lag) r 0 0 500
unfolding wait_for_tap slept next_backoff
wait_for_tap_total rounds =
    poll_total 60000 tap_timeout (λ n. tap_round (rounds n)) (λ n. (rounds n).lag) 10 0 0 500
      (omega arith)

-- The loop that waits for the bootstrap always answers within 34 rounds: the deadline of five
-- minutes has passed, or some round before it ended the loop and every round before went on.
pub wait_for_bootstrap_total :
    (control : Bool) (rounds : ℕ → BootRound)
    → (r : Option GoError) × (wait_for_bootstrap 34 control rounds ≡ some r)
      × Ended 300000 boot_timeout
          (λ n. boot_round control (rounds n))
          (λ n. (rounds n).lag)
          r
          0
          0
          1000
unfolding wait_for_bootstrap slept next_backoff
wait_for_bootstrap_total control rounds =
    poll_total 300000 boot_timeout (λ n. boot_round control (rounds n)) (λ n. (rounds n).lag) 33 0 0
      1000 (omega arith)
