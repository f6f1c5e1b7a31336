-- ===== src/Lifecycle/Retry.antt =====
-- controller/internal/lifecycle/retry.go: which errors are tried again, how often and after how
-- long. Durations are 64-bit numbers of nanoseconds. `JitterFactor` is in thousandths and
-- `rand.Float64()` in units of 2 ^ -53, so what is converted to a duration is the exact value of what
-- the code computes in floating point. What the conversion of a number outside the range gives, Go
-- leaves to the implementation: `beyond` stands for it.
use torvmremix.Base.{
  ℕ, zero, suc, ℤ, pos, negsuc, lt_int, ◌+◌, ◌*◌, ◌/◌, ◌^◌, Bool, true, false, Option, none, some,
  List, [], ◌∷◌, ltb, leb, if◌then◌else◌, any, Bytes, bytes, contains,
}
use torvmremix.Lifecycle.State.{
  State, save_network, create_tap, launch_vm, configure_tap, flush_dns,
}

-- The errors that the phases meet: two values of the package `context`, and texts.
pub data GoError : Type 0 where
  deadline_exceeded canceled : GoError
  message : Bytes → GoError

-- err.Error()
abbrev pub text_of : GoError → Bytes
text_of deadline_exceeded = bytes "context deadline exceeded"
text_of canceled = bytes "context canceled"
text_of (message m) = m

pub record RetryPolicy : Type 0 where
  pub max_attempts : ℕ
  pub base_delay : ℕ
  pub max_delay : ℕ
  pub jitter_factor : ℕ

pub data ErrorClass : Type 0 where
  transient permanent : ErrorClass

abbrev pub transient_patterns : List Bytes
transient_patterns =
    bytes "resource temporarily unavailable"
    ∷ bytes "address already in use"
    ∷ bytes "connection refused"
    ∷ bytes "connection reset"
    ∷ []

abbrev pub permanent_patterns : List Bytes
permanent_patterns =
    bytes "permission denied"
    ∷ bytes "file not found"
    ∷ bytes "no such file"
    ∷ bytes "config validation"
    ∷ []

classify_text : Bytes → ErrorClass
classify_text msg =
    if any (contains msg) transient_patterns
    then transient
    else if any (contains msg) permanent_patterns
    then permanent
    else transient

unfoldable pub classify_error : State → Option GoError → ErrorClass
unfolding classify_text
classify_error s none = permanent
classify_error s (some deadline_exceeded) = transient
classify_error s (some e) = classify_text (text_of e)

abbrev pub is_permanent : ErrorClass → Bool
is_permanent permanent = true
is_permanent transient = false

-- time.Duration(x) for a floating-point number that is not negative, and for one that is not positive.
unfoldable pub to_duration : (beyond : ℤ) → ℕ → ℤ
to_duration beyond n = if ltb n (2 ^ 63) then pos n else beyond

abbrev pub negated : ℕ → ℤ
negated zero = pos 0
negated (suc n) = negsuc n

unfoldable pub to_duration_neg : (beyond : ℤ) → ℕ → ℤ
to_duration_neg beyond n = if leb n (2 ^ 63) then negated n else beyond

-- The delay before the jitter.
unfoldable pub backoff_delay : RetryPolicy → ℕ → (beyond : ℤ) → ℤ
backoff_delay p attempt beyond =
    let delay = to_duration beyond (p.base_delay * 2 ^ attempt) in
    if lt_int (pos p.max_delay) delay then pos p.max_delay else delay

-- 2 ^ 53 * 1000
abbrev pub jitter_unit : ℕ
jitter_unit = 9007199254740992000

abbrev pub jittered : RetryPolicy → (rand : ℕ) → ℕ → ℕ
jittered p rand delay = delay * (jitter_unit + p.jitter_factor * rand) / jitter_unit

unfoldable pub with_jitter : RetryPolicy → (rand : ℕ) → (beyond : ℤ) → ℤ → ℤ
with_jitter p rand beyond (pos d) = to_duration beyond (jittered p rand d)
with_jitter p rand beyond (negsuc d) = to_duration_neg beyond (jittered p rand (d + 1))

unfoldable pub should_retry :
    State → Option GoError → (attempt : ℕ) → Option RetryPolicy → (rand : ℕ) (beyond : ℤ) → Bool × ℤ
should_retry s e attempt none rand beyond = (false, pos 0)
should_retry s e attempt (some p) rand beyond =
    if leb p.max_attempts attempt
    then (false, pos 0)
    else if is_permanent (classify_error s e)
    then (false, pos 0)
    else (true, with_jitter p rand beyond (backoff_delay p attempt beyond))

abbrev pub second : ℕ
second = 1000000000

abbrev pub policy_of : (max_attempts base_secs max_secs jitter : ℕ) → RetryPolicy
policy_of n base top jitter = record {
  max_attempts = n;
  base_delay = base * second;
  max_delay = top * second;
  jitter_factor = jitter;
}

unfoldable pub default_retry_policy : State → Option RetryPolicy
default_retry_policy create_tap = some (policy_of 3 2 30 200)
default_retry_policy launch_vm = some (policy_of 2 5 30 200)
default_retry_policy save_network = some (policy_of 2 1 10 100)
default_retry_policy configure_tap = some (policy_of 2 2 15 200)
default_retry_policy flush_dns = some (policy_of 2 1 5 100)
default_retry_policy _ = none
