-- ===== src/Lifecycle/Ends.antt =====
-- `Run` of controller/internal/lifecycle/lifecycle.go ends, as long as the context is not done.
use torvmremix.Base.{
  ℤ, ap, subst, ℕ, ◌+◌, ◌-◌, ◌*◌, ◌≤◌, ◌<◌, ◌≡◌, refl, ◌∙◌, true, false, inl, inr, Option, none,
  some, List, [], ◌∷◌, arith, length, All,
}
use torvmremix.Config.Schema.{Config}
use torvmremix.Lifecycle.State.{State, code, put_attempts, create_tap}
use torvmremix.Lifecycle.Retry.{GoError, RetryPolicy, should_retry, default_retry_policy}
use torvmremix.Lifecycle.Engine.{Engine, new_engine, transition, activate, deactivate}
use torvmremix.Lifecycle.Handlers.{
  World, Handled, Outcome, continues, returned, on_error, enter, iterate, resume, run,
}
use torvmremix.Lifecycle.Turn.{
  Turn, Connects, unreachable, refused, connects, Stops, idle, stops, Restores, nothing_saved,
  restores, starts, flushes, stops_open, stops_closed, undoes, undoes_blocked, vm_dies,
}
use torvmremix.Lifecycle.Invariant.{
  Continues, by_success, by_error, iterate-Continues, IsInvariant, Leaves, Ends, iterate_keeps,
}
use torvmremix.Lifecycle.Graph

-- The attempts that the policy of a phase leaves.
pub budget : Option RetryPolicy → ℕ → ℕ
budget none n = 0
budget (some p) n = p.max_attempts - n

-- A number that falls with every turn: four for each phase that is still ahead, and one for each
-- attempt that is left.
pub measure : Engine → ℕ
unfolding budget
measure e = 4 * (13 - code e.state) + budget (e.retry_policy e.state) (e.attempts e.state)

default_budget : (s : State) (n : ℕ) → budget (default_retry_policy s) n ≤ 3
unfolding budget default_retry_policy
default_budget create_tap n = omega arith
default_budget s n = omega arith

Next-code : {s t : State} → Graph.Next s t → (code t ≡ code s + 1) × (code t ≤ 12)
Next-code n = go n
  where
    go : {s t : State} → Graph.Next s t → (code t ≡ code s + 1) × (code t ≤ 12)
    go Graph.start = omega arith
    go Graph.privileged = omega arith
    go Graph.saved = omega arith
    go Graph.created = omega arith
    go Graph.launched = omega arith
    go Graph.appeared = omega arith
    go Graph.routed = omega arith
    go Graph.flushed = omega arith
    go Graph.bootstrapped = omega arith
    go Graph.ended = omega arith
    go Graph.stopped = omega arith
    go Graph.restored = omega arith

Fallible-code : {s : State} → Graph.Fallible s → code s ≤ 8
Fallible-code Graph.in_save = omega arith
Fallible-code Graph.in_create = omega arith
Fallible-code Graph.in_launch = omega arith
Fallible-code Graph.in_wait_tap = omega arith
Fallible-code Graph.in_configure = omega arith
Fallible-code Graph.in_bootstrap = omega arith

-- A retry spends an attempt that the policy left.
retry_budget :
    (s : State) (x : Option GoError) (n : ℕ) (p : Option RetryPolicy) (rand : ℕ) (beyond : ℤ)
    → (should_retry s x n p rand beyond).0 ≡ true
    → budget p (n + 1) < budget p n
unfolding should_retry budget
retry_budget s x n none rand beyond h = cc
retry_budget s x n (some p) rand beyond h = ground arith

put_self : (m : State → ℕ) (s : State) (n : ℕ) → put_attempts m s n s ≡ n
unfolding put_attempts
put_self m s n = ground arith

on_error-policy :
    (e : Engine) (x : GoError) (w : World) → (on_error e x w).retry_policy ≡ e.retry_policy
unfolding on_error transition activate
on_error-policy e x w = ground arith

enter_undone : (e : Engine) (w : World) → w.ctx_done ≡ false → enter e w ≡ e
unfolding enter
enter_undone e w h = rw h

abbrev IsDefault : Engine → Type 0
IsDefault e = e.retry_policy ≡ default_retry_policy

Connects-policy : {e e' : Engine} → Connects e e' → e'.retry_policy ≡ e.retry_policy
Connects-policy unreachable = refl
Connects-policy refused = refl
Connects-policy connects = refl

Stops-policy : {e e' : Engine} → Stops e e' → e'.retry_policy ≡ e.retry_policy
Stops-policy idle = refl
Stops-policy stops = refl

Restores-policy : {e e' : Engine} → Restores e e' → e'.retry_policy ≡ e.retry_policy
Restores-policy (nothing_saved h) = refl
Restores-policy (restores s h) = refl

activate-policy : (e : Engine) → (activate e).retry_policy ≡ e.retry_policy
unfolding activate
activate-policy e = ground arith

IsDefault-turned :
    {s : State} {e : Engine} {h : Handled}
    → Turn s e h
    → e.state ≡ s
    → IsDefault e
    → Leaves IsDefault h
unfolding transition deactivate
IsDefault-turned starts q d = d
IsDefault-turned (flushes c) q d = Connects-policy c ∙ d
IsDefault-turned (stops_open h k) q d = Stops-policy k ∙ d
IsDefault-turned (stops_closed h k) q d = Stops-policy k ∙ d
IsDefault-turned (undoes k) q d = Restores-policy k ∙ d
IsDefault-turned (undoes_blocked k) q d = Restores-policy k ∙ activate-policy _ ∙ d
IsDefault-turned vm_dies q d = activate-policy _ ∙ d
IsDefault-turned _ q d = d

IsDefault-invariant : IsInvariant IsDefault
unfolding transition
IsDefault-invariant = record {
  stopped = λ e d. d;
  blocked = λ e d. activate-policy e ∙ d;
  counted = λ e m d. d;
  turned = IsDefault-turned;
}

measure_same :
    (e f : Engine)
    → f.state ≡ e.state
    → f.attempts ≡ e.attempts
    → f.retry_policy ≡ e.retry_policy
    → measure f ≡ measure e
unfolding measure
measure_same e f a b c = cc

measure-retry :
    (f : Engine)
    → budget (f.retry_policy f.state) (f.attempts f.state + 1)
      < budget (f.retry_policy f.state) (f.attempts f.state)
    → measure (record f { attempts = put_attempts f.attempts f.state (f.attempts f.state + 1) })
      < measure f
unfolding measure
measure-retry f h = rw (put_self f.attempts f.state (f.attempts f.state + 1)) (omega arith)

measure-le : (e : Engine) → IsDefault e → measure e ≤ 4 * (13 - code e.state) + 3
unfolding measure
measure-le e d = rw d (omega (arith, default_budget e.state (e.attempts e.state)))

measure-ge : (e : Engine) → 4 * (13 - code e.state) ≤ measure e
unfolding measure
measure-ge e = omega arith

measure-Continues :
    (e : Engine) (w : World) (e' : Engine)
    → IsDefault e'
    → Continues e w e'
    → measure e' < measure e
measure-Continues e w e' d (by_success t) =
    let n = Next-code (Graph.Turn-Follows t) in
    omega (arith, measure-le e' d, measure-ge e, n.0, n.1)
measure-Continues e w e' d (by_error f x t eq) =
    let i = Graph.Turn-Follows t in
    let same = measure_same e f i.same_phase i.same_attempts i.same_policy in
    let b = Fallible-code i.fallible in
    elim (Graph.on_error_cases f x w) [
      | inl (a, _, q) ↦
          rw (eq, q)
            (rw (← same) (
              measure-retry f
                (retry_budget f.state (some x) (f.attempts f.state) _ w.rand w.beyond a)))
      | inr (inl (_, _, q)) ↦
          omega
            (arith, measure-le e' d, measure-ge e, b, ap code (ap (λ (z : Engine). z.state) eq ∙ q))
      | inr (inr (_, q, _)) ↦
          omega
            (arith, measure-le e' d, measure-ge e, b, ap code (ap (λ (z : Engine). z.state) eq ∙ q))
    ]

-- A turn at whose head the context is not done brings the engine closer to its end, if it does not
-- end `Run`.
measure-iterate :
    (e : Engine) (w : World) (e' : Engine)
    → IsDefault e
    → w.ctx_done ≡ false
    → iterate e w ≡ continues e'
    → measure e' < measure e
measure-iterate e w e' d c h =
    go (enter e w) (enter_undone e w c)
      (subst (Ends IsDefault) h (iterate_keeps IsDefault IsDefault-invariant e w d))
      (iterate-Continues e w e' h)
  where
    go : (e₀ : Engine) → e₀ ≡ e → IsDefault e' → Continues e₀ w e' → measure e' < measure e
    go e₀ q d' k = rw (ap measure q) at (measure-Continues e₀ w e' d' k)

run_ends_within :
    (e : Engine) (ws : List World)
    → IsDefault e
    → All (λ (w : World). w.ctx_done ≡ false) ws
    → measure e < length ws
    → (e' : Engine) × (r : Option GoError) × (run e ws ≡ returned e' r)
unfolding run
run_ends_within e [] d c h = absurd (omega arith)
run_ends_within e (w ∷ ws) d c h =
    go (iterate e w) refl (λ e' d' m. run_ends_within e' ws d' c.1 (omega arith))
  where
    go :
        (o : Outcome)
        → iterate e w ≡ o
        → ((e' : Engine)
            → IsDefault e'
            → measure e' < measure e
            → (e'' : Engine) × (r : Option GoError) × (run e' ws ≡ returned e'' r))
        → (e'' : Engine) × (r : Option GoError) × (resume (iterate e w) (λ e'. run e' ws)
            ≡ returned e'' r)
    go (returned e' r) q rest = (e', r, rw q)
    go (continues e') q rest =
        let (e'', r, p) =
          rest e' (subst (Ends IsDefault) q (iterate_keeps IsDefault IsDefault-invariant e w d))
            (measure-iterate e w e' d c.0 q) in
        (e'', r, rw q p)

measure-new : (c : Config) → measure (new_engine c) < 56
unfolding measure new_engine budget default_retry_policy
measure-new c = omega arith

-- Whatever the VM, the network manager, Tor and the clock answer, a new engine returns from `Run`
-- within 56 turns of its loop, if the context is not done at the head of any of them.
pub run_ends :
    (c : Config) (ws : List World)
    → All (λ (w : World). w.ctx_done ≡ false) ws
    → 56 ≤ length ws
    → (e : Engine) × (r : Option GoError) × (run (new_engine c) ws ≡ returned e r)
unfolding new_engine
run_ends c ws u h = run_ends_within (new_engine c) ws refl u (omega (arith, measure-new c))
