-- ===== src/Lifecycle/Invariant.antt =====
-- The rule by which a property of the engine of controller/internal/lifecycle holds after any
-- number of turns of `Run`.
use torvmremix.Base.{
  ◌+◌, ◌≡◌, refl, subst, Bool, true, false, inl, inr, Option, none, some, List, [], ◌∷◌, arith,
  Bool-cases, if◌then◌else◌,
}
use torvmremix.Lifecycle.State.{State, shutdown, Attempts, put_attempts}
use torvmremix.Lifecycle.Retry.{GoError, should_retry}
use torvmremix.Lifecycle.Engine.{Engine, transition, activate}
use torvmremix.Lifecycle.Handlers.{
  World, Handled, returns, done, Outcome, continues, returned, on_error, after, enter, iterate,
  resume, run,
}
use torvmremix.Lifecycle.Turn.{Turn, handle-Turn}

abbrev pub Leaves : (Engine → Type 0) → Handled → Type 0
Leaves P (returns e r) = P e
Leaves P (done e r) = P e

abbrev pub Ends : (Engine → Type 0) → Outcome → Type 0
Ends P (continues e) = P e
Ends P (returned e r) = P e

-- What every move of the engine keeps: a transition to the shutdown, one behind the failsafe, the count of an
-- attempt, and each handler.
pub record IsInvariant (P : Engine → Type 0) : Type 0 where
  pub stopped : (e : Engine) → P e → P (transition e shutdown)
  pub blocked : (e : Engine) → P e → P (transition (activate e) shutdown)
  pub counted : (e : Engine) (m : Attempts) → P e → P (record e { attempts = m })
  pub turned : {s : State} {e : Engine} {h : Handled} → Turn s e h → e.state ≡ s → P e → Leaves P h

module _ (P : Engine → Type 0) (i : IsInvariant P) where
  enter_keeps : (e : Engine) (w : World) → P e → P (enter e w)
  unfolding enter
  enter_keeps e w p = elim (Bool-cases w.ctx_done) [ inl h ↦ rw h (i.stopped e p) | inr h ↦ rw h p ]

  on_error_keeps : (e : Engine) (x : GoError) (w : World) → P e → P (on_error e x w)
  unfolding on_error
  on_error_keeps e x w p =
      go
        (should_retry e.state (some x) (e.attempts e.state) (e.retry_policy e.state) w.rand
          w.beyond).0
        w.ctx_done_in_delay
    where
      m : Attempts
      m = put_attempts e.attempts e.state (e.attempts e.state + 1)

      go :
          (b c : Bool)
          → P (
              if b
              then (if c
                  then transition (record e { attempts = m }) shutdown
                  else record e { attempts = m })
              else transition (activate e) shutdown)
      go true true = i.stopped _ (i.counted e m p)
      go true false = i.counted e m p
      go false c = i.blocked e p

  after_keeps : (h : Handled) (w : World) → Leaves P h → Ends P (after h w)
  unfolding after
  after_keeps (returns e r) w p = p
  after_keeps (done e none) w p = p
  after_keeps (done e (some x)) w p = on_error_keeps e x w p

  pub iterate_keeps : (e : Engine) (w : World) → P e → Ends P (iterate e w)
  unfolding iterate
  iterate_keeps e w p =
      after_keeps _ w (i.turned (handle-Turn _ (enter e w) w) refl (enter_keeps e w p))

  resume_keeps :
      (o : Outcome) (f : Engine → Outcome)
      → Ends P o
      → ((e : Engine) → P e → Ends P (f e))
      → Ends P (resume o f)
  resume_keeps (continues e) f p k = k e p
  resume_keeps (returned e r) f p k = p

  pub run_keeps : (e : Engine) (ws : List World) → P e → Ends P (run e ws)
  unfolding run
  run_keeps e [] p = p
  run_keeps e (w ∷ ws) p =
      resume_keeps (iterate e w) _ (iterate_keeps e w p) (λ e' p'. run_keeps e' ws p')

-- What a turn does that does not end `Run`: a handler succeeds, or its error is dealt with.
pub data Continues (e : Engine) (w : World) (e' : Engine) : Type 0 where
  by_success : Turn e.state e (done e' none) → Continues e w e'
  by_error :
      (f : Engine) (x : GoError)
      → Turn e.state e (done f (some x))
      → e' ≡ on_error f x w
      → Continues e w e'

after-Continues :
    (e : Engine) (w : World) (h : Handled)
    → Turn e.state e h
    → (e' : Engine) → after h w ≡ continues e'
    → Continues e w e'
unfolding after
after-Continues e w (returns f r) t e' h = absurd (cc)
after-Continues e w (done f none) t e' h =
    by_success (subst (λ z. Turn e.state e (done z none)) (ground arith) t)
after-Continues e w (done f (some x)) t e' h = by_error f x t (ground arith)

pub iterate-Continues :
    (e : Engine) (w : World) (e' : Engine) → iterate e w ≡ continues e' → Continues (enter e w) w e'
unfolding iterate
iterate-Continues e w e' h = after-Continues (enter e w) w _ (handle-Turn _ (enter e w) w) e' h

after-returned :
    (e : Engine) (w : World) (h : Handled)
    → Turn e.state e h
    → (e' : Engine) (r : Option GoError) → after h w ≡ returned e' r
    → Turn e.state e (returns e' r)
unfolding after
after-returned e w (returns f q) t e' r h = subst (λ z. Turn e.state e z) (ground arith) t
after-returned e w (done f none) t e' r h = absurd (cc)
after-returned e w (done f (some x)) t e' r h = absurd (cc)

-- What a turn does that ends `Run`.
pub iterate-returned :
    (e : Engine) (w : World) (e' : Engine) (r : Option GoError)
    → iterate e w ≡ returned e' r
    → let e₀ = enter e w in Turn e₀.state e₀ (returns e' r)
unfolding iterate
iterate-returned e w e' r h = after-returned (enter e w) w _ (handle-Turn _ (enter e w) w) e' r h
