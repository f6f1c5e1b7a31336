-- ===== src/Lifecycle/BrowserWait.antt =====
-- The engine of the browser VM: what becomes of a run that is cancelled while it waits for Tor.
use mathlib.Core.Option.{some-injective}
use torvmremix.Base.{
  ℕ, zero, suc, ◌≡◌, refl, sym, subst, Bool, true, false, ◌&&◌, List, [], ◌∷◌, Option, none, some,
  get_elem?, arith, All,
}
use torvmremix.Lifecycle.Browser.{
  waiting_for_tor, polling, returned, HandlerPlace, finished, Run, Handler, Shared, BrowserEngine,
  Meets, context_done, run_at, handler_at, BrowserMove, start_called, launch_pressed, stop_pressed,
  process_ends, critical, run_turns, handler_turns, put_at, turn_run, turn_handler, advance,
  advance_all, is_idle, is_over, cancel_last,
}

-- Nothing is under way, and the state is that of a wait for Tor.
record Stuck (e : BrowserEngine) : Type 0 where
  state : e.shared.state ≡ waiting_for_tor
  runs : All (λ (r : Run). r.place ≡ returned) e.runs
  handlers : All (λ (h : Handler). h.place ≡ finished) e.handlers

-- Neither a Start from outside the window nor an event of the monitor.
abbrev pub is_calm : BrowserMove → Bool
is_calm start_called = false
is_calm (critical i) = false
is_calm _ = true

cancel_last-All :
    (rs : List Run)
    → All (λ (r : Run). r.place ≡ returned) rs
    → All (λ (r : Run). r.place ≡ returned) (cancel_last rs)
cancel_last-All [] h = h
cancel_last-All (r ∷ []) h = h
cancel_last-All (r ∷ s ∷ rs) h = (h.0, cancel_last-All (s ∷ rs) h.1)

All-get_elem? :
    {A : Type 0} (P : A → Type 0) (xs : List A) (i : ℕ) {x : A}
    → All P xs
    → get_elem? xs i ≡ some x
    → P x
All-get_elem? P [] i h e = absurd (cc)
All-get_elem? P (y ∷ xs) zero {x} h e = subst P (some-injective y x e) h.0
All-get_elem? P (y ∷ xs) (suc i) h e = All-get_elem? P xs i h.1 e

All-put_at :
    {A : Type 0} (P : A → Type 0) (xs : List A) (i : ℕ) (v : A)
    → All P xs
    → P v
    → All P (put_at i v xs)
All-put_at P [] i v h p = h
All-put_at P (x ∷ xs) zero v h p = (p, h.1)
All-put_at P (x ∷ xs) (suc i) v h p = (h.0, All-put_at P xs i v h.1 p)

run_returned :
    (r : Run) (b : Shared) (m : Meets) → r.place ≡ returned → run_at r.place r b m ≡ (r, b)
unfolding run_at
run_returned r b m h = rw h refl

handler_finished :
    (auto over : Bool) (h : Handler) (b : Shared) (m : Meets)
    → h.place ≡ finished
    → handler_at auto over h.place b m ≡ (h.place, b)
unfolding handler_at
handler_finished auto over h b m e = rw e refl

turn_run-Stuck :
    (e : BrowserEngine) (i : ℕ) (m : Meets) (o : Option Run)
    → get_elem? e.runs i ≡ o
    → Stuck e
    → Stuck (turn_run e i o m)
turn_run-Stuck e i m none h s = s
turn_run-Stuck e i m (some r) h s =
    let back = All-get_elem? (λ (k : Run). k.place ≡ returned) e.runs i s.runs h in
    subst (λ (t : Run × Shared). Stuck (record e { shared = t.1; runs = put_at i t.0 e.runs }))
      (sym (run_returned r e.shared m back))
      record {
        state = s.state;
        runs = All-put_at (λ (k : Run). k.place ≡ returned) e.runs i r s.runs back;
        handlers = s.handlers;
      }

turn_handler-Stuck :
    (auto : Bool) (e : BrowserEngine) (i : ℕ) (m : Meets) (o : Option Handler)
    → get_elem? e.handlers i ≡ o
    → Stuck e
    → Stuck (turn_handler auto e i o m)
turn_handler-Stuck auto e i m none h s = s
turn_handler-Stuck auto e i m (some k) h s =
    let back = All-get_elem? (λ (g : Handler). g.place ≡ finished) e.handlers i s.handlers h in
    subst
      (λ (t : HandlerPlace × Shared).
        Stuck
          (record e { shared = t.1; handlers = put_at i (record k { place = t.0 }) e.handlers }))
      (sym (handler_finished auto (is_over (get_elem? e.runs k.owner)) k e.shared m back))
      record {
        state = s.state;
        runs = s.runs;
        handlers = All-put_at (λ (g : Handler). g.place ≡ finished) e.handlers i k s.handlers back;
      }

advance-Stuck :
    (auto : Bool) (e : BrowserEngine) (x : BrowserMove)
    → is_calm x ≡ true
    → Stuck e
    → Stuck (advance auto e x)
unfolding advance
advance-Stuck auto e start_called h s = absurd (cc)
advance-Stuck auto e (launch_pressed tor) h s =
    let t : (is_idle e.shared.state && tor) ≡ false = ground (arith, s.state) in rw t s
advance-Stuck auto e stop_pressed h s = record {
  state = s.state;
  runs = cancel_last-All e.runs s.runs;
  handlers = s.handlers;
}
advance-Stuck auto e process_ends h s = record {
  state = ground (arith, s.state);
  runs = s.runs;
  handlers = s.handlers;
}
advance-Stuck auto e (critical i) h s = absurd (cc)
advance-Stuck auto e (run_turns i m) h s = turn_run-Stuck e i m (get_elem? e.runs i) refl s
advance-Stuck auto e (handler_turns i m) h s =
    turn_handler-Stuck auto e i m (get_elem? e.handlers i) refl s

advance_all-Stuck :
    (auto : Bool) (xs : List BrowserMove) (e : BrowserEngine)
    → All (λ x. is_calm x ≡ true) xs
    → Stuck e
    → Stuck (advance_all auto e xs)
unfolding advance_all
advance_all-Stuck auto [] e all s = s
advance_all-Stuck auto (x ∷ xs) e all s =
    advance_all-Stuck auto xs (advance auto e x) all.1 (advance-Stuck auto e x all.0 s)

-- A run that has ended.
abbrev pub over_run : Run
over_run = record { place = returned; cancelled = true }

-- A run that is cancelled while it waits for Tor, when nothing else is under way, leaves the state of
-- that wait: whatever is pressed in the window, and however Tor does, the state stays and no run is
-- under way. No Start from outside the window is called, and no event of the monitor comes.
pub cancelled_wait :
    (auto : Bool) (e : BrowserEngine) (i : ℕ) (xs : List BrowserMove)
    → e.shared.state ≡ waiting_for_tor
    → get_elem? e.runs i ≡ some (record { place = polling; cancelled = true })
    → All (λ (r : Run). r.place ≡ returned) (put_at i over_run e.runs)
    → All (λ (h : Handler). h.place ≡ finished) e.handlers
    → All (λ x. is_calm x ≡ true) xs
    → ((advance_all auto e (run_turns i context_done ∷ xs)).shared.state ≡ waiting_for_tor)
      × All
          (λ (r : Run). r.place ≡ returned)
          (advance_all auto e (run_turns i context_done ∷ xs)).runs
unfolding advance_all advance run_at
cancelled_wait auto e i xs state polls others handlers calm =
    let s = advance_all-Stuck auto xs (turn_run e i (get_elem? e.runs i) context_done) calm (
      subst (λ o. Stuck (turn_run e i o context_done)) (sym polls)
        record { state = state; runs = others; handlers = handlers }) in
    (s.state, s.runs)
