-- ===== src/Lifecycle/BrowserLaws.antt =====
-- The engine of the browser VM: what becomes of a run whose exit value another call has read.
use mathlib.Core.Option.{some-injective}
use torvmremix.Base.{
  ℕ, zero, suc, ◌<◌, ◌≤◌, ◌≡◌, refl, sym, subst, ◌∙◌, Bool, true, false, not, ◌&&◌, List, [], ◌∷◌,
  ◌++◌, ◌==◌, if◌then◌else◌, Option, none, some, get_elem?, arith, All, ap, Bool-cases, ◌⊎◌, inl,
  inr,
}
use torvmremix.Lifecycle.Browser.{
  RunPlace, entered, polling, launching, returned, waiting, closing, HandlerPlace, reported,
  pausing, relaunching, finished, ending, Run, Handler, Shared, BrowserEngine, Meets, sees_tor,
  starts_vm, receives, context_done, elapses, run_at, handler_at, wind_down, up_again, BrowserMove,
  start_called, launch_pressed, stop_pressed, process_ends, critical, run_turns, handler_turns,
  put_at, turn_run, turn_handler, end_process, advance, advance_all, read, is_idle, is_over,
  remediate,
}

-- What a turn does to the channels and the process: no channel gets a value, and a process that
-- runs then is an old one or has a new channel.
abbrev Later : Shared → Shared → Type 0
Later b c =
    ((k : ℕ) → b.held k ≡ false → c.held k ≡ false)
    × (b.channel ≤ c.channel)
    × (b.vm_running ≡ false → c.vm_running ≡ true → b.channel < c.channel)

same-Later : (b : Shared) → Later b b
same-Later b = (λ k h. h, omega arith, λ h k. absurd (ground arith))

read-Later : (n : ℕ) (b : Shared) → Later b (read n b)
read-Later n b = (λ k h. ground arith, omega arith, λ h k. absurd (ground arith))

up_again-Later : (b : Shared) → Later b (up_again b)
up_again-Later b = (λ k h. h, omega arith, λ h k. omega arith)

if-Later :
    {A : Type 0} (b : Shared) (t : Bool) (x y : A) (f : A → Shared)
    → Later b (f x)
    → Later b (f y)
    → Later b (f (if t then x else y))
if-Later b true x y f h k = h
if-Later b false x y f h k = k

wind_down-Later : (r : Run) (b c : Shared) → Later b c → Later b (wind_down r c).1
wind_down-Later r b c h = if-Later b c.vm_running _ _ (λ (t : Run × Shared). t.1) h h

run_at-Later :
    (place : RunPlace) (r : Run) (b : Shared) (m : Meets) → Later b (run_at place r b m).1
unfolding run_at
run_at-Later entered r b (sees_tor true) = same-Later b
run_at-Later entered r b (sees_tor false) = same-Later b
run_at-Later entered r b m = same-Later b
run_at-Later polling r b (sees_tor true) = same-Later b
run_at-Later polling r b context_done =
    if-Later b r.cancelled _ _ (λ (t : Run × Shared). t.1) (same-Later b) (same-Later b)
run_at-Later polling r b m = same-Later b
run_at-Later launching r b (starts_vm good) =
    if-Later b (good && not b.vm_running) _ _ (λ (t : Run × Shared). t.1) (up_again-Later b)
      (same-Later b)
run_at-Later launching r b m = same-Later b
run_at-Later returned r b m = same-Later b
run_at-Later (waiting n) r b receives =
    if-Later b (b.held n) _ _ (λ (t : Run × Shared). t.1)
      (wind_down-Later r b (read n b) (read-Later n b)) (same-Later b)
run_at-Later (waiting n) r b context_done =
    if-Later b r.cancelled _ _ (λ (t : Run × Shared). t.1) (wind_down-Later r b b (same-Later b))
      (same-Later b)
run_at-Later (waiting n) r b m = same-Later b
run_at-Later (closing n) r b receives =
    if-Later b (b.held n) _ _ (λ (t : Run × Shared). t.1) (read-Later n b) (same-Later b)
run_at-Later (closing n) r b elapses = same-Later b
run_at-Later (closing n) r b m = same-Later b

handler_at-Later :
    (auto over : Bool) (place : HandlerPlace) (b : Shared) (m : Meets)
    → Later b (handler_at auto over place b m).1
unfolding handler_at
handler_at-Later auto over reported b m = same-Later b
handler_at-Later auto over (ending n) b receives =
    if-Later b (b.held n) _ _ (λ (t : HandlerPlace × Shared). t.1) (read-Later n b) (same-Later b)
handler_at-Later auto over (ending n) b elapses = same-Later b
handler_at-Later auto over (ending n) b m = same-Later b
handler_at-Later auto over pausing b context_done = same-Later b
handler_at-Later auto over pausing b (sees_tor tor) =
    if-Later b tor _ _ (λ (t : HandlerPlace × Shared). t.1) (same-Later b) (same-Later b)
handler_at-Later auto over pausing b m = same-Later b
handler_at-Later auto over relaunching b (starts_vm good) =
    if-Later b (good && not b.vm_running) _ _ (λ (c : Shared). c) (up_again-Later b) (same-Later b)
handler_at-Later auto over relaunching b m = same-Later b
handler_at-Later auto over finished b m = same-Later b

get_elem?-front :
    {A : Type 0} (xs ys : List A) (i : ℕ) {x : A}
    → get_elem? xs i ≡ some x
    → get_elem? (xs ++ ys) i ≡ some x
get_elem?-front [] ys i h = absurd (cc)
get_elem?-front (y ∷ xs) ys zero h = h
get_elem?-front (y ∷ xs) ys (suc i) h = get_elem?-front xs ys i h

get_elem?-put_at-other :
    {A : Type 0} (xs : List A) (i j : ℕ) (v : A)
    → (j == i) ≡ false
    → get_elem? (put_at j v xs) i ≡ get_elem? xs i
get_elem?-put_at-other [] i j v h = refl
get_elem?-put_at-other (x ∷ xs) zero zero v h = absurd (ground arith)
get_elem?-put_at-other (x ∷ xs) zero (suc j) v h = refl
get_elem?-put_at-other (x ∷ xs) (suc i) zero v h = refl
get_elem?-put_at-other (x ∷ xs) (suc i) (suc j) v h = get_elem?-put_at-other xs i j v (ground arith)

get_elem?-put_at-here :
    {A : Type 0} (xs : List A) (i : ℕ) (v : A) {x : A}
    → get_elem? xs i ≡ some x
    → get_elem? (put_at i v xs) i ≡ some v
get_elem?-put_at-here [] i v h = absurd (cc)
get_elem?-put_at-here (x ∷ xs) zero v h = refl
get_elem?-put_at-here (x ∷ xs) (suc i) v h = get_elem?-put_at-here xs i v h

-- A run that waits for the value of a channel.
abbrev pub waiting_on : ℕ → Run
waiting_on n = record { place = waiting n; cancelled = false }

-- A run waits for the value of a channel that holds none, and none will come: the channel is an old
-- one, or no process runs.
record Deaf (i n : ℕ) (e : BrowserEngine) : Type 0 where
  waits : get_elem? e.runs i ≡ some (waiting_on n)
  empty : e.shared.held n ≡ false
  over : n ≤ e.shared.channel
  process : e.shared.vm_running ≡ true → n < e.shared.channel

Later-Deaf :
    (i n : ℕ) (e f : BrowserEngine)
    → Deaf i n e
    → Later e.shared f.shared
    → get_elem? f.runs i ≡ some (waiting_on n)
    → Deaf i n f
Later-Deaf i n e f deaf later waits = record {
  waits = waits;
  empty = later.0 n deaf.empty;
  over = omega (arith, deaf.over, later.1);
  process = λ h. elim (Bool-cases e.shared.vm_running) [
    | inl t ↦ omega (arith, deaf.process t, later.1)
    | inr t ↦ omega (arith, deaf.over, later.2 t h)
  ];
}

-- The run itself cannot go on.
waits-still :
    (n : ℕ) (b : Shared) (m : Meets)
    → b.held n ≡ false
    → (run_at (waiting n) (waiting_on n) b m).0 ≡ waiting_on n
unfolding run_at
waits-still n b (sees_tor t) h = refl
waits-still n b (starts_vm t) h = refl
waits-still n b receives h = rw h refl
waits-still n b context_done h = refl
waits-still n b elapses h = refl

turned :
    (e : BrowserEngine) (r : Run) (j n : ℕ) (m : Meets)
    → get_elem? e.runs j ≡ some r
    → e.shared.held n ≡ false
    → get_elem? e.runs j ≡ some (waiting_on n)
    → get_elem? (put_at j (run_at r.place r e.shared m).0 e.runs) j ≡ some (waiting_on n)
turned e r j n m h empty waits =
    let same = some-injective (waiting_on n) r (sym waits ∙ h) in
    subst
      (λ (s : Run).
        get_elem? (put_at j (run_at s.place s e.shared m).0 e.runs) j ≡ some (waiting_on n))
      same (get_elem?-put_at-here e.runs j _ waits ∙ ap some (waits-still n e.shared m empty))

turn_run-Deaf :
    (i n : ℕ) (e : BrowserEngine) (j : ℕ) (o : Option Run) (m : Meets)
    → get_elem? e.runs j ≡ o
    → Deaf i n e
    → Deaf i n (turn_run e j o m)
turn_run-Deaf i n e j none m h deaf = deaf
turn_run-Deaf i n e j (some r) m h deaf =
    Later-Deaf i n e _ deaf (run_at-Later r.place r e.shared m) (at (Bool-cases (j == i)))
  where
    at :
        ((j == i) ≡ true) ⊎ ((j == i) ≡ false)
        → get_elem? (put_at j (run_at r.place r e.shared m).0 e.runs) i ≡ some (waiting_on n)
    at (inr other) = get_elem?-put_at-other e.runs i j _ other ∙ deaf.waits
    at (inl same) =
        subst
          (λ k. get_elem? (put_at j (run_at r.place r e.shared m).0 e.runs) k ≡ some (waiting_on n))
          (ground arith)
          (turned e r j n m h deaf.empty
            (subst (λ k. get_elem? e.runs k ≡ some (waiting_on n)) (ground arith) deaf.waits))

-- Neither the window's button nor the end of Tor stops the browser.
abbrev pub is_stop : BrowserMove → Bool
is_stop stop_pressed = true
is_stop _ = false

ended-empty :
    (n : ℕ) (b : Shared)
    → b.held n ≡ false
    → (b.vm_running ≡ true → n < b.channel)
    → (end_process b).held n ≡ false
ended-empty n b h k = ground arith

advance-Deaf :
    (auto : Bool) (i n : ℕ) (e : BrowserEngine) (x : BrowserMove)
    → is_stop x ≡ false
    → Deaf i n e
    → Deaf i n (advance auto e x)
unfolding advance
advance-Deaf auto i n e start_called h deaf =
    Later-Deaf i n e _ deaf (same-Later e.shared) (get_elem?-front e.runs _ i deaf.waits)
advance-Deaf auto i n e (launch_pressed tor) h deaf =
    elim (Bool-cases (is_idle e.shared.state && tor)) [
      | inl t ↦
          rw t
            (Later-Deaf i n e _ deaf (same-Later e.shared) (get_elem?-front e.runs _ i deaf.waits))
      | inr t ↦ rw t deaf
    ]
advance-Deaf auto i n e stop_pressed h deaf = absurd (cc)
advance-Deaf auto i n e process_ends h deaf = record {
  waits = deaf.waits;
  empty = ended-empty n e.shared deaf.empty deaf.process;
  over = ground (arith, deaf.over);
  process = λ k. ground (arith, deaf.process);
}
advance-Deaf auto i n e (critical k) h deaf =
    Later-Deaf i n e _ deaf (same-Later e.shared) deaf.waits
advance-Deaf auto i n e (run_turns j m) h deaf =
    turn_run-Deaf i n e j (get_elem? e.runs j) m refl deaf
advance-Deaf auto i n e (handler_turns j m) h deaf = turn_handler-Deaf (get_elem? e.handlers j)
  where
    turn_handler-Deaf : (o : Option Handler) → Deaf i n (turn_handler auto e j o m)
    turn_handler-Deaf none = deaf
    turn_handler-Deaf (some k) =
        Later-Deaf i n e _ deaf
          (handler_at-Later auto (is_over (get_elem? e.runs k.owner)) k.place e.shared m) deaf.waits

advance_all-Deaf :
    (auto : Bool) (i n : ℕ) (xs : List BrowserMove) (e : BrowserEngine)
    → All (λ x. is_stop x ≡ false) xs
    → Deaf i n e
    → Deaf i n (advance_all auto e xs)
unfolding advance_all
advance_all-Deaf auto i n [] e all deaf = deaf
advance_all-Deaf auto i n (x ∷ xs) e all deaf =
    advance_all-Deaf auto i n xs (advance auto e x) all.1 (advance-Deaf auto i n e x all.0 deaf)

-- A handler in Stop, of the observer of a run.
abbrev pub ending_on : ℕ → ℕ → Handler
ending_on n o = record { place = ending n; owner = o }

stolen-Deaf :
    (auto : Bool) (e : BrowserEngine) (i j n o : ℕ)
    → get_elem? e.runs i ≡ some (waiting_on n)
    → e.shared.held n ≡ true
    → e.shared.vm_running ≡ false
    → n ≤ e.shared.channel
    → Deaf i n (turn_handler auto e j (some (ending_on n o)) receives)
unfolding handler_at
stolen-Deaf auto e i j n o waits held still over =
    let t : handler_at auto (is_over (get_elem? e.runs o)) (ending n) e.shared receives
        ≡ (remediate auto, read n e.shared) =
      rw held refl in
    subst
      (λ (t : HandlerPlace × Shared). Deaf i n (record e {
        shared = t.1;
        handlers = put_at j (record { place = t.0; owner = o }) e.handlers;
      }))
      (sym t)
      record {
        waits = waits;
        empty = ground arith;
        over = over;
        process = λ h. absurd (ground arith);
      }

-- A handler that stops the VM and reads the end of its process takes it from the run that waits for
-- it: whatever happens then, a restart of the VM included, the run waits on, unless the window's
-- stop is pressed. The handler and the run read the same channel, which holds the value, and the
-- process has ended.
pub stolen_exit :
    (auto : Bool) (e : BrowserEngine) (i j n o : ℕ) (xs : List BrowserMove)
    → get_elem? e.runs i ≡ some (waiting_on n)
    → get_elem? e.handlers j ≡ some (ending_on n o)
    → e.shared.held n ≡ true
    → e.shared.vm_running ≡ false
    → n ≤ e.shared.channel
    → All (λ x. is_stop x ≡ false) xs
    → get_elem? (advance_all auto e (handler_turns j receives ∷ xs)).runs i ≡ some (waiting_on n)
unfolding advance_all advance
stolen_exit auto e i j n o xs waits at held still over all =
    (advance_all-Deaf auto i n xs (advance auto e (handler_turns j receives)) all (
      subst (λ h. Deaf i n (turn_handler auto e j h receives)) (sym at)
        (stolen-Deaf auto e i j n o waits held still over))).waits
