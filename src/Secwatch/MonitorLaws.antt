-- ===== src/Secwatch/MonitorLaws.antt =====
-- What the monitor of controller/internal/secwatch/monitor.go keeps and tells, whatever turns its loops take.
use torvmremix.Base.{
  ℕ, zero, suc, ◌≤◌, ◌≡◌, refl, sym, ap, ◌∙◌, subst, true, Option, none, some, List, [], ◌∷◌, ◌++◌,
  append_assoc, append-nil, length, get_elem?, All, arith,
}
use torvmremix.Secwatch.Monitor.{
  SecurityEvent, LoopPlace, head, waiting, scanning, ended, holding, Monitor, Input, dialled,
  scanned, closed, elapsed, next_place, taken, new_monitor, put_place, remember, calls_for, turn_at,
  Action, subscribes, starts, stops, turns, act, run_actions, Call,
}
use torvmremix.Secwatch.Recent.{last_of, trimmed-snoc, length-last_of}

-- A loop that holds no event.
unfoldable pub Idle : LoopPlace → Type 0
Idle (holding e) = ⊥
Idle _ = Unit {0}

-- A stopped monitor none of whose loops holds an event.
abbrev pub Stopped : Monitor → Type 0
Stopped m = (m.done ≡ true) × All Idle m.loops

next_place-Idle : (p : LoopPlace) (i : Input) → Idle (next_place true p i)
unfolding Idle next_place
next_place-Idle (head b) i = tt
next_place-Idle (waiting b) elapsed = tt
next_place-Idle (waiting b) (dialled c) = tt
next_place-Idle (waiting b) (scanned l) = tt
next_place-Idle (waiting b) closed = tt
next_place-Idle scanning elapsed = tt
next_place-Idle scanning (dialled c) = tt
next_place-Idle scanning (scanned l) = tt
next_place-Idle scanning closed = tt
next_place-Idle ended i = tt
next_place-Idle (holding e) i = tt

put_place-Idle :
    (i : ℕ) (p : LoopPlace) (ps : List LoopPlace)
    → Idle p
    → All Idle ps
    → All Idle (put_place i p ps)
unfolding put_place
put_place-Idle i p [] h k = tt
put_place-Idle zero p (q ∷ ps) h k = (h, k.1)
put_place-Idle (suc i) p (q ∷ ps) h k = (k.0, put_place-Idle i p ps h k.1)

at-Idle :
    (ps : List LoopPlace) (i : ℕ) (p : LoopPlace) → All Idle ps → get_elem? ps i ≡ some p → Idle p
at-Idle [] i p h k = absurd (cc)
at-Idle (q ∷ ps) zero p h k = subst Idle (grind (arith, k)) h.0
at-Idle (q ∷ ps) (suc i) p h k = at-Idle ps i p h.1 k

-- What does not change.
abbrev Quiet : Monitor → Monitor × List Call → Type 0
Quiet m r = Stopped r.0 × (r.0.events ≡ m.events) × (r.1 ≡ [])

turn_at-Quiet :
    (m : Monitor) (i : ℕ) (p : LoopPlace) (input : Input)
    → Stopped m
    → Idle p
    → Quiet m (turn_at m i p input)
unfolding turn_at Idle remember calls_for
turn_at-Quiet m i p input (d, h) k = (
  (d, put_place-Idle i (next_place m.done p input) m.loops (rw d (next_place-Idle p input)) h),
  kept p k,
  silent p k,
)
  where
    kept : (q : LoopPlace) → Idle q → remember m.events q ≡ m.events
    kept (head b) l = refl
    kept (waiting b) l = refl
    kept scanning l = refl
    kept ended l = refl
    kept (holding e) l = absurd l

    silent : (q : LoopPlace) → Idle q → calls_for m.observers q ≡ []
    silent (head b) l = refl
    silent (waiting b) l = refl
    silent scanning l = refl
    silent ended l = refl
    silent (holding e) l = absurd l

All-snoc : (ps : List LoopPlace) (p : LoopPlace) → All Idle ps → Idle p → All Idle (ps ++ (p ∷ []))
All-snoc [] p h k = (k, tt)
All-snoc (q ∷ ps) p h k = (h.0, All-snoc ps p h.1 k)

act-Quiet : (m : Monitor) (a : Action) → Stopped m → Quiet m (act m a)
unfolding act
act-Quiet m (subscribes fn) h = (h, refl, refl)
act-Quiet m starts h = ((h.0, All-snoc m.loops (head 1) h.1 (unfold Idle in tt)), refl, refl)
act-Quiet m stops h = ((refl, h.1), refl, refl)
act-Quiet m (turns i input) h = go (get_elem? m.loops i) refl
  where
    go :
        (o : Option LoopPlace)
        → get_elem? m.loops i ≡ o
        → Quiet m (elim o [ none ↦ (m, []) | some p ↦ turn_at m i p input ])
    go none k = (h, refl, refl)
    go (some p) k = turn_at-Quiet m i p input h (at-Idle m.loops i p h.1 k)

-- Once it is stopped and no loop is left with an event in its hands, a monitor records nothing more and calls
-- no observer, whatever is done with it: a new Start does not make it hear again.
pub stopped_monitor_silent :
    (m : Monitor) (actions : List Action)
    → m.done ≡ true
    → All Idle m.loops
    → ((run_actions m actions).0.events ≡ m.events) × ((run_actions m actions).1 ≡ [])
unfolding run_actions
stopped_monitor_silent m [] d h = (refl, refl)
stopped_monitor_silent m (a ∷ actions) d h =
    let ((d', h'), e, c) = act-Quiet m a (d, h) in
    let (e', c') = stopped_monitor_silent (act m a).0 actions d' h' in (e' ∙ e, rw (c, c') refl)

-- The events that are taken up, in the order of the turns.
abbrev pub taken_by : Monitor → Action → List SecurityEvent
taken_by m (turns i input) = elim (get_elem? m.loops i) [ none ↦ [] | some p ↦ taken p ]
taken_by m _ = []

unfoldable pub all_taken : Monitor → List Action → List SecurityEvent
all_taken m [] = []
all_taken m (a ∷ actions) = taken_by m a ++ all_taken (act m a).0 actions

-- An event that is taken up is kept behind the others.
remember-last_of :
    (h : List SecurityEvent) (p : LoopPlace) → remember (last_of h) p ≡ last_of (h ++ taken p)
unfolding remember taken
remember-last_of h (head b) = ap last_of (sym (append-nil h))
remember-last_of h (waiting b) = ap last_of (sym (append-nil h))
remember-last_of h scanning = ap last_of (sym (append-nil h))
remember-last_of h ended = ap last_of (sym (append-nil h))
remember-last_of h (holding e) = trimmed-snoc h e

act-last_of :
    (h : List SecurityEvent) (m : Monitor) (a : Action)
    → m.events ≡ last_of h
    → (act m a).0.events ≡ last_of (h ++ taken_by m a)
unfolding act turn_at
act-last_of h m (subscribes fn) e = e ∙ ap last_of (sym (append-nil h))
act-last_of h m starts e = e ∙ ap last_of (sym (append-nil h))
act-last_of h m stops e = e ∙ ap last_of (sym (append-nil h))
act-last_of h m (turns i input) e = go (get_elem? m.loops i)
  where
    go :
        (o : Option LoopPlace)
        → let r : Monitor × List Call = elim o [ none ↦ (m, []) | some p ↦ turn_at m i p input ] in
          r.0.events ≡ last_of (h ++ (elim o [ none ↦ [] | some p ↦ taken p ]))
    go none = e ∙ ap last_of (sym (append-nil h))
    go (some p) = ap (λ es. remember es p) e ∙ remember-last_of h p

run_actions-last_of :
    (h : List SecurityEvent) (m : Monitor) (actions : List Action)
    → m.events ≡ last_of h
    → (run_actions m actions).0.events ≡ last_of (h ++ all_taken m actions)
unfolding run_actions all_taken
run_actions-last_of h m [] e = e ∙ ap last_of (sym (append-nil h))
run_actions-last_of h m (a ∷ actions) e =
    run_actions-last_of (h ++ taken_by m a) (act m a).0 actions (act-last_of h m a e)
    ∙ ap last_of (append_assoc h (taken_by m a) (all_taken (act m a).0 actions))

-- Whatever is done with a new monitor, and in whatever order its loops take their turns, it keeps
-- the last hundred of the events that its loops have taken up, and no more.
pub run_actions-recent :
    (actions : List Action)
    → let kept = (run_actions new_monitor actions).0.events in
      (kept ≡ last_of (all_taken new_monitor actions)) × (length kept ≤ 100)
unfolding new_monitor
run_actions-recent actions =
    let e = run_actions-last_of [] new_monitor actions refl in
    (e, subst (λ es. length es ≤ 100) (sym e) (length-last_of (all_taken new_monitor actions)))
