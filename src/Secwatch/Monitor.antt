-- ===== src/Secwatch/Monitor.antt =====
-- controller/internal/secwatch: the monitor (monitor.go) and its events (events.go). Each Start runs one more
-- loop, and the loops take turns in any order: a turn goes to the next place where the loop waits or
-- looks at what it shares with others. Texts of the log are left out.
use torvmremix.Base.{
  ℕ, zero, suc, ◌-◌, ◌*◌, Bool, true, false, Option, none, some, List, [], ◌∷◌, ◌++◌, ℤ, length,
  drop, map, ltb, min, get_elem?, if◌then◌else◌, Bytes, bytes, eq_bytes,
}

pub record SecurityEvent : Type 0 where
  pub kind : Bytes
  pub severity : Bytes
  pub detail : Bytes
  pub pid : ℤ
  pub remediation : Bytes
  pub timestamp : ℤ

unfoldable pub is_critical : SecurityEvent → Bool
is_critical e = eq_bytes e.severity (bytes "critical")

-- Where a loop stands: at its head, after a failed connection, in the scan of a connection, with
-- an event that it has read, or returned. The numbers are the seconds of the backoff.
pub data LoopPlace : Type 0 where
  head waiting : ℕ → LoopPlace
  scanning ended : LoopPlace
  holding : SecurityEvent → LoopPlace

pub record Monitor : Type 0 where
  pub observers : List ℕ
  pub done : Bool
  pub events : List SecurityEvent
  pub loops : List LoopPlace

unfoldable pub new_monitor : Monitor
new_monitor = record { observers = []; done = false; events = []; loops = [] }

-- What a turn meets: the end of a dial, a line of the scanner with the event that it encodes, if
-- it does, the end of its input, or the end of a backoff.
pub data Input : Type 0 where
  dialled : Bool → Input
  scanned : Option SecurityEvent → Input
  closed elapsed : Input

unfoldable pub max_event_history : ℕ
max_event_history = 100

unfoldable pub trimmed : List SecurityEvent → List SecurityEvent
trimmed events =
    if ltb max_event_history (length events)
    then drop (length events - max_event_history) events
    else events

abbrev pub dial : ℕ → Input → LoopPlace
dial backoff (dialled true) = scanning
dial backoff (dialled false) = waiting backoff
dial backoff _ = head backoff

-- A line that is no event is passed over.
abbrev pub scan : Bool → Input → LoopPlace
scan done closed = head 1
scan true (scanned line) = head 1
scan false (scanned none) = scanning
scan false (scanned (some e)) = holding e
scan done _ = scanning

-- Where the turn leads.
unfoldable pub next_place : Bool → LoopPlace → Input → LoopPlace
next_place true (head backoff) i = ended
next_place false (head backoff) i = dial backoff i
next_place done (waiting backoff) elapsed = head (min (backoff * 2) 10)
next_place true (waiting backoff) _ = ended
next_place false (waiting backoff) _ = waiting backoff
next_place done scanning i = scan done i
next_place done (holding e) i = scanning
next_place done ended i = ended

abbrev pub Call : Type 0
Call = ℕ × SecurityEvent

-- The events that the turn takes up: they are kept, and the observers are called with them.
unfoldable pub taken : LoopPlace → List SecurityEvent
taken (holding e) = e ∷ []
taken _ = []

unfoldable pub put_place : ℕ → LoopPlace → List LoopPlace → List LoopPlace
put_place i p [] = []
put_place zero p (q ∷ ps) = p ∷ ps
put_place (suc i) p (q ∷ ps) = q ∷ put_place i p ps

unfoldable pub remember : List SecurityEvent → LoopPlace → List SecurityEvent
remember events (holding e) = trimmed (events ++ (e ∷ []))
remember events _ = events

unfoldable pub calls_for : List ℕ → LoopPlace → List Call
calls_for observers (holding e) = map (λ fn. (fn, e)) observers
calls_for observers _ = []

unfoldable pub turn_at : Monitor → ℕ → LoopPlace → Input → Monitor × List Call
turn_at m i p input = (
  record m {
    events = remember m.events p;
    loops = put_place i (next_place m.done p input) m.loops;
  },
  calls_for m.observers p,
)

-- A call of a method, or a turn of one of the loops.
pub data Action : Type 0 where
  subscribes : ℕ → Action
  starts stops : Action
  turns : ℕ → Input → Action

unfoldable pub act : Monitor → Action → Monitor × List Call
act m (subscribes fn) = (record m { observers = m.observers ++ (fn ∷ []) }, [])
act m starts = (record m { loops = m.loops ++ (head 1 ∷ []) }, [])
act m stops = (record m { done = true }, [])
act m (turns i input) = elim (get_elem? m.loops i) [ none ↦ (m, []) | some p ↦ turn_at m i p input ]

unfoldable pub run_actions : Monitor → List Action → Monitor × List Call
run_actions m [] = (m, [])
run_actions m (a ∷ actions) =
    let (m', calls) = act m a in let (m'', more) = run_actions m' actions in (m'', calls ++ more)
