-- ===== src/Logging/Ring.antt =====
-- controller/internal/logging/ringwriter.go: the ring of lines. The ring's mutex makes what each method
-- does with the ring one step. Write calls the callback only after it has unlocked that mutex, so the
-- calls are no part of the step: `write` gives the lines that they are still to be made with. The
-- logger (logging.go) holds a mutex of its own through each Write, which keeps the calls of one write
-- before those of the next. `none` is the panic of an index out of range.
use torvmremix.Base.{
  ℕ, zero, suc, ◌+◌, Bool, true, false, Option, none, some, List, [], ◌∷◌, ◌++◌, leb, if◌then◌else◌,
  take, drop, replicate, Bytes, split,
}

pub record RingWriter : Type 0 where
  pub lines : List Bytes
  pub capacity : ℕ
  pub pos : ℕ
  pub full : Bool
  pub has_callback : Bool
  pub partial : Bytes

unfoldable pub new_ring_writer : ℕ → RingWriter
new_ring_writer capacity = record {
  lines = replicate capacity [];
  capacity = capacity;
  pos = 0;
  full = false;
  has_callback = false;
  partial = [];
}

-- xs[i] = v
unfoldable pub assign : List Bytes → ℕ → Bytes → Option (List Bytes)
assign [] i v = none
assign (x ∷ xs) zero v = some (v ∷ xs)
assign (x ∷ xs) (suc i) v = elim (assign xs i v) [ none ↦ none | some ys ↦ some (x ∷ ys) ]

-- What the loop does with one complete line.
unfoldable pub store : RingWriter → Bytes → Option RingWriter
store r line = elim (assign r.lines r.pos line) [
  | none ↦ none
  | some ls ↦ some (
      if leb r.capacity (r.pos + 1)
      then record r { lines = ls; pos = 0; full = true }
      else record r { lines = ls; pos = r.pos + 1 })
]

-- The loop over the data, cut at its newlines: what is behind the last one is kept for later. The
-- second value lists the complete lines.
unfoldable pub store_all : RingWriter → List Bytes → Option (RingWriter × List Bytes)
store_all r [] = some (r, [])
store_all r (p ∷ []) = some (record r { partial = p }, [])
store_all r (p ∷ q ∷ ps) = elim (store r p) [
  | none ↦ none
  | some r' ↦ elim (store_all r' (q ∷ ps)) [ none ↦ none | some (r'', ls) ↦ some (r'', p ∷ ls) ]
]

-- Write: the ring when it is unlocked, and the lines that the callback, read under the lock, is called
-- with after that, in order.
unfoldable pub write : RingWriter → Bytes → Option (RingWriter × List Bytes)
write r p = elim (store_all (record r { partial = [] }) (split 10 (r.partial ++ p))) [
  | none ↦ none
  | some (r', ls) ↦ some (r', if r.has_callback then ls else [])
]

-- Lines: the stored lines, oldest first.
unfoldable pub lines : RingWriter → List Bytes
lines r = if r.full then drop r.pos r.lines ++ take r.pos r.lines else take r.pos r.lines

unfoldable pub on_line : RingWriter → RingWriter
on_line r = record r { has_callback = true }
