-- ===== src/Logging/Writes.antt =====
-- The ring of controller/internal/logging/ringwriter.go after any sequence of writes.
use torvmremix.Base.{
  ℕ, zero, suc, ◌<◌, ◌≡◌, refl, ap, ◌∙◌, sym, subst, true, Option, none, some, List, [], ◌∷◌, ◌++◌,
  append_assoc, append-nil, arith, Bytes, split, length, take, drop, replicate, if◌then◌else◌,
  Bool-cases, inl, inr,
}
use torvmremix.Logging.Ring.{RingWriter, new_ring_writer, store_all, write, lines, on_line}
use torvmremix.Logging.Parts.{
  complete, rest_of, whole_lines, open_line, split-cons, whole_lines-append, open_line-append,
}
use torvmremix.Logging.History.{recent, recent-all, Stores, store-Stores}

-- The ring stores the complete lines of what was written, and the text behind them.
record Holds (limit : ℕ) (s : Bytes) (r : RingWriter) : Type 0 where
  stores : Stores limit (whole_lines s) r
  rest : r.partial ≡ open_line s

with_partial-Stores :
    (limit : ℕ) (h : List Bytes) (r : RingWriter) (p : Bytes)
    → Stores limit h r
    → Stores limit h (record r { partial = p })
with_partial-Stores limit h r p w = record {
  size = w.size;
  newer = w.newer;
  older = w.older;
  parts = w.parts;
  at = w.at;
  room = w.room;
  inside = w.inside;
  filling = w.filling;
  filled = w.filled;
}

store_all-Stores :
    (limit : ℕ) (h : List Bytes) (r : RingWriter) (p : Bytes) (ps : List Bytes)
    → Stores limit h r
    → (r' : RingWriter) × (store_all r (p ∷ ps) ≡ some (r', complete (p ∷ ps)))
      × Stores limit (h ++ complete (p ∷ ps)) r'
      × (r'.partial ≡ rest_of (p ∷ ps))
      × (r'.has_callback ≡ r.has_callback)
unfolding store_all
store_all-Stores limit h r p [] w = (
  record r { partial = p },
  refl,
  subst (λ l. Stores limit l (record r { partial = p })) (sym (append-nil h))
      (with_partial-Stores limit h r p w),
  refl,
  refl,
)
store_all-Stores limit h r p (q ∷ ps) w =
    let (r', e, w', u, c) = store-Stores limit h r p w in
    let (r'', e', w'', u', c') = store_all-Stores limit (h ++ (p ∷ [])) r' q ps w' in
    (
      r'',
      rw (store_all, e, e'),
      subst (λ l. Stores limit l r'') (append_assoc h (p ∷ []) (complete (q ∷ ps))) w'',
      u',
      c' ∙ c,
    )

write-Holds :
    (limit : ℕ) (s : Bytes) (r : RingWriter) (p : Bytes)
    → Holds limit s r
    → (r' : RingWriter) × (ls : List Bytes) × (write r p
        ≡ some (r', if r.has_callback then ls else []))
      × (whole_lines (s ++ p) ≡ whole_lines s ++ ls)
      × Holds limit (s ++ p) r'
      × (r'.has_callback ≡ r.has_callback)
unfolding write
write-Holds limit s r p w =
    let (q, qs, cut) = split-cons (open_line s ++ p) in
    let (r', e, stores, u, c) =
      store_all-Stores limit (whole_lines s) (record r { partial = [] }) q qs
        (with_partial-Stores limit (whole_lines s) r [] w.stores) in
    let lines_of : whole_lines (s ++ p) ≡ whole_lines s ++ complete (q ∷ qs) =
      whole_lines-append s p ∙ ap (λ l. whole_lines s ++ complete l) cut in
    (
      r',
      complete (q ∷ qs),
      rw (write, w.rest, cut, e),
      lines_of,
      record {
        stores = subst (λ l. Stores limit l r') (sym lines_of) stores;
        rest = u ∙ sym (open_line-append s p ∙ ap rest_of cut);
      },
      c,
    )

-- A sequence of writes: the state after the last and every line that the callback was called with.
unfoldable pub write_each : RingWriter → List Bytes → Option (RingWriter × List Bytes)
write_each r [] = some (r, [])
write_each r (p ∷ ps) = elim (write r p) [
  | none ↦ none
  | some (r', ls) ↦ elim (write_each r' ps) [ none ↦ none | some (r'', ms) ↦ some (r'', ls ++ ms) ]
]

-- What a sequence of writes has written.
unfoldable pub written : List Bytes → Bytes
written [] = []
written (p ∷ ps) = p ++ written ps

write_each-cons :
    (r r' r'' : RingWriter) (p : Bytes) (ps ls ms : List Bytes)
    → write r p ≡ some (r', ls)
    → write_each r' ps ≡ some (r'', ms)
    → write_each r (p ∷ ps) ≡ some (r'', ls ++ ms)
unfolding write_each
write_each-cons r r' r'' p ps ls ms e e' = rw (write_each, e, e')

write_each-Holds :
    (limit : ℕ) (s : Bytes) (r : RingWriter) (ps : List Bytes)
    → Holds limit s r
    → r.has_callback ≡ true
    → (r' : RingWriter) × (ls : List Bytes) × (write_each r ps ≡ some (r', ls))
      × (whole_lines (s ++ written ps) ≡ whole_lines s ++ ls)
      × Holds limit (s ++ written ps) r'
unfolding write_each written
write_each-Holds limit s r [] w cb = (
  r,
  [],
  refl,
  ap whole_lines (append-nil s) ∙ sym (append-nil (whole_lines s)),
  subst (λ t. Holds limit t r) (sym (append-nil s)) w,
)
write_each-Holds limit s r (p ∷ ps) w cb =
    let (r', ls, e, lines_of, w', c) = write-Holds limit s r p w in
    let (r'', ms, e', lines_of', w'') = write_each-Holds limit (s ++ p) r' ps w' (c ∙ cb) in
    (
      r'',
      ls ++ ms,
      write_each-cons r r' r'' p ps ls ms (e ∙ ap (λ b. some (r', if b then ls else [])) cb) e',
      ap whole_lines (sym (append_assoc s p (written ps)))
          ∙ lines_of'
          ∙ ap (λ l. l ++ ms) lines_of
          ∙ append_assoc (whole_lines s) ls ms,
      subst (λ t. Holds limit t r'') (append_assoc s p (written ps)) w'',
    )

length-replicate : (n : ℕ) (v : Bytes) → length (replicate n v) ≡ n
length-replicate zero v = refl
length-replicate (suc n) v = omega (arith, length-replicate n v)

new-Holds : (limit : ℕ) → 0 < limit → Holds limit [] (on_line (new_ring_writer limit))
unfolding new_ring_writer on_line whole_lines open_line split
new-Holds limit pos = record {
  stores = record {
    size = refl;
    newer = [];
    older = replicate limit [];
    parts = refl;
    at = refl;
    room = omega (arith, length-replicate limit []);
    inside = pos;
    filling = λ q. refl;
    filled = λ q. absurd (grind (arith, q));
  };
  rest = refl;
}

take-length : (xs ys : List Bytes) → take (length xs) (xs ++ ys) ≡ xs
take-length [] ys = refl
take-length (x ∷ xs) ys = ap (λ l. x ∷ l) (take-length xs ys)

drop-length : (xs ys : List Bytes) → drop (length xs) (xs ++ ys) ≡ ys
drop-length [] ys = refl
drop-length (x ∷ xs) ys = drop-length xs ys

lines-Stores :
    (limit : ℕ) (h : List Bytes) (r : RingWriter) → Stores limit h r → lines r ≡ recent limit h
unfolding lines recent
lines-Stores limit h r w = elim (Bool-cases r.full) [
  | inl f ↦ rw (f, ap (λ l. l ++ take r.pos r.lines) behind, before, (w.filled f).1)
  | inr f ↦ rw (
    f,
    before,
    w.filling f,
    recent-all limit h (omega (arith, w.at, w.inside, ap length (w.filling f))),
  )
]
  where
    before : take r.pos r.lines ≡ w.newer
    before =
        ap (λ n. take n r.lines) (sym w.at)
        ∙ ap (take (length w.newer)) w.parts
        ∙ take-length w.newer w.older

    behind : drop r.pos r.lines ≡ w.older
    behind =
        ap (λ n. drop n r.lines) (sym w.at)
        ∙ ap (drop (length w.newer)) w.parts
        ∙ drop-length w.newer w.older

-- However the bytes are cut into writes, a ring of a positive capacity takes them all without an
-- index out of range, has called its callback with every complete line, once and in order, lists
-- the last `limit` of these lines, oldest first, and keeps the text behind the last newline.
pub lines-history :
    (limit : ℕ) (ps : List Bytes)
    → 0 < limit
    → (r : RingWriter) × (write_each (on_line (new_ring_writer limit)) ps
        ≡ some (r, whole_lines (written ps)))
      × (lines r ≡ recent limit (whole_lines (written ps)))
      × (r.partial ≡ open_line (written ps))
unfolding on_line whole_lines split
lines-history limit ps pos =
    let (r, ls, e, lines_of, w) =
      write_each-Holds limit [] (on_line (new_ring_writer limit)) ps (new-Holds limit pos) refl in
    (
      r,
      e ∙ ap (λ l. some (r, l)) (sym lines_of),
      lines-Stores limit (whole_lines (written ps)) r w.stores,
      w.rest,
    )
