-- ===== src/Logging/History.antt =====
-- The ring of controller/internal/logging/ringwriter.go against the history of the lines.
use torvmremix.Base.{
  ℕ, zero, suc, ◌+◌, ◌-◌, ◌≤◌, ◌<◌, ◌≡◌, refl, ap, ◌∙◌, sym, Bool, true, false, some, List, [], ◌∷◌,
  ◌++◌, append_assoc, append-nil, arith, Bytes, leb, length, drop, if◌then◌else◌, Bool-cases, ◌⊎◌,
  inl, inr, length-append,
}
use torvmremix.Logging.Ring.{RingWriter, assign, store}

-- The last `limit` lines of a history.
unfoldable pub recent : ℕ → List Bytes → List Bytes
recent limit h = drop (length h - limit) h

drop-snoc :
    (n : ℕ) (h : List Bytes) (o : Bytes) (xs : List Bytes) (v : Bytes)
    → drop n h ≡ o ∷ xs
    → drop (suc n) (h ++ (v ∷ [])) ≡ xs ++ (v ∷ [])
drop-snoc zero [] o xs v e = grind (arith, e)
drop-snoc zero (x ∷ h) o xs v e = ap (λ l. drop 1 (l ++ (v ∷ []))) e
drop-snoc (suc n) [] o xs v e = grind (arith, e)
drop-snoc (suc n) (x ∷ h) o xs v e = drop-snoc n h o xs v e

recent-snoc :
    (limit : ℕ) (h : List Bytes) (o : Bytes) (xs : List Bytes) (v : Bytes)
    → limit ≤ length h
    → o ∷ xs ≡ recent limit h
    → xs ++ (v ∷ []) ≡ recent limit (h ++ (v ∷ []))
unfolding recent
recent-snoc limit h o xs v le e =
    sym (drop-snoc (length h - limit) h o xs v (sym e))
    ∙ ap (λ n. drop n (h ++ (v ∷ []))) {x = suc (length h - limit)}
        (omega (arith, length-append h (v ∷ [])))

pub recent-all : (limit : ℕ) (h : List Bytes) → length h ≤ limit → recent limit h ≡ h
unfolding recent
recent-all limit h le = ap (λ n. drop n h) {x = length h - limit} {y = 0} (omega (arith, le))

length-zero : (h : List Bytes) → length h ≡ 0 → h ≡ []
length-zero [] e = refl
length-zero (x ∷ h) e = absurd (omega (arith, e))

-- The ring holds the lines since its position before those that precede it, and together they are
-- the last lines of the history.
pub record Stores (limit : ℕ) (h : List Bytes) (r : RingWriter) : Type 0 where
  pub size : r.capacity ≡ limit
  pub newer : List Bytes
  pub older : List Bytes
  pub parts : r.lines ≡ newer ++ older
  pub at : length newer ≡ r.pos
  pub room : length newer + length older ≡ limit
  pub inside : r.pos < limit
  pub filling : r.full ≡ false → newer ≡ h
  pub filled : r.full ≡ true → (limit ≤ length h) × (older ++ newer ≡ recent limit h)

assign-append :
    (xs : List Bytes) (o : Bytes) (ys : List Bytes) (v : Bytes)
    → assign (xs ++ (o ∷ ys)) (length xs) v ≡ some (xs ++ (v ∷ ys))
unfolding assign
assign-append [] o ys v = refl
assign-append (x ∷ xs) o ys v = rw (assign-append xs o ys v)

-- The state that a store leaves: the line stands between the newer lines and the older ones, less
-- the oldest.
stored : RingWriter → List Bytes → Bool → RingWriter
stored r ls true = record r { lines = ls; pos = 0; full = true }
stored r ls false = record r { lines = ls; pos = r.pos + 1 }

store-eq :
    (r : RingWriter) (v : Bytes) (newer : List Bytes) (o : Bytes) (older : List Bytes) (b : Bool)
    → r.lines ≡ newer ++ (o ∷ older)
    → length newer ≡ r.pos
    → leb r.capacity (r.pos + 1) ≡ b
    → store r v ≡ some (stored r (newer ++ (v ∷ older)) b)
unfolding store stored
store-eq r v newer o older b e at h = rw (store, assigned, h, chosen b)
  where
    assigned : assign r.lines r.pos v ≡ some (newer ++ (v ∷ older))
    assigned =
        ap (λ l. assign l r.pos v) e
        ∙ ap (λ n. assign (newer ++ (o ∷ older)) n v) (sym at)
        ∙ assign-append newer o older v

    chosen :
        (c : Bool)
        → (if c
            then record r { lines = newer ++ (v ∷ older); pos = 0; full = true }
            else record r { lines = newer ++ (v ∷ older); pos = r.pos + 1 })
          ≡ stored r (newer ++ (v ∷ older)) c
    chosen true = refl
    chosen false = refl

stored-Stores :
    (limit : ℕ) (h : List Bytes) (r : RingWriter) (v : Bytes) (w : Stores limit h r) (o : Bytes)
    (older : List Bytes) (b : Bool)
    → w.older ≡ o ∷ older
    → leb r.capacity (r.pos + 1) ≡ b
    → Stores limit (h ++ (v ∷ [])) (stored r (w.newer ++ (v ∷ older)) b)
unfolding stored
stored-Stores limit h r v w o older true e c = record {
  size = w.size;
  newer = [];
  older = w.newer ++ (v ∷ older);
  parts = refl;
  at = refl;
  room = omega (arith, w.room, length-append w.newer (v ∷ older), ap length e);
  inside = omega (arith, w.inside);
  filling = λ q. absurd (grind (arith, q));
  filled = λ q. go (Bool-cases r.full);
}
  where
    fits : (length w.newer + 1 ≡ limit) × (length older ≡ 0)
    fits = ground (arith, w.room, w.inside, w.at, c, w.size, ap length e)

    last : older ≡ []
    last = length-zero older fits.1

    go :
        (r.full ≡ true) ⊎ (r.full ≡ false)
        → (limit ≤ length (h ++ (v ∷ [])))
          × ((w.newer ++ (v ∷ older)) ++ [] ≡ recent limit (h ++ (v ∷ [])))
    go (inl f) =
        let (le, eq) = w.filled f in
        (
          omega (arith, le, length-append h (v ∷ [])),
          append-nil (w.newer ++ (v ∷ older))
              ∙ ap (λ l. w.newer ++ (v ∷ l)) last
              ∙ recent-snoc limit h o w.newer v le
                  (ap (λ l. (o ∷ l) ++ w.newer) (sym last) ∙ ap (λ l. l ++ w.newer) (sym e) ∙ eq),
        )
    go (inr f) = (
      omega (arith, fits.0, ap length (w.filling f), length-append h (v ∷ [])),
      append-nil (w.newer ++ (v ∷ older))
          ∙ ap (λ l. w.newer ++ (v ∷ l)) last
          ∙ ap (λ l. l ++ (v ∷ [])) (w.filling f)
          ∙ sym (
              recent-all limit (h ++ (v ∷ []))
                (omega (arith, fits.0, ap length (w.filling f), length-append h (v ∷ [])))),
    )
stored-Stores limit h r v w o older false e c = record {
  size = w.size;
  newer = w.newer ++ (v ∷ []);
  older = older;
  parts = sym (append_assoc w.newer (v ∷ []) older);
  at = omega (arith, w.at, length-append w.newer (v ∷ []));
  room = omega (arith, w.room, length-append w.newer (v ∷ []), ap length e);
  inside = ground (arith, w.inside, c, w.size);
  filling = λ q. ap (λ l. l ++ (v ∷ [])) (w.filling q);
  filled = λ q.
      let (le, eq) = w.filled q in
      (
        omega (arith, le, length-append h (v ∷ [])),
        sym (append_assoc older w.newer (v ∷ []))
            ∙ recent-snoc limit h o (older ++ w.newer) v le (ap (λ l. l ++ w.newer) (sym e) ∙ eq),
      );
}

-- One line more: the oldest goes when the ring is full.
pub store-Stores :
    (limit : ℕ) (h : List Bytes) (r : RingWriter) (v : Bytes)
    → Stores limit h r
    → (r' : RingWriter) × (store r v ≡ some r')
      × Stores limit (h ++ (v ∷ [])) r'
      × (r'.partial ≡ r.partial)
      × (r'.has_callback ≡ r.has_callback)
unfolding stored
store-Stores limit h r v w = go w.older refl (leb r.capacity (r.pos + 1)) refl
  where
    kept :
        (ls : List Bytes) (b : Bool)
        → ((stored r ls b).partial ≡ r.partial) × ((stored r ls b).has_callback ≡ r.has_callback)
    kept ls true = (refl, refl)
    kept ls false = (refl, refl)

    go :
        (older : List Bytes)
        → w.older ≡ older
        → (b : Bool) → leb r.capacity (r.pos + 1) ≡ b
        → (r' : RingWriter) × (store r v ≡ some r')
          × Stores limit (h ++ (v ∷ [])) r'
          × (r'.partial ≡ r.partial)
          × (r'.has_callback ≡ r.has_callback)
    go [] e b c = absurd (omega (arith, w.room, w.inside, w.at, ap length e))
    go (o ∷ older) e b c = (
      stored r (w.newer ++ (v ∷ older)) b,
      store-eq r v w.newer o older b (w.parts ∙ ap (λ l. w.newer ++ l) e) w.at c,
      stored-Stores limit h r v w o older b e c,
      (kept (w.newer ++ (v ∷ older)) b).0,
      (kept (w.newer ++ (v ∷ older)) b).1,
    )
