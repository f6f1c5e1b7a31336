-- ===== src/Tor/ReaderMoves.antt =====
-- What one step does with the replies that readLoop (controller/internal/tor/control.go) reads, a step of the
-- loop, of the readers of its channels or of Close.
use torvmremix.Base.{
  ℕ, ◌≤◌, ◌≡◌, ◌≢◌, refl, ap, sym, ◌∙◌, ◌⊎◌, inl, inr, Bool, true, false, ◌||◌, ◌&&◌, List, [], ◌∷◌,
  ◌++◌, length, ltb, ◌==◌, if◌then◌else◌, Bool-cases, Bytes, bytes, is_nil, has_prefix, arith,
  subst, append-nil, length-append,
}
use torvmremix.Tor.Events.{is_async_event}
use torvmremix.Tor.Reader.{
  AsyncEvent, ReadPlace, at_head, reading, ended, sending, Loop, trim_line_end, to_event, receive,
  Step, checks, fails, sends, gives_up, takes_event, takes_reply, closes, reads, first_gone,
  step_at, turn,
}

-- What Tor writes: a reply, an event behind its status, or an empty line.
pub data Line : Type 0 where
  reply event : Bytes → Line
  blank : Line

abbrev line_end : Bytes
line_end = 13 ∷ 10 ∷ []

abbrev pub wire : Line → Bytes
wire (reply t) = t ++ line_end
wire (event b) = (54 ∷ 53 ∷ 48 ∷ b) ++ line_end
wire blank = line_end

-- A text that does not end with a character of a line's end.
abbrev pub IsText : Bytes → Type 0
IsText t = (u : Bytes) × (d : ℕ) × (t ≡ u ++ (d ∷ [])) × (d ≢ 13) × (d ≢ 10)

-- The status of a reply begins with another digit than 6.
abbrev pub OtherStatus : Bytes → Type 0
OtherStatus [] = ⊥
OtherStatus (c ∷ s) = c ≢ 54

pub data Move : Type 0 where
  arrives : Line → Move
  other : Step → Move

abbrev pub IsMove : Move → Type 0
IsMove (arrives (reply t)) = IsText t × OtherStatus t
IsMove (arrives (event b)) = IsText b
IsMove (other (reads raw)) = ⊥
IsMove _ = Unit {0}

abbrev pub step_of : Move → Step
step_of (arrives l) = reads (wire l)
step_of (other x) = x

-- The replies that the loop reads.
abbrev pub heard_at : Move → ReadPlace → List Bytes
heard_at (arrives (reply t)) reading = t ∷ []
heard_at m p = []

-- The first of the replies, if there is one.
abbrev pub first_of : List Bytes → List Bytes
first_of [] = []
first_of (r ∷ rs) = r ∷ []

-- The replies that a command takes.
abbrev pub taken_by : Loop → Move → List Bytes
taken_by s (other takes_reply) = first_of s.replies
taken_by s m = []

-- The reply that the loop waits with.
abbrev pub waiting : ReadPlace → List Bytes
waiting (sending l) = l ∷ []
waiting p = []

trim-text :
    (u : Bytes) (d : ℕ)
    → d ≢ 13
    → d ≢ 10
    → trim_line_end ((u ++ (d ∷ [])) ++ line_end) ≡ u ++ (d ∷ [])
unfolding trim_line_end
trim-text [] d h k = ground (arith, h, k)
trim-text (c ∷ u) d h k = rw (trim-text u d h k) (kept u)
  where
    kept :
        (w : Bytes)
        → (if (c == 13 || c == 10) && is_nil (w ++ (d ∷ [])) then [] else c ∷ (w ++ (d ∷ [])))
          ≡ c ∷ (w ++ (d ∷ []))
    kept [] = ground arith
    kept (a ∷ w) = ground arith

trim-IsText : (t : Bytes) → IsText t → trim_line_end (t ++ line_end) ≡ t
trim-IsText t (u, d, e, h, k) =
    ap (λ x. trim_line_end (x ++ line_end)) e ∙ trim-text u d h k ∙ sym e

receive-reply :
    (s : Loop) (t : Bytes)
    → IsText t
    → OtherStatus t
    → receive s (wire (reply t)) ≡ record s { place = sending t }
unfolding receive is_async_event has_prefix bytes
receive-reply s [] h k = absurd k
receive-reply s (c ∷ t) h k =
    let other : c == 54 ≡ false = ground (arith, k) in rw (trim-IsText (c ∷ t) h, other) refl

receive-blank : (s : Loop) → receive s line_end ≡ record s { place = at_head }
unfolding receive trim_line_end
receive-blank s = refl

-- An event changes only the channel of the events, which stays within its bound.
receive-event :
    (s : Loop) (b : Bytes)
    → IsText b
    → (es : List AsyncEvent) × ((receive s (wire (event b))
          ≡ record s { events = es; place = at_head })
        × (length s.events ≤ 256 → length es ≤ 256))
unfolding receive is_async_event has_prefix bytes
receive-event s b (u, d, e, h, k) = go (Bool-cases (ltb (length s.events) 256))
  where
    l : Bytes
    l = 54 ∷ 53 ∷ 48 ∷ b

    cut_line : trim_line_end (l ++ line_end) ≡ l
    cut_line = trim-IsText l (54 ∷ 53 ∷ 48 ∷ u, d, ap (λ x. 54 ∷ 53 ∷ 48 ∷ x) e, h, k)

    go :
        (ltb (length s.events) 256 ≡ true) ⊎ (ltb (length s.events) 256 ≡ false)
        → (es : List AsyncEvent) × ((receive s (wire (event b))
              ≡ record s { events = es; place = at_head })
            × (length s.events ≤ 256 → length es ≤ 256))
    go (inl q) = (
      s.events ++ (to_event l ∷ []),
      (rw (cut_line, q) refl, λ x. ground (arith, q, length-append s.events (to_event l ∷ []))),
    )
    go (inr q) = (s.events, (rw (cut_line, q) refl, λ x. x))

abbrev pub Bounded : Loop → Type 0
Bounded s = (length s.events ≤ 256) × (length s.replies ≤ 128)

-- What one move does with the replies: what waited and what was read is taken, waits, or is lost.
-- Of some replies, those of `gone` were taken first, and the others wait in the channel and with the
-- loop; but once `done` is closed and the loop has ended, one reply is lost at most, the last.
abbrev pub Accounted : List Bytes → List Bytes → Loop → Type 0
Accounted all gone s =
    (all ≡ gone ++ (s.replies ++ waiting s.place))
    ⊎ ((s.closed ≡ true)
        × (s.place ≡ ended)
        × ((l : Bytes) × (all ≡ gone ++ (s.replies ++ (l ∷ [])))))

abbrev pub MovedTo : Loop → Move → Loop → Type 0
MovedTo s m s' =
    (Bounded s → Bounded s')
    × Accounted (s.replies ++ (waiting s.place ++ heard_at m s.place)) (taken_by s m) s'

abbrev pub Moved : Loop → Move → Type 0
Moved s m = MovedTo s m (turn s (step_of m))

abbrev pub loop_at : List AsyncEvent → List Bytes → Bool → ReadPlace → Loop
loop_at es rs c p = record { events = es; replies = rs; closed = c; place = p }

length-first_gone : {A : Type 0} (n : ℕ) (xs : List A) → length xs ≤ n → length (first_gone xs) ≤ n
unfolding first_gone
length-first_gone n [] h = h
length-first_gone n (x ∷ xs) h = omega (arith, h)

event_taken :
    (es : List AsyncEvent) (rs : List Bytes) (c : Bool) (p : ReadPlace)
    → MovedTo (loop_at es rs c p) (other takes_event) (loop_at (first_gone es) rs c p)
event_taken es rs c p =
    (λ b. (length-first_gone 256 es b.0, b.1), inl (ap (λ w. rs ++ w) (append-nil (waiting p))))

reply_taken :
    (es : List AsyncEvent) (rs : List Bytes) (c : Bool) (p : ReadPlace)
    → MovedTo (loop_at es rs c p) (other takes_reply) (loop_at es (first_gone rs) c p)
unfolding first_gone
reply_taken es [] c p = (λ b. b, inl (append-nil (waiting p)))
reply_taken es (r ∷ rs) c p =
    (λ b. (b.0, omega (arith, b.1)), inl (ap (λ w. (r ∷ rs) ++ w) (append-nil (waiting p))))

closed_by :
    (es : List AsyncEvent) (rs : List Bytes) (c : Bool) (p : ReadPlace)
    → MovedTo (loop_at es rs c p) (other closes) (loop_at es rs true p)
closed_by es rs c p = (λ b. b, inl (ap (λ w. rs ++ w) (append-nil (waiting p))))

reply_read :
    (es : List AsyncEvent) (rs : List Bytes) (c : Bool) (l : Line)
    → IsMove (arrives l)
    → MovedTo (loop_at es rs c reading) (arrives l) (receive (loop_at es rs c reading) (wire l))
reply_read es rs c (reply t) h =
    subst (MovedTo (loop_at es rs c reading) (arrives (reply t)))
      (sym (receive-reply (loop_at es rs c reading) t h.0 h.1)) (λ b. b, inl refl)
reply_read es rs c (event e) h =
    let (es', (q, k)) = receive-event (loop_at es rs c reading) e h in
    subst (MovedTo (loop_at es rs c reading) (arrives (event e))) (sym q)
      (λ b. (k b.0, b.1), inl refl)
reply_read es rs c blank h =
    subst (MovedTo (loop_at es rs c reading) (arrives blank))
      (sym (receive-blank (loop_at es rs c reading))) (λ b. b, inl refl)

reply_sent :
    (es : List AsyncEvent) (rs : List Bytes) (c : Bool) (l : Bytes)
    → Moved (loop_at es rs c (sending l)) (other sends)
unfolding turn step_at
reply_sent es rs c l = go (ltb (length rs) 128) refl
  where
    s : Loop
    s = loop_at es rs c (sending l)

    go :
        (room : Bool)
        → ltb (length rs) 128 ≡ room
        → MovedTo s
            (other sends)
            (if room then record s { replies = rs ++ (l ∷ []); place = at_head } else s)
    go true q = (
      λ b. (b.0, ground (arith, q, length-append rs (l ∷ []))),
      inl (sym (append-nil (rs ++ (l ∷ [])))),
    )
    go false q = (λ b. b, inl refl)

pub turn-Moved :
    (es : List AsyncEvent) (rs : List Bytes) (c : Bool) (p : ReadPlace) (m : Move)
    → IsMove m
    → Moved (loop_at es rs c p) m
unfolding turn step_at
turn-Moved es rs c at_head (arrives (reply t)) h = (λ b. b, inl refl)
turn-Moved es rs c at_head (arrives (event e)) h = (λ b. b, inl refl)
turn-Moved es rs c at_head (arrives blank) h = (λ b. b, inl refl)
turn-Moved es rs c at_head (other takes_event) h = event_taken es rs c at_head
turn-Moved es rs c at_head (other takes_reply) h = reply_taken es rs c at_head
turn-Moved es rs c at_head (other closes) h = closed_by es rs c at_head
turn-Moved es rs c at_head (other (reads raw)) h = absurd h
turn-Moved es rs true at_head (other checks) h = (λ b. b, inl refl)
turn-Moved es rs false at_head (other checks) h = (λ b. b, inl refl)
turn-Moved es rs c at_head (other fails) h = (λ b. b, inl refl)
turn-Moved es rs c at_head (other sends) h = (λ b. b, inl refl)
turn-Moved es rs c at_head (other gives_up) h = (λ b. b, inl refl)
turn-Moved es rs c reading (arrives l) h = reply_read es rs c l h
turn-Moved es rs c reading (other takes_event) h = event_taken es rs c reading
turn-Moved es rs c reading (other takes_reply) h = reply_taken es rs c reading
turn-Moved es rs c reading (other closes) h = closed_by es rs c reading
turn-Moved es rs c reading (other (reads raw)) h = absurd h
turn-Moved es rs c reading (other checks) h = (λ b. b, inl refl)
turn-Moved es rs c reading (other fails) h = (λ b. b, inl refl)
turn-Moved es rs c reading (other sends) h = (λ b. b, inl refl)
turn-Moved es rs c reading (other gives_up) h = (λ b. b, inl refl)
turn-Moved es rs c ended (arrives (reply t)) h = (λ b. b, inl refl)
turn-Moved es rs c ended (arrives (event e)) h = (λ b. b, inl refl)
turn-Moved es rs c ended (arrives blank) h = (λ b. b, inl refl)
turn-Moved es rs c ended (other takes_event) h = event_taken es rs c ended
turn-Moved es rs c ended (other takes_reply) h = reply_taken es rs c ended
turn-Moved es rs c ended (other closes) h = closed_by es rs c ended
turn-Moved es rs c ended (other (reads raw)) h = absurd h
turn-Moved es rs c ended (other checks) h = (λ b. b, inl refl)
turn-Moved es rs c ended (other fails) h = (λ b. b, inl refl)
turn-Moved es rs c ended (other sends) h = (λ b. b, inl refl)
turn-Moved es rs c ended (other gives_up) h = (λ b. b, inl refl)
turn-Moved es rs c (sending l) (arrives (reply t)) h = (λ b. b, inl refl)
turn-Moved es rs c (sending l) (arrives (event e)) h = (λ b. b, inl refl)
turn-Moved es rs c (sending l) (arrives blank) h = (λ b. b, inl refl)
turn-Moved es rs c (sending l) (other takes_event) h = event_taken es rs c (sending l)
turn-Moved es rs c (sending l) (other takes_reply) h = reply_taken es rs c (sending l)
turn-Moved es rs c (sending l) (other closes) h = closed_by es rs c (sending l)
turn-Moved es rs c (sending l) (other (reads raw)) h = absurd h
turn-Moved es rs c (sending l) (other checks) h = (λ b. b, inl refl)
turn-Moved es rs c (sending l) (other fails) h = (λ b. b, inl refl)
turn-Moved es rs c (sending l) (other sends) h = reply_sent es rs c l
turn-Moved es rs true (sending l) (other gives_up) h = (λ b. b, inr (refl, refl, (l, refl)))
turn-Moved es rs false (sending l) (other gives_up) h = (λ b. b, inl refl)
