-- ===== src/Tor/ReaderLaws.antt =====
-- Where the replies go that readLoop (controller/internal/tor/control.go) reads, in any order of the steps of
-- the loop, of the readers of its channels and of Close.
use torvmremix.Base.{
  ◌≡◌, refl, ap, sym, ◌∙◌, inl, inr, Bool, true, false, List, [], ◌∷◌, ◌++◌, Bytes, All,
  append_assoc, append-nil,
}
use torvmremix.Tor.Reader.{
  AsyncEvent, ReadPlace, at_head, reading, ended, sending, Loop, checks, fails, sends, gives_up,
  takes_event, takes_reply, closes, reads, first_gone, step_at, turn,
}
use torvmremix.Tor.ReaderMoves.{
  reply, event, blank, Move, arrives, other, IsMove, step_of, heard_at, taken_by, waiting, Bounded,
  Accounted, loop_at, turn-Moved,
}

unfoldable pub moves : Loop → List Move → Loop
moves s [] = s
moves s (m ∷ ms) = moves (turn s (step_of m)) ms

unfoldable pub heard : Loop → List Move → List Bytes
heard s [] = []
heard s (m ∷ ms) = heard_at m s.place ++ heard (turn s (step_of m)) ms

unfoldable pub replies_taken : Loop → List Move → List Bytes
replies_taken s [] = []
replies_taken s (m ∷ ms) = taken_by s m ++ replies_taken (turn s (step_of m)) ms

-- When the loop has ended, nothing is read any more, and what waits is only taken.
abbrev Rest : Loop → List Move → Type 0
Rest s ms =
    ((moves s ms).closed ≡ true)
    × ((moves s ms).place ≡ ended)
    × (heard s ms ≡ [])
    × (s.replies ≡ replies_taken s ms ++ (moves s ms).replies)

loop_at-Rest :
    (es : List AsyncEvent) (rs : List Bytes) (ms : List Move) → Rest (loop_at es rs true ended) ms
unfolding moves heard replies_taken turn step_at first_gone
loop_at-Rest es rs [] = (refl, refl, refl, refl)
loop_at-Rest es rs (arrives (reply t) ∷ ms) = loop_at-Rest es rs ms
loop_at-Rest es rs (arrives (event e) ∷ ms) = loop_at-Rest es rs ms
loop_at-Rest es rs (arrives blank ∷ ms) = loop_at-Rest es rs ms
loop_at-Rest es rs (other (reads raw) ∷ ms) = loop_at-Rest es rs ms
loop_at-Rest es rs (other checks ∷ ms) = loop_at-Rest es rs ms
loop_at-Rest es rs (other fails ∷ ms) = loop_at-Rest es rs ms
loop_at-Rest es rs (other sends ∷ ms) = loop_at-Rest es rs ms
loop_at-Rest es rs (other gives_up ∷ ms) = loop_at-Rest es rs ms
loop_at-Rest es rs (other closes ∷ ms) = loop_at-Rest es rs ms
loop_at-Rest es rs (other takes_event ∷ ms) = loop_at-Rest (first_gone es) rs ms
loop_at-Rest es [] (other takes_reply ∷ ms) = loop_at-Rest es [] ms
loop_at-Rest es (r ∷ rs) (other takes_reply ∷ ms) =
    let (a, b, c, d) = loop_at-Rest es rs ms in (a, b, c, ap (λ x. r ∷ x) d)

ended-Rest : (s : Loop) (ms : List Move) → s.closed ≡ true → s.place ≡ ended → Rest s ms
ended-Rest s ms h k = go s.closed s.place h k
  where
    go :
        (c : Bool) (p : ReadPlace) → c ≡ true → p ≡ ended → Rest (loop_at s.events s.replies c p) ms
    go true ended a b = loop_at-Rest s.events s.replies ms
    go false p a b = absurd (cc)
    go true at_head a b = absurd (cc)
    go true reading a b = absurd (cc)
    go true (sending l) a b = absurd (cc)

module _ {A : Type 0} where
  chain :
      (r w h more t r' w' u x : List A)
      → r ++ (w ++ h) ≡ t ++ (r' ++ w')
      → r' ++ (w' ++ more) ≡ u ++ x
      → r ++ (w ++ (h ++ more)) ≡ (t ++ u) ++ x
  chain r w h more t r' w' u x e k =
      ap (λ y. r ++ y) (sym (append_assoc w h more))
      ∙ sym (append_assoc r (w ++ h) more)
      ∙ ap (λ y. y ++ more) e
      ∙ append_assoc t (r' ++ w') more
      ∙ ap (λ y. t ++ y) (append_assoc r' w' more ∙ k)
      ∙ sym (append_assoc t u x)

replies_chain :
    (s : Loop) (m : Move) (ms : List Move)
    → let s' = turn s (step_of m) in
      Accounted (s.replies ++ (waiting s.place ++ heard_at m s.place)) (taken_by s m) s'
      → Accounted
          (s'.replies ++ (waiting s'.place ++ heard s' ms))
          (replies_taken s' ms)
          (moves s' ms)
      → Accounted
          (s.replies ++ (waiting s.place ++ (heard_at m s.place ++ heard s' ms)))
          (taken_by s m ++ replies_taken s' ms)
          (moves s' ms)
replies_chain s m ms (inl e) (inl k) = inl (
    chain s.replies (waiting s.place) (heard_at m s.place) (heard (turn s (step_of m)) ms)
      (taken_by s m) (turn s (step_of m)).replies (waiting (turn s (step_of m)).place)
      (replies_taken (turn s (step_of m)) ms)
      ((moves (turn s (step_of m)) ms).replies ++ waiting (moves (turn s (step_of m)) ms).place) e
      k)
replies_chain s m ms (inl e) (inr (a, b, (l, k))) = inr (
  a,
  b,
  (
    l,
    chain s.replies (waiting s.place) (heard_at m s.place) (heard (turn s (step_of m)) ms)
        (taken_by s m) (turn s (step_of m)).replies (waiting (turn s (step_of m)).place)
        (replies_taken (turn s (step_of m)) ms)
        ((moves (turn s (step_of m)) ms).replies ++ (l ∷ [])) e k,
  ),
)
replies_chain s m ms (inr (a, b, (l, e))) k = inr (c, d, (l, whole))
  where
    s' : Loop
    s' = turn s (step_of m)

    rest : Rest s' ms
    rest = ended-Rest s' ms a b

    c : (moves s' ms).closed ≡ true
    c = rest.0

    d : (moves s' ms).place ≡ ended
    d = rest.1

    left :
        s'.replies ++ ((l ∷ []) ++ heard s' ms)
        ≡ replies_taken s' ms ++ ((moves s' ms).replies ++ (l ∷ []))
    left =
        ap (λ x. s'.replies ++ ((l ∷ []) ++ x)) rest.2
        ∙ ap (λ x. x ++ (l ∷ [])) rest.3
        ∙ append_assoc (replies_taken s' ms) (moves s' ms).replies (l ∷ [])

    whole :
        s.replies ++ (waiting s.place ++ (heard_at m s.place ++ heard s' ms))
        ≡ (taken_by s m ++ replies_taken s' ms) ++ ((moves s' ms).replies ++ (l ∷ []))
    whole =
        chain s.replies (waiting s.place) (heard_at m s.place) (heard s' ms) (taken_by s m)
          s'.replies (l ∷ []) (replies_taken s' ms) ((moves s' ms).replies ++ (l ∷ [])) e left

-- In any order of the steps of the loop, of the readers of its channels and of Close, over lines of a
-- reply, which does not begin with a 6 and does not end with a character of a line's end, events behind
-- their 650, whose bodies end so too, and empty lines: the channels keep within their 256 events and 128
-- replies, and the replies that waited at first and those that were read are, in order and without the
-- ends of their lines, those that were taken, then those in the channel, then the one that the loop waits
-- with; only when `done` is closed and the loop has ended can the last one be lost instead.
pub moves-Accounted :
    (s : Loop) (ms : List Move)
    → All IsMove ms
    → (Bounded s → Bounded (moves s ms))
      × Accounted (s.replies ++ (waiting s.place ++ heard s ms)) (replies_taken s ms) (moves s ms)
unfolding moves heard replies_taken
moves-Accounted s [] h = (λ b. b, inl (ap (λ w. s.replies ++ w) (append-nil (waiting s.place))))
moves-Accounted s (m ∷ ms) h =
    let (b, now) = turn-Moved s.events s.replies s.closed s.place m h.0 in
    let (b', later) = moves-Accounted (turn s (step_of m)) ms h.1 in
    (λ x. b' (b x), replies_chain s m ms now later)
