-- ===== src/Tor/Reader.antt =====
-- readLoop of controller/internal/tor/control.go: where the lines of the connection go. The channel of the
-- events holds 256 of them, and an event that finds it full is dropped. The channel of the replies
-- holds 128 lines, and the loop waits with one that finds it full, until it is read or `done` is closed.
use torvmremix.Base.{
  ℕ, Bool, true, ◌||◌, ◌&&◌, List, [], ◌∷◌, ◌++◌, length, ltb, ◌==◌, if◌then◌else◌, Bytes, is_nil,
}
use torvmremix.Tor.Events.{is_async_event, dispatch_event}

pub record AsyncEvent : Type 0 where
  pub code : ℕ
  pub action : Bytes
  pub lines : List Bytes

-- Where the loop stands.
pub data ReadPlace : Type 0 where
  at_head reading ended : ReadPlace
  sending : Bytes → ReadPlace

-- The two channels, whether `done` is closed, and the loop.
pub record Loop : Type 0 where
  pub events : List AsyncEvent
  pub replies : List Bytes
  pub closed : Bool
  pub place : ReadPlace

-- strings.TrimRight(line, "\r\n")
unfoldable pub trim_line_end : Bytes → Bytes
trim_line_end [] = []
trim_line_end (c ∷ s) =
    let rest = trim_line_end s in if (c == 13 || c == 10) && is_nil rest then [] else c ∷ rest

unfoldable pub to_event : Bytes → AsyncEvent
to_event l =
    let (action, body) = dispatch_event l in
    record { code = 650; action = action; lines = body ∷ [] }

-- What is done with a line that was read: an event is sent unless its channel is full, a reply is to
-- be sent, and an empty line is passed over.
unfoldable pub receive : Loop → Bytes → Loop
receive s raw =
    let l = trim_line_end raw in
    if is_nil l
    then record s { place = at_head }
    else if is_async_event l
    then (if ltb (length s.events) 256
        then record s { events = s.events ++ (to_event l ∷ []); place = at_head }
        else record s { place = at_head })
    else record s { place = sending l }

-- The steps: the loop looks at `done`, reads a line or meets an error of the connection, and sends a
-- reply or finds `done` closed while it waits to send; the readers of the two channels take what is
-- first in them, and Close closes `done`.
pub data Step : Type 0 where
  checks fails sends gives_up takes_event takes_reply closes : Step
  reads : Bytes → Step

unfoldable pub first_gone {ℓ} : {A : Type ℓ} → List A → List A
first_gone [] = []
first_gone (x ∷ xs) = xs

-- A step that is not possible at the place of the loop leaves everything as it is. When a reply can
-- be sent and `done` is closed, either of `sends` and `gives_up` can come next, as in the code's
-- `select`; `gives_up` loses the line.
unfoldable pub step_at : ReadPlace → Loop → Step → Loop
step_at p s takes_event = record s { events = first_gone s.events }
step_at p s takes_reply = record s { replies = first_gone s.replies }
step_at p s closes = record s { closed = true }
step_at at_head s checks = record s { place = if s.closed then ended else reading }
step_at reading s (reads raw) = receive s raw
step_at reading s fails = record s { closed = true; place = ended }
step_at (sending l) s sends =
    if ltb (length s.replies) 128
    then record s { replies = s.replies ++ (l ∷ []); place = at_head }
    else s
step_at (sending l) s gives_up = if s.closed then record s { place = ended } else s
step_at _ s _ = s

unfoldable pub turn : Loop → Step → Loop
turn s x = step_at s.place s x

unfoldable pub turns : Loop → List Step → Loop
turns s [] = s
turns s (x ∷ xs) = turns (turn s x) xs
