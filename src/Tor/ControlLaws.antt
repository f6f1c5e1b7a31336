-- ===== src/Tor/ControlLaws.antt =====
-- What the methods of controller/internal/tor/control.go write to the connection.
use torvmremix.Base.{
  ◌≡◌, ◌≢◌, refl, Bool, true, false, ◌||◌, Option, none, some, List, [], ◌∷◌, ◌++◌, Result, ok, err,
  ◌>>◌, >>-ok, refuse_if-ok, each, Bytes, bytes, join, has_byte, has_byte-Free, Free, All,
  All-append, ||-false, map, arith, if◌then◌else◌, subst,
}
use torvmremix.Tor.Events.{EventError, has_newline, validate_no_newlines}
use torvmremix.Tor.Directives.{Directives}
use torvmremix.Tor.Control.{
  ControlError, check, check_entry, entry_text, wrap, illegal, authenticate_line, get_info_line,
  signal_line, set_conf_line, set_events_line, collect_response, read_info, get_info, Wire,
  send_command, exchange, accept, write_failed, authenticate, signal, set_conf, set_events,
}

-- A text without line ends.
abbrev pub IsOneLine : Bytes → Type 0
IsOneLine s = Free 13 s × Free 10 s

append-IsOneLine : (s t : Bytes) → IsOneLine s → IsOneLine t → IsOneLine (s ++ t)
append-IsOneLine s t h k =
    (All-append (λ a. a ≢ 13) s t h.0 k.0, All-append (λ a. a ≢ 10) s t h.1 k.1)

wrap-ok :
    {A : Type 0} (f : EventError → ControlError) (m : Result EventError A) {a : A}
    → wrap f m ≡ ok a
    → m ≡ ok a
wrap-ok f (err e) h = absurd (cc)
wrap-ok f (ok b) h = grind (arith, h)

check-IsOneLine : (s : Bytes) → check s ≡ ok tt → IsOneLine s
unfolding validate_no_newlines
check-IsOneLine s h =
    let n =
      refuse_if-ok (has_byte 13 s || has_byte 10 s) has_newline
        (wrap-ok illegal (validate_no_newlines s) h) in
    let (a, b) = ||-false (has_byte 13 s) (has_byte 10 s) n in
    (has_byte-Free 13 s a, has_byte-Free 10 s b)

join-IsOneLine : (ss : List Bytes) → All IsOneLine ss → IsOneLine (join (bytes " ") ss)
unfolding join bytes
join-IsOneLine [] h = (tt, tt)
join-IsOneLine (s ∷ []) h = h.0
join-IsOneLine (s ∷ t ∷ ss) h =
    append-IsOneLine (s ++ (32 ∷ [])) (join (bytes " ") (t ∷ ss))
      (append-IsOneLine s (32 ∷ []) h.0 (ground arith)) (join-IsOneLine (t ∷ ss) h.1)

each-IsOneLine : (ss : List Bytes) → each check ss ≡ ok tt → All IsOneLine ss
each-IsOneLine [] h = tt
each-IsOneLine (s ∷ ss) h =
    let (a, b) = >>-ok (check s) (each check ss) h in (check-IsOneLine s a, each-IsOneLine ss b)

entries-IsOneLine : (m : Directives) → each check_entry m ≡ ok tt → All IsOneLine (map entry_text m)
entries-IsOneLine [] h = tt
entries-IsOneLine (e ∷ m) h =
    let (a, b) = >>-ok (check_entry e) (each check_entry m) h in
    let (k, v) = >>-ok (check e.0) (check e.1) a in
    (
      append-IsOneLine e.0 (bytes "=" ++ e.1) (check-IsOneLine e.0 k)
          (append-IsOneLine (bytes "=") e.1 (unfold bytes in ground arith) (check-IsOneLine e.1 v)),
      entries-IsOneLine m b,
    )

-- A call of one of the methods.
pub data Request : Type 0 where
  authenticating signalling : Bytes → Request
  asking subscribing : List Bytes → Request
  setting : Directives → Request

-- What the call writes to the connection.
unfoldable pub sent : Request → Wire → Option Bytes
sent (authenticating password) w = (authenticate password w).0
sent (signalling sig) w = (signal sig w).0
sent (asking keywords) w = (get_info keywords w).0
sent (subscribing events) w = (set_events events w).0
sent (setting m) w = (set_conf m w).0

unfoldable pub line_of : Request → Result ControlError Bytes
line_of (authenticating password) = authenticate_line password
line_of (signalling sig) = signal_line sig
line_of (asking keywords) = get_info_line keywords
line_of (subscribing events) = set_events_line events
line_of (setting m) = set_conf_line m

checked-IsOneLine :
    (m : Result ControlError (Unit {0})) (head body cmd : Bytes)
    → IsOneLine head
    → (m ≡ ok tt → IsOneLine body)
    → (m >> ok (head ++ body)) ≡ ok cmd
    → IsOneLine cmd
checked-IsOneLine (err e) head body cmd h k q = absurd (cc)
checked-IsOneLine (ok tt) head body cmd h k q =
    subst IsOneLine (grind (arith, q)) (append-IsOneLine head body h (k refl))

line_of-IsOneLine : (r : Request) (cmd : Bytes) → line_of r ≡ ok cmd → IsOneLine cmd
unfolding line_of authenticate_line signal_line get_info_line set_events_line set_conf_line bytes
line_of-IsOneLine (authenticating s) cmd h =
    checked-IsOneLine (check s) (bytes "AUTHENTICATE \"") (s ++ bytes "\"") cmd (ground arith)
      (λ k. append-IsOneLine s (bytes "\"") (check-IsOneLine s k) (ground arith)) h
line_of-IsOneLine (signalling s) cmd h =
    checked-IsOneLine (check s) (bytes "SIGNAL ") s cmd (ground arith) (check-IsOneLine s) h
line_of-IsOneLine (asking ss) cmd h =
    checked-IsOneLine (each check ss) (bytes "GETINFO ") (join (bytes " ") ss) cmd (ground arith)
      (λ k. join-IsOneLine ss (each-IsOneLine ss k)) h
line_of-IsOneLine (subscribing ss) cmd h =
    checked-IsOneLine (each check ss) (bytes "SETEVENTS ") (join (bytes " ") ss) cmd (ground arith)
      (λ k. join-IsOneLine ss (each-IsOneLine ss k)) h
line_of-IsOneLine (setting m) cmd h =
    checked-IsOneLine (each check_entry m) (bytes "SETCONF ") (join (bytes " ") (map entry_text m))
      cmd (ground arith) (λ k. join-IsOneLine (map entry_text m) (entries-IsOneLine m k)) h

exchange-sent :
    {A : Type 0} (m : Result ControlError Bytes) (f : List Bytes → Result ControlError A) (w : Wire)
    (text : Bytes)
    → (exchange m f w).0 ≡ some text
    → (cmd : Bytes) × (m ≡ ok cmd) × (text ≡ cmd ++ (13 ∷ 10 ∷ []))
unfolding send_command bytes
exchange-sent (err e) f w text h = absurd (cc)
exchange-sent (ok cmd) f w text h = (cmd, refl, go w.writes h)
  where
    reply : Bool → Option Bytes × Result ControlError (List Bytes)
    reply b =
        if b
        then (some (cmd ++ (13 ∷ 10 ∷ [])), collect_response w.incoming)
        else (none, err write_failed)

    go : (b : Bool) → (reply b).0 ≡ some text → text ≡ cmd ++ (13 ∷ 10 ∷ [])
    go true k = grind (arith, k)
    go false k = absurd (cc)

sent-line :
    (r : Request) (w : Wire) (text : Bytes)
    → sent r w ≡ some text
    → (cmd : Bytes) × (line_of r ≡ ok cmd) × (text ≡ cmd ++ (13 ∷ 10 ∷ []))
unfolding sent line_of authenticate signal get_info set_events set_conf
sent-line (authenticating s) w text h = exchange-sent (authenticate_line s) accept w text h
sent-line (signalling s) w text h = exchange-sent (signal_line s) accept w text h
sent-line (asking ss) w text h =
    exchange-sent (get_info_line ss) (λ ls. ok (read_info [] ls)) w text h
sent-line (subscribing ss) w text h = exchange-sent (set_events_line ss) accept w text h
sent-line (setting m) w text h = exchange-sent (set_conf_line m) accept w text h

-- Whatever a method is asked to send, it writes nothing or one line: a text without line ends, and
-- CRLF behind it.
pub sent-IsOneLine :
    (r : Request) (w : Wire) (text : Bytes)
    → sent r w ≡ some text
    → (cmd : Bytes) × (text ≡ cmd ++ (13 ∷ 10 ∷ [])) × IsOneLine cmd
sent-IsOneLine r w text h =
    let (cmd, q, e) = sent-line r w text h in (cmd, e, line_of-IsOneLine r cmd q)
