-- ===== src/Tor/Control.antt =====
-- controller/internal/tor/control.go: the commands and their replies. What a command meets on the
-- connection is `Wire`: whether the write succeeds, and what the loop of collectResponse receives, a line
-- of the reply or the end of the connection; behind these there is its timeout.
use torvmremix.Base.{
  Bool, false, ◌||◌, Option, none, some, List, [], ◌∷◌, ◌++◌, Result, ok, err, ◌>>=◌, ◌>>◌, each,
  Bytes, bytes, join, split_at_byte, ◌==◌, if◌then◌else◌, map,
}
use torvmremix.Tor.Events.{EventError, expect_ok, validate_no_newlines, strip_status_prefix}
use torvmremix.Tor.Directives.{Directives, insert}

pub data ControlError : Type 0 where
  illegal : EventError → ControlError
  write_failed closed timed_out : ControlError
  error_reply : Bytes → ControlError
  not_ok : EventError → ControlError
  not_found : Bytes → ControlError

pub data Incoming : Type 0 where
  line : Bytes → Incoming
  end : Incoming

pub record Wire : Type 0 where
  pub writes : Bool
  pub incoming : List Incoming

-- A check whose error is wrapped.
abbrev pub wrap :
    {A : Type 0} → (EventError → ControlError) → Result EventError A → Result ControlError A
wrap f (err e) = err (f e)
wrap f (ok a) = ok a

abbrev pub check : Bytes → Result ControlError (Unit {0})
check s = wrap illegal (validate_no_newlines s)

-- The commands, without the CRLF behind them.
unfoldable pub authenticate_line : Bytes → Result ControlError Bytes
authenticate_line password = do
  check password
  ok (bytes "AUTHENTICATE \"" ++ (password ++ bytes "\""))

unfoldable pub get_info_line : List Bytes → Result ControlError Bytes
get_info_line keywords = do each check keywords; ok (bytes "GETINFO " ++ join (bytes " ") keywords)

unfoldable pub signal_line : Bytes → Result ControlError Bytes
signal_line sig = do check sig; ok (bytes "SIGNAL " ++ sig)

abbrev pub check_entry : Bytes × Bytes → Result ControlError (Unit {0})
check_entry e = check e.0 >> check e.1

abbrev pub entry_text : Bytes × Bytes → Bytes
entry_text e = e.0 ++ (bytes "=" ++ e.1)

-- The range over the map meets its entries in the order of the list.
unfoldable pub set_conf_line : Directives → Result ControlError Bytes
set_conf_line directives = do
  each check_entry directives
  ok (bytes "SETCONF " ++ join (bytes " ") (map entry_text directives))

unfoldable pub set_events_line : List Bytes → Result ControlError Bytes
set_events_line events = do each check events; ok (bytes "SETEVENTS " ++ join (bytes " ") events)

-- line[3] == ' ', for a line of four bytes at least.
unfoldable pub is_final : Bytes → Bool
is_final (a ∷ b ∷ c ∷ d ∷ s) = d == 32
is_final _ = false

unfoldable pub is_error : Bytes → Bool
is_error [] = false
is_error (a ∷ s) = a == b'4' || a == b'5'

unfoldable pub collect_response : List Incoming → Result ControlError (List Bytes)
collect_response [] = err timed_out
collect_response (end ∷ more) = err closed
collect_response (line l ∷ more) =
    let rest = collect_response more in
    if is_final l
    then (if is_error l then err (error_reply l) else ok (l ∷ []))
    else (rest >>= λ ls. ok (l ∷ ls))

-- sendCommand: what is written, and the reply.
unfoldable pub send_command : Bytes → Wire → Option Bytes × Result ControlError (List Bytes)
send_command cmd w =
    if w.writes
    then (some (cmd ++ bytes "\r\n"), collect_response w.incoming)
    else (none, err write_failed)

-- A method: nothing is sent if the command is refused.
abbrev pub exchange :
    {A : Type 0}
    → Result ControlError Bytes
    → (List Bytes → Result ControlError A)
    → Wire
    → Option Bytes × Result ControlError A
exchange (err e) f w = (none, err e)
exchange (ok cmd) f w = let (sent, reply) = send_command cmd w in (sent, reply >>= f)

abbrev pub accept : List Bytes → Result ControlError (Unit {0})
accept lines = wrap not_ok (expect_ok lines)

-- The loop of GetInfo over the lines of the reply.
unfoldable pub read_info : Directives → List Bytes → Directives
read_info m [] = m
read_info m (l ∷ ls) =
    read_info
      (elim (split_at_byte b'=' (strip_status_prefix l)) [ none ↦ m | some e ↦ insert e.0 e.1 m ])
      ls

unfoldable pub authenticate : Bytes → Wire → Option Bytes × Result ControlError (Unit {0})
authenticate password w = exchange (authenticate_line password) accept w

unfoldable pub get_info : List Bytes → Wire → Option Bytes × Result ControlError Directives
get_info keywords w = exchange (get_info_line keywords) (λ ls. ok (read_info [] ls)) w

unfoldable pub signal : Bytes → Wire → Option Bytes × Result ControlError (Unit {0})
signal sig w = exchange (signal_line sig) accept w

unfoldable pub set_conf : Directives → Wire → Option Bytes × Result ControlError (Unit {0})
set_conf directives w = exchange (set_conf_line directives) accept w

unfoldable pub set_events : List Bytes → Wire → Option Bytes × Result ControlError (Unit {0})
set_events events w = exchange (set_events_line events) accept w
