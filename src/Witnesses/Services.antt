-- ===== src/Witnesses/Services.antt =====
-- Concrete runs for the control port, the reload, the updates and the monitor of the browser VM.
use torvmremix.Base.{
  ℕ, ◌↔◌, pos, negsuc, contains, after_first, ◌≡◌, refl, ◌↔◌, true, false, none, some, List, [],
  ◌∷◌, ◌++◌, pos, get_elem?, All, ok, Bytes, bytes, arith, has_byte, has_prefix, join, one_of, ◌==◌,
  if◌then◌else◌,
}
use torvmremix.Config.Schema.{Config, linux, default_config}
use torvmremix.Config.Diff.{has_changes, diff}
use torvmremix.Config.DiffLaws.{persisted, diff-persisted}
use torvmremix.Tor.Directives.{Directives, lookup, last_value}
use torvmremix.Tor.Events.{is_async_event, validate_no_newlines}
use torvmremix.Tor.Control.{Wire, line, get_info, get_info_line, signal, signal_line, send_command}
use torvmremix.Tor.ControlLaws.{IsOneLine, signalling, sent, sent-IsOneLine}
use torvmremix.Tor.Replies.{reply_to, get_info-reply}
use torvmremix.Tor.ReaderMoves.{Move, arrives, other, reply, IsMove, Bounded, Accounted}
use torvmremix.Tor.ReaderLaws.{moves, heard, replies_taken, moves-Accounted}
use torvmremix.Tor.Reader.{
  sends, takes_reply, Loop, at_head, checks, reads, closes, gives_up, trim_line_end, receive,
  step_at, turn, turns,
}
use torvmremix.Vm.StateDisk.{
  Disk, Command, IsWord, debugfs_command, debugfs_command-words, validate_guest_path, guest_path_re,
  safe_host_path,
}
use torvmremix.Vm.Instance.{
  Host, Happening, start_called, process_ended, history, start_relay, start_browser, new_instance,
  new_browser_instance,
}
use torvmremix.Vm.InstanceLaws.{Supervised, IsRelayProcess, IsBrowserProcess, histories-Supervised}
use torvmremix.Update.Versions.{compare_versions}
use torvmremix.Update.VersionLaws.{version_text, IsBefore, compare_versions-text}
use torvmremix.Update.Checker.{Answer, no_response, response, Checker, new_checker, on_update}
use torvmremix.Lifecycle.State.{running}
use torvmremix.Lifecycle.Browser.{
  BrowserEngine, waiting_for_tor, returned, Run, BrowserMove, launch_pressed, stop_pressed,
  process_ends, critical, run_turns, handler_turns, sees_tor, starts_vm, receives, context_done,
  elapses, new_browser_engine, advance_all, advance, run_at, handler_at,
}
use torvmremix.Lifecycle.BrowserLaws.{waiting_on, stolen_exit}
use torvmremix.Lifecycle.BrowserWait.{cancelled_wait}
use torvmremix.Lifecycle.Reload.{Heap, Live, Link, with_dollar, block_relay}
use torvmremix.Lifecycle.ReloadLaws.{block_relay-unsent}
use torvmremix.Secwatch.Monitor.{
  SecurityEvent, Monitor, Action, head, dialled, scanned, act, subscribes, starts, stops,
  run_actions, new_monitor,
}
use torvmremix.Secwatch.Monitor as Watch
use torvmremix.Secwatch.MonitorLaws.{Idle, stopped_monitor_silent}

abbrev answered : Wire
answered = record { writes = true; incoming = line (bytes "250 OK") ∷ [] }

sent-IsOneLine_example :
    (cmd : Bytes) × (bytes "SIGNAL NEWNYM\r\n" ≡ cmd ++ (13 ∷ 10 ∷ [])) × IsOneLine cmd
unfolding sent signal signal_line send_command validate_no_newlines has_byte bytes
sent-IsOneLine_example =
    sent-IsOneLine (signalling (bytes "NEWNYM")) answered (bytes "SIGNAL NEWNYM\r\n") refl

abbrev infos : Directives
infos = (bytes "version", bytes "0.4.8.12") ∷ (bytes "fingerprint", bytes "A=B") ∷ []

get_info-reply_example :
    (found : Directives) × ((get_info
        (bytes "version" ∷ bytes "fingerprint" ∷ [])
        (record { writes = true; incoming = reply_to infos })).1
      ≡ ok found)
    × ((k : Bytes) → lookup k found ≡ last_value k infos)
unfolding get_info_line validate_no_newlines has_byte bytes join
get_info-reply_example =
    get_info-reply (bytes "version" ∷ bytes "fingerprint" ∷ [])
      (bytes "GETINFO version fingerprint") infos refl (ground arith)

abbrev fresh_loop : Loop
fresh_loop = record { events = []; replies = []; closed = false; place = at_head }

-- A reply is read, sent and taken, and another one is read before the connection is closed.
abbrev some_moves : List Move
some_moves =
    other checks
    ∷ arrives (reply (bytes "250-x"))
    ∷ other sends
    ∷ other takes_reply
    ∷ other checks
    ∷ arrives (reply (bytes "250 OK"))
    ∷ other closes
    ∷ other gives_up
    ∷ []

some_moves-IsMove : All IsMove some_moves
unfolding bytes
some_moves-IsMove = (
  tt,
  (
    (
      (bytes "250-", b'x', refl, (λ e. ground (arith, e)), (λ e. ground (arith, e))),
      (λ e. ground (arith, e)),
    ),
    (
      tt,
      (
        tt,
        (
          tt,
          (
            (
              (bytes "250 O", b'K', refl, (λ e. ground (arith, e)), (λ e. ground (arith, e))),
              (λ e. ground (arith, e)),
            ),
            (tt, (tt, tt)),
          ),
        ),
      ),
    ),
  ),
)

moves-Accounted_example :
    (Bounded fresh_loop → Bounded (moves fresh_loop some_moves))
    × Accounted
        (heard fresh_loop some_moves)
        (replies_taken fresh_loop some_moves)
        (moves fresh_loop some_moves)
moves-Accounted_example = moves-Accounted fresh_loop some_moves some_moves-IsMove

-- An event and a reply are read; the reply is lost when the connection is closed before it is sent.
lost_reply_test :
    (turns fresh_loop (
      checks
      ∷ reads (bytes "650 BW 1 2\r\n")
      ∷ checks
      ∷ reads (bytes "250 OK\r\n")
      ∷ closes
      ∷ gives_up
      ∷ [])).replies
    ≡ []
unfolding turns turn step_at receive trim_line_end is_async_event has_prefix bytes
lost_reply_test = refl

compare_versions-text_example :
    let o = compare_versions (version_text false (0, 9, 1)) (version_text true (0, 10, 0)) in
    ((o ≡ negsuc 0) ↔ IsBefore (0, 9, 1) (0, 10, 0))
    × ((o ≡ pos 1) ↔ IsBefore (0, 10, 0) (0, 9, 1))
    × ((o ≡ pos 0) ↔ (◌≡◌ {A = ℕ} 0 0 × ◌≡◌ {A = ℕ} 9 10 × ◌≡◌ {A = ℕ} 1 0))
compare_versions-text_example =
    compare_versions-text false true (0, 9, 1) (0, 10, 0) (ground arith) (ground arith)

abbrev release : Bytes → Answer
release tag =
    response 200 (some (record { tag_name = tag; html_url = bytes "https://github.com/releases" }))

abbrev checker : Checker
checker = on_update 2 (on_update 1 (new_checker (bytes "0.1.0")))

abbrev answers : List Answer
answers =
    no_response
    ∷ release (bytes "v0.1.0")
    ∷ release (bytes "v0.2.0")
    ∷ release (bytes "v0.2.0")
    ∷ response 500 none
    ∷ []

abbrev old_config : Config
old_config = default_config linux

abbrev new_config : Config
new_config = record old_config {
  verbose = true;
  relays = record {
    exclude_nodes = bytes "{de}" ∷ [];
    nil_exclude_nodes = false;
    exclude_exit_nodes = [];
    nil_exclude_exit_nodes = true;
    strict_nodes = true;
  };
}

diff-persisted_example :
    (has_changes (diff old_config new_config) ≡ false)
    ↔ (persisted old_config ≡ persisted new_config)
diff-persisted_example = diff-persisted old_config new_config

abbrev heap : Heap
heap p = if p == 0 then old_config else new_config

abbrev live : Live
live = record { config = 0; verbose = false; state = running; connected = true }

abbrev link : Link
link = record { for_setconf = answered; for_signal = answered; arrange = λ m. m }

block_relay-unsent_example :
    let (heap', (live', sent)) = block_relay heap live 0 (bytes "ABCD") link in
    (one_of (with_dollar (bytes "ABCD")) (heap' 0).relays.exclude_nodes ≡ true)
    × (live' ≡ live)
    × (sent ≡ [])
block_relay-unsent_example = block_relay-unsent heap live 0 (bytes "ABCD") link refl

abbrev violation : SecurityEvent
violation = record {
  kind = bytes "canary_violation";
  severity = bytes "critical";
  detail = bytes "pid 12";
  pid = pos 12;
  remediation = bytes "killed";
  timestamp = pos 1760000000;
}

abbrev actions : List Action
actions =
    subscribes 4
    ∷ starts
    ∷ Watch.turns 0 (dialled true)
    ∷ Watch.turns 0 (scanned (some violation))
    ∷ Watch.turns 0 (scanned none)
    ∷ []

abbrev stopped : Monitor
stopped = record { observers = 4 ∷ []; done = true; events = violation ∷ []; loops = head 1 ∷ [] }

stopped_monitor_silent_example :
    ((run_actions stopped actions).0.events ≡ stopped.events)
    × ((run_actions stopped actions).1 ≡ [])
unfolding Idle
stopped_monitor_silent_example = stopped_monitor_silent stopped actions refl (tt, tt)

abbrev disk : Disk
disk = record {
  absolute = λ p. some (bytes "/var/lib/" ++ p);
  stat = λ p. some true;
  create_temp = some (bytes "/var/lib/torvm-overlay-17");
  writes = λ content. true;
  debugfs = λ command image. true;
}

abbrev written_command : Command
written_command = record {
  text = bytes "write \"/var/lib/torvm-overlay-17\" torrc.override";
  image = bytes "/var/lib/state.img";
}

debugfs_command-words_example :
    (temp : Bytes) × (written_command.text
      ≡ bytes "write \"" ++ (temp ++ (bytes "\" " ++ bytes "torrc.override")))
    × IsWord temp
    × IsWord (bytes "torrc.override")
    × IsWord written_command.image
unfolding debugfs_command validate_guest_path guest_path_re safe_host_path contains has_prefix
    after_first bytes
debugfs_command-words_example =
    debugfs_command-words disk (bytes "state.img") (bytes "torrc.override")
      (bytes "Bridge 1.2.3.4:443\n") written_command refl

abbrev host : Host
host = record {
  finder = record {
    look_path = some (bytes "/usr/bin/qemu-system-x86_64");
    eval_symlinks = some;
    absolute = some;
  };
  disk = disk;
  rand = λ n. some (7 ∷ []);
  exists = λ p. true;
  makes_dir_of = λ p. true;
  executes = λ path args. true;
}

abbrev happenings : List Happening
happenings = start_called host ∷ start_called host ∷ process_ended ∷ start_called host ∷ []

histories-Supervised_example :
    Supervised
      (IsRelayProcess linux old_config)
      false
      (history (start_relay linux) (new_instance linux host.finder old_config) happenings)
    × Supervised
        (IsBrowserProcess linux old_config)
        false
        (history (start_browser linux) (new_browser_instance old_config) happenings)
histories-Supervised_example = histories-Supervised linux host.finder old_config happenings

-- The browser VM: a run that waits for its end while a handler stops it, and a restart.
abbrev under_attack : BrowserEngine
under_attack = advance_all true new_browser_engine (
    launch_pressed true
    ∷ run_turns 0 (sees_tor true)
    ∷ run_turns 0 (starts_vm true)
    ∷ critical 0
    ∷ handler_turns 0 elapses
    ∷ process_ends
    ∷ [])

abbrev restart : List BrowserMove
restart = handler_turns 0 (sees_tor true) ∷ handler_turns 0 (starts_vm true) ∷ process_ends ∷ []

stolen_exit_example :
    get_elem? (advance_all true under_attack (handler_turns 0 receives ∷ restart)).runs 0
    ≡ some (waiting_on 1)
unfolding advance_all advance run_at handler_at new_browser_engine act new_monitor
stolen_exit_example =
    stolen_exit true under_attack 0 0 1 0 restart refl refl refl refl (ground arith)
      (refl, (refl, (refl, tt)))

abbrev gave_up : BrowserEngine
gave_up =
    advance_all true new_browser_engine
      (launch_pressed true ∷ run_turns 0 (sees_tor false) ∷ stop_pressed ∷ [])

cancelled_wait_example :
    ((advance_all true gave_up (run_turns 0 context_done ∷ launch_pressed true ∷ [])).shared.state
      ≡ waiting_for_tor)
    × All
        (λ (r : Run). r.place ≡ returned)
        (advance_all true gave_up (run_turns 0 context_done ∷ launch_pressed true ∷ [])).runs
unfolding advance_all advance run_at handler_at new_browser_engine act new_monitor
cancelled_wait_example =
    cancelled_wait true gave_up 0 (launch_pressed true ∷ []) refl refl (refl, tt) tt (refl, tt)
