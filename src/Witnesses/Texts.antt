-- ===== src/Witnesses/Texts.antt =====
-- Concrete settings and texts for controller/internal/config, logging, vm and tor.
use torvmremix.Base.{
  ℕ, ◌++◌, has_byte, has_byte-Free, Visible, All, pos, has_prefix, split_at_byte, ◌≡◌, refl, ◌↔◌,
  true, false, none, some, List, [], ◌∷◌, ◌++◌, All, any, Result, ok, err, Bytes, bytes, split,
  has_byte, eq_bytes, trim_space, prefix_length, to_lower, join, arith,
}
use torvmremix.Config.Schema.{linux, Config, default_config}
use torvmremix.Config.Address.{parse_ip_ok, split_host_port}
use torvmremix.Config.Torrc.{torrc_overlay, overlay_lines}
use torvmremix.Config.Directives.{IsDirective}
use torvmremix.Config.Overlay.{torrc_overlay_lines}
use torvmremix.Logging.Ring.{RingWriter, new_ring_writer, on_line, lines}
use torvmremix.Logging.Parts.{whole_lines, open_line}
use torvmremix.Logging.History.{recent}
use torvmremix.Logging.Writes.{write_each, written, lines-history}
use torvmremix.Vm.Shared.{Rand}
use torvmremix.Vm.Qemu.{checked_paths, or_default, build_args}
use torvmremix.Vm.Browser.{browser_checked_paths, build_browser_args}
use torvmremix.Vm.Options.{IsRelayLine, IsBrowserLine}
use torvmremix.Vm.Lines.{Filled, NoNull, build_args-line, build_browser_args-line}
use torvmremix.Tor.Fields.{fields, fields_from}
use torvmremix.Tor.Circuit.{get_circuits, is_short, get_circuits-panics}
use torvmremix.Tor.Events.{BootstrapStatus}
use torvmremix.Tor.Directives.{
  lookup, insert, directive_of, read_lines, parse_torrc_overlay, last_value,
  parse_torrc_overlay-torrc_of, torrc_of, Directives, IsKey, IsValue, IsEntry,
}

abbrev settings : Config
settings = record (default_config linux) {
  bridge = record {
    use_bridges = true;
    transport = bytes "obfs4";
    bridges = bytes "obfs4 192.0.2.7:443 cert=x" ∷ bytes "obfs4 192.0.2.8:443 cert=y" ∷ [];
    nil_bridges = false;
  };
}

abbrev text_in : {E : Type 0} → Result E Bytes → Bytes
text_in (ok s) = s
text_in (err e) = []

abbrev overlay : Bytes
overlay = text_in (torrc_overlay settings)

-- Of the two bridges of these settings SETCONF is given the second only.
second_bridge :
    lookup (bytes "Bridge") (parse_torrc_overlay overlay)
    ≡ some (bytes "obfs4 192.0.2.8:443 cert=y")
unfolding torrc_overlay default_config bytes has_byte trim_space prefix_length has_prefix to_lower
    eq_bytes join lookup parse_torrc_overlay read_lines insert directive_of split split_at_byte
second_bridge = refl

torrc_overlay_lines_example :
    (ls : List Bytes) × (overlay_lines settings ≡ ok ls)
    × (split 10 overlay ≡ ls ++ ([] ∷ []))
    × All IsDirective ls
unfolding torrc_overlay default_config bytes has_byte trim_space prefix_length has_prefix to_lower
    eq_bytes join parse_ip_ok
torrc_overlay_lines_example = torrc_overlay_lines settings overlay refl refl

abbrev rand : Rand
rand n = some (0x1f ∷ 0xa0 ∷ [])

build_args-line_example :
    (((args : List Bytes) × (build_args linux rand settings ≡ ok args)) ↔ (
      NoNull (checked_paths settings)
      × Filled rand (or_default settings.entropy.kernel_entropy_bytes (pos 32))))
    × ((args : List Bytes)
        → build_args linux rand settings ≡ ok args
        → IsRelayLine linux settings args)
build_args-line_example = build_args-line linux rand settings

build_browser_args-line_example :
    (((args : List Bytes) × (build_browser_args linux rand settings ≡ ok args))
      ↔ (NoNull (browser_checked_paths settings.browser) × ((buf : Bytes) × (rand 64 ≡ some buf))))
    × ((args : List Bytes)
        → build_browser_args linux rand settings ≡ ok args
        → IsBrowserLine linux settings args)
build_browser_args-line_example = build_browser_args-line linux rand settings

abbrev chunks : List Bytes
chunks = bytes "one\ntw" ∷ bytes "o\nthree\nfo" ∷ []

lines-history_example :
    (r : RingWriter) × (write_each (on_line (new_ring_writer 2)) chunks
      ≡ some (r, whole_lines (written chunks)))
    × (lines r ≡ recent 2 (whole_lines (written chunks)))
    × (r.partial ≡ open_line (written chunks))
lines-history_example = lines-history 2 chunks (omega arith)

get_circuits-panics_example :
    (get_circuits (bytes "7 EXTENDED") ≡ none)
    ↔ (any is_short (split 10 (bytes "7 EXTENDED")) ≡ true)
get_circuits-panics_example = get_circuits-panics (bytes "7 EXTENDED")

-- A line of two fields is short.
short_test : is_short (bytes "7 EXTENDED") ≡ true
unfolding is_short trim_space fields fields_from prefix_length has_prefix bytes
short_test = refl

abbrev two_bridges : Directives
two_bridges =
    (bytes "UseBridges", bytes "1")
    ∷ (bytes "Bridge", bytes "obfs4 192.0.2.7:443 cert=x")
    ∷ (bytes "Bridge", bytes "obfs4 192.0.2.8:443 cert=y")
    ∷ []

KeyTests : Bytes → Type 0
KeyTests k = (has_byte 32 k ≡ false) × (has_byte 10 k ≡ false)

keyed : (c : ℕ) (s : Bytes) → Visible c → KeyTests (c ∷ s) → IsKey (c ∷ s)
unfolding KeyTests
keyed c s v h = (v, has_byte-Free 32 (c ∷ s) h.0, has_byte-Free 10 (c ∷ s) h.1)

valued :
    (u : Bytes) (d : ℕ) → Visible d → has_byte 10 (u ++ (d ∷ [])) ≡ false → IsValue (u ++ (d ∷ []))
valued u d v h = (u, d, refl, v, has_byte-Free 10 (u ++ (d ∷ [])) h)

two_bridges-IsEntry : All IsEntry two_bridges
unfolding bytes has_byte KeyTests
two_bridges-IsEntry = (
  (
    keyed b'U' (bytes "seBridges") (omega arith, omega arith) (refl, refl),
    valued [] b'1' (omega arith, omega arith) refl,
  ),
  (
    (
      keyed b'B' (bytes "ridge") (omega arith, omega arith) (refl, refl),
      valued (bytes "obfs4 192.0.2.7:443 cert=") b'x' (omega arith, omega arith) refl,
    ),
    (
      (
        keyed b'B' (bytes "ridge") (omega arith, omega arith) (refl, refl),
        valued (bytes "obfs4 192.0.2.8:443 cert=") b'y' (omega arith, omega arith) refl,
      ),
      tt,
    ),
  ),
)

parse_torrc_overlay-torrc_of_example :
    lookup (bytes "Bridge") (parse_torrc_overlay (torrc_of two_bridges))
    ≡ last_value (bytes "Bridge") two_bridges
parse_torrc_overlay-torrc_of_example =
    parse_torrc_overlay-torrc_of two_bridges (bytes "Bridge") two_bridges-IsEntry

-- Only the second of the two bridges is left.
last_bridge_test :
    last_value (bytes "Bridge") two_bridges ≡ some (bytes "obfs4 192.0.2.8:443 cert=y")
unfolding last_value bytes eq_bytes
last_bridge_test = refl

parse_ip_mask : parse_ip_ok (bytes "255.255.255.252") ≡ true
unfolding parse_ip_ok bytes
parse_ip_mask = refl

parse_ip_too_large : parse_ip_ok (bytes "10.10.10.256") ≡ false
unfolding parse_ip_ok bytes
parse_ip_too_large = refl

parse_ip_embedded : parse_ip_ok (bytes "2001:db8::192.0.2.1") ≡ true
unfolding parse_ip_ok bytes
parse_ip_embedded = refl

split_bracketed : split_host_port (bytes "[::1]:9050") ≡ ok (bytes "::1", bytes "9050")
unfolding split_host_port bytes
split_bracketed = refl

abbrev phase : Bytes
phase = bytes "NOTICE BOOTSTRAP PROGRESS=50 TAG=conn SUMMARY=\"Connecting\""

abbrev half : BootstrapStatus
half = record { progress = pos 50; tag = bytes "conn"; summary = bytes "Connecting" }
