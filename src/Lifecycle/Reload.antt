-- ===== src/Lifecycle/Reload.antt =====
-- ReloadConfig of controller/internal/lifecycle/lifecycle.go, and how the window calls it when a relay is blocked
-- (controller/gui/circuits_tab.go). Configurations are shared by pointer, so they stand in a heap.
use torvmremix.Base.{
  false, ℕ, Bool, not, ◌&&◌, Option, none, some, List, [], ◌∷◌, ◌++◌, ◌==◌, if◌then◌else◌, Result,
  ok, err, Bytes, bytes, is_nil, one_of, has_prefix,
}
use torvmremix.Config.Schema.{Config}
use torvmremix.Config.Torrc.{TorrcError, torrc_overlay}
use torvmremix.Config.Deep.{deep_equal, bool_deep}
use torvmremix.Config.Diff.{has_changes, diff}
use torvmremix.Tor.Directives.{Directives, parse_torrc_overlay}
use torvmremix.Tor.Control.{ControlError, Wire, set_conf, signal}
use torvmremix.Lifecycle.State.{State, running, same_state}

-- What the pointers point to.
abbrev pub Heap : Type 0
Heap = ℕ → Config

-- The fields of the engine that ReloadConfig meets, and the setting of its logger.
pub record Live : Type 0 where
  pub config : ℕ
  pub verbose : Bool
  pub state : State
  pub connected : Bool  -- TorControl != nil

pub data ReloadError : Type 0 where
  overlay : TorrcError → ReloadError
  setconf : ControlError → ReloadError

-- What the two commands meet on the connection, and the order in which Go ranges over a map.
pub record Link : Type 0 where
  pub for_setconf : Wire
  pub for_signal : Wire
  pub arrange : Directives → Directives

abbrev pub texts_of : Option Bytes → List Bytes
texts_of none = []
texts_of (some t) = t ∷ []

abbrev pub Pushed : Type 0
Pushed = List Bytes × Result ReloadError (Unit {0})

unfoldable pub push_overlay : Bytes → Link → Pushed
push_overlay text link =
    if is_nil text
    then ([], ok tt)
    else (let (sent, reply) = set_conf (link.arrange (parse_torrc_overlay text)) link.for_setconf in
        (texts_of sent, elim reply [ err e ↦ err (setconf e) | ok done ↦ ok tt ]))

-- The signal, whose error is only logged.
unfoldable pub then_signal : Pushed → Link → Pushed
then_signal (sent, err e) link = (sent, err e)
then_signal (sent, ok done) link =
    (sent ++ texts_of (signal (bytes "RELOAD") link.for_signal).0, ok tt)

unfoldable pub push : Config → Link → Pushed
push new link = elim (torrc_overlay new) [
  | err e ↦ ([], err (overlay e))
  | ok text ↦ then_signal (push_overlay text link) link
]

abbrev pub push_hot : List Bytes → Live → Config → Link → Pushed
push_hot hot live new link =
    if not (is_nil hot) && (live.connected && same_state live.state running)
    then push new link
    else ([], ok tt)

abbrev pub adopt : Heap → Live → ℕ → Live
adopt heap live new = record live {
  config = new;
  verbose =
      if not (deep_equal (heap new).verbose (heap live.config).verbose)
      then (heap new).verbose
      else live.verbose;
}

unfoldable pub after_push : Heap → Live → ℕ → Pushed → Live × Pushed
after_push heap live new (sent, err e) = (live, (sent, err e))
after_push heap live new (sent, ok done) = (adopt heap live new, (sent, ok tt))

unfoldable pub reload_config : Heap → Live → ℕ → Link → Live × Pushed
reload_config heap live new link =
    let d = diff (heap live.config) (heap new) in
    if has_changes d
    then after_push heap live new (push_hot d.hot_reloadable live (heap new) link)
    else (live, ([], ok tt))

-- A relay that is blocked in the window: an entry of ExcludeNodes in the window's configuration, and a
-- reload if Tor is up.
abbrev pub with_dollar : Bytes → Bytes
with_dollar fp = if has_prefix fp (bytes "$") then fp else bytes "$" ++ fp

abbrev pub exclude : Bytes → Config → Config
exclude fp c = record c {
  relays = record c.relays {
    exclude_nodes = c.relays.exclude_nodes ++ (fp ∷ []);
    nil_exclude_nodes = false;
  };
}

abbrev pub put_config : ℕ → Config → Heap → Heap
put_config p c heap = λ q. if p == q then c else heap q

abbrev pub Window : Type 0
Window = Heap × (Live × List Bytes)

unfoldable pub reload_if_running : Heap → Live → ℕ → Link → Window
reload_if_running heap live cfg link =
    if same_state live.state running
    then (let (live', pushed) = reload_config heap live cfg link in (heap, (live', pushed.0)))
    else (heap, (live, []))

unfoldable pub block_relay : Heap → Live → ℕ → Bytes → Link → Window
block_relay heap live cfg fingerprint link =
    let fp = with_dollar fingerprint in
    if one_of fp (heap cfg).relays.exclude_nodes
    then (heap, (live, []))
    else reload_if_running (put_config cfg (exclude fp (heap cfg)) heap) live cfg link
