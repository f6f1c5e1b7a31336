-- ===== src/Vm/Instance.antt =====
-- The instances of the two machines: NewInstance and Start of controller/internal/vm/qemu.go, and Start of
-- browser.go. What the system answers during a call is a parameter. A started process runs until it
-- exits, when the goroutine that waits for it marks the instance as not running.
use torvmremix.Base.{
  Bool, true, false, not, ◌&&◌, List, [], ◌∷◌, ◌++◌, Result, ok, err, ◌>>=◌, ◌>>◌, refuse_if, each,
  map_err, Bytes, bytes, is_nil, if◌then◌else◌,
}
use torvmremix.Config.Schema.{Os, Config, is_windows}
use torvmremix.Config.Torrc.{TorrcError, torrc_overlay}
use torvmremix.Vm.Shared.{Rand, ArgsError}
use torvmremix.Vm.Qemu.{build_args}
use torvmremix.Vm.Browser.{build_browser_args}
use torvmremix.Vm.Binary.{Finder, BinaryError, resolve_qemu_binary}
use torvmremix.Vm.StateDisk.{Disk, DiskError, write_state_disk_file}

-- Besides the files: whether os.Stat finds a path, os.MkdirAll makes the directory of one, and the process
-- starts.
pub record Host : Type 0 where
  pub finder : Finder
  pub disk : Disk
  pub rand : Rand
  pub exists : Bytes → Bool
  pub makes_dir_of : Bytes → Bool
  pub executes : Bytes → List Bytes → Bool

pub record Instance : Type 0 where
  pub config : Config
  pub qemu_path : Bytes
  pub running : Bool

pub data StartError : Type 0 where
  already_running no_directory no_binary not_started : StartError
  bad_overlay : TorrcError → StartError
  not_written : DiskError → StartError
  not_found : Bytes → StartError
  bad_args : ArgsError → StartError
  bad_binary : BinaryError → StartError

-- A process that was started.
pub record Process : Type 0 where
  pub path : Bytes
  pub args : List Bytes

abbrev pub path_or_empty : Result BinaryError Bytes → Bytes
path_or_empty (err e) = []
path_or_empty (ok path) = path

unfoldable pub new_instance : Os → Finder → Config → Instance
new_instance os f c = record {
  config = c;
  qemu_path = path_or_empty (resolve_qemu_binary os f);
  running = false;
}

unfoldable pub new_browser_instance : Config → Instance
new_browser_instance c = record { config = c; qemu_path = []; running = false }

abbrev pub write_overlay : Host → Config → Bytes → Result StartError (Unit {0})
write_overlay h c text =
    if is_nil text
    then ok tt
    else map_err not_written
        (write_state_disk_file h.disk c.state_disk_path (bytes "torrc.override") text)

abbrev pub check_exists : Host → Bytes × Bytes → Result StartError (Unit {0})
check_exists h file = refuse_if (not (h.exists file.1)) (not_found file.0)

abbrev pub image_files : Config → List (Bytes × Bytes)
image_files c =
    (bytes "kernel", c.kernel_path)
    ∷ (bytes "initrd", c.initrd_path)
    ∷ (bytes "state disk", c.state_disk_path)
    ∷ []

abbrev pub browser_files : Config → List (Bytes × Bytes)
browser_files c =
    (bytes "BrowserKernel", c.browser.kernel_path)
    ∷ (bytes "BrowserInitrd", c.browser.initrd_path)
    ∷ (bytes "BrowserStateDisk", c.browser.state_disk_path)
    ∷ []

unfoldable pub start_relay : Os → Host → Instance → Result StartError Process
start_relay os h inst = do
  refuse_if inst.running already_running
  text ← map_err bad_overlay (torrc_overlay inst.config)
  write_overlay h inst.config text
  each (check_exists h) (image_files inst.config)
  refuse_if (not (is_windows os) && not (h.makes_dir_of inst.config.qmp_socket_path)) no_directory
  args ← map_err bad_args (build_args os h.rand inst.config)
  refuse_if (is_nil inst.qemu_path) no_binary
  refuse_if (not (h.executes inst.qemu_path args)) not_started
  ok (record { path = inst.qemu_path; args = args })

unfoldable pub start_browser : Os → Host → Instance → Result StartError Process
start_browser os h inst = do
  refuse_if inst.running already_running
  each (check_exists h) (browser_files inst.config)
  path ← map_err bad_binary (resolve_qemu_binary os h.finder)
  args ← map_err bad_args (build_browser_args os h.rand inst.config)
  refuse_if (not (h.makes_dir_of inst.config.browser.qmp_socket_path)) no_directory
  refuse_if (not (h.executes path args)) not_started
  ok (record { path = path; args = args })

-- What happens to an instance: a call of Start, with what it meets, or the end of its process.
pub data Happening : Type 0 where
  start_called : Host → Happening
  process_ended : Happening

pub data Event : Type 0 where
  started : Process → Event
  ended : Event

abbrev pub Starter : Type 0
Starter = Host → Instance → Result StartError Process

abbrev pub after_start : Instance → Result StartError Process → Instance × List Event
after_start inst (err e) = (inst, [])
after_start inst (ok p) = (record inst { running = true }, started p ∷ [])

unfoldable pub happen : Starter → Instance → Happening → Instance × List Event
happen start inst (start_called h) = after_start inst (start h inst)
happen start inst process_ended =
    if inst.running then (record inst { running = false }, ended ∷ []) else (inst, [])

unfoldable pub history : Starter → Instance → List Happening → List Event
history start inst [] = []
history start inst (x ∷ xs) =
    let (inst', events) = happen start inst x in let rest = history start inst' xs in events ++ rest
