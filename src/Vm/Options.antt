-- ===== src/Vm/Options.antt =====
-- The options of the command lines that controller/internal/vm/qemu_args.go and browser_args.go
-- build, read the way QEMU reads them: an option and its value, or one of the flags alone.
use torvmremix.Base.{
  Bool, true, false, ◌||◌, ◌≡◌, refl, List, [], ◌∷◌, ◌++◌, Bytes, bytes, eq_bytes, if◌then◌else◌,
  gt_lit, port_text, Bool-cases, inl, inr, ◌&&◌, is_nil,
}
use torvmremix.Config.Schema.{Os, windows, darwin, linux, is_windows, Config}
use torvmremix.Vm.Shared.{block_args, rng_args, qmp_args, is_accel, accel_or_tcg}
use torvmremix.Vm.Qemu.{all_args, tap_args, serial_entropy_args}
use torvmremix.Vm.Browser.{all_browser_args}

-- What the next argument is: an option, or the value of one, kept or passed over.
pub data Next : Type 0 where
  option : Next
  value : Bool → Next

abbrev is_flag : Bytes → Bool
is_flag o = eq_bytes o (bytes "-nographic") || eq_bytes o (bytes "-nodefaults")

unfoldable pub collect : Bytes → Next → List Bytes → List Bytes
collect name n [] = []
collect name option (o ∷ args) =
    collect name (if is_flag o then option else value (eq_bytes o name)) args
collect name (value kept) (v ∷ args) =
    let vs = collect name option args in if kept then v ∷ vs else vs

-- The values that a command line gives an option, in order.
abbrev pub values : Bytes → List Bytes → List Bytes
values name args = collect name option args

-- What the browser's machine is given: one network, without a way for the host in, and a screen on
-- the local host at most.
unfoldable pub IsBrowserLine : Os → Config → List Bytes → Type 0
IsBrowserLine os c args =
    (values (bytes "-netdev") args ≡ bytes "user,id=net0,restrict=on" ∷ [])
    × (values (bytes "-vnc") args ≡ (
        if gt_lit c.browser.vnc_display 0
        then (bytes "127.0.0.1:" ++ port_text c.browser.vnc_display) ∷ []
        else []))
    × (values (bytes "-kernel") args ≡ c.browser.kernel_path ∷ [])
    × (values (bytes "-initrd") args ≡ c.browser.initrd_path ∷ [])
    × (values (bytes "-smp") args ≡ port_text c.browser.vm_cpus ∷ [])
    × (values (bytes "-m") args ≡ port_text c.browser.vm_memory_mb ∷ [])
    × (values (bytes "-qmp") args
        ≡ ((if is_windows os then bytes "pipe:" else bytes "unix:")
            ++ c.browser.qmp_socket_path
            ++ bytes ",server,nowait")
          ∷ [])

pub all_browser_args-line :
    (os : Os) (c : Config) (e : Bytes) → IsBrowserLine os c (all_browser_args os c e)
unfolding IsBrowserLine all_browser_args collect block_args rng_args qmp_args bytes eq_bytes
all_browser_args-line os c e = elim (Bool-cases (gt_lit c.browser.vnc_display 0)) [
  | inl h ↦ rw h (refl, refl, refl, refl, refl, refl, refl)
  | inr h ↦ rw h (refl, refl, refl, refl, refl, refl, refl)
]

-- The network device that each platform asks for.
abbrev relay_network : Os → Config → Bytes
relay_network windows c =
    bytes "tap,id=net0,ifname=" ++ c.tap_name ++ bytes ",script=no,downscript=no"
relay_network linux c =
    (bytes "tap,id=net0,ifname=" ++ c.tap_name ++ bytes ",script=no,downscript=no")
    ++ (if c.vhost_net then bytes ",vhost=on" else [])
relay_network darwin c =
    bytes "vmnet-shared,id=net0,start-address="
    ++ c.vm_ip
    ++ bytes ",end-address="
    ++ c.host_ip
    ++ bytes ",subnet-mask="
    ++ c.subnet_mask

abbrev disk_cache : Bytes → Bytes
disk_cache accel =
    if is_accel "kvm" accel
    then bytes "cache=none,aio=native"
    else if is_accel "hvf" accel
    then bytes "cache=writeback,aio=threads"
    else if is_accel "whpx" accel
    then bytes "cache=writeback,aio=threads"
    else bytes "cache=writeback"

-- What the relay's machine is given: one network device, one drive, and the files, sizes and the
-- monitor's socket of the configuration, each once.
unfoldable pub IsRelayLine : Os → Config → List Bytes → Type 0
IsRelayLine os c args =
    (values (bytes "-netdev") args ≡ relay_network os c ∷ [])
    × (values (bytes "-kernel") args ≡ c.kernel_path ∷ [])
    × (values (bytes "-initrd") args ≡ c.initrd_path ∷ [])
    × (values (bytes "-drive") args
        ≡ (bytes "file="
            ++ c.state_disk_path
            ++ bytes ",id=drive0,if=none,format=raw,"
            ++ disk_cache (accel_or_tcg c.accel))
          ∷ [])
    × (values (bytes "-smp") args ≡ port_text c.vm_cpus ∷ [])
    × (values (bytes "-m") args ≡ port_text c.vm_memory_mb ∷ [])
    × (values (bytes "-chardev") args ≡ (
        if is_nil c.entropy.serial_entropy_device
        then []
        else (bytes "serial,id=entropy_serial,path=" ++ c.entropy.serial_entropy_device) ∷ []))
    × (values (bytes "-qmp") args
        ≡ ((if is_windows os then bytes "pipe:" else bytes "unix:")
            ++ c.qmp_socket_path
            ++ bytes ",server,nowait")
          ∷ [])

pub all_args-line : (os : Os) (c : Config) (e : Bytes) → IsRelayLine os c (all_args os c e)
unfolding IsRelayLine all_args collect block_args rng_args qmp_args tap_args serial_entropy_args
    bytes eq_bytes
all_args-line os c e =
    go os (c.iommu_enabled && is_accel "kvm" (accel_or_tcg c.accel)) refl
      (is_nil c.entropy.serial_entropy_device) refl
  where
    go :
        (o : Os) (b : Bool)
        → c.iommu_enabled && is_accel "kvm" (accel_or_tcg c.accel) ≡ b
        → (d : Bool) → is_nil c.entropy.serial_entropy_device ≡ d
        → IsRelayLine o c (all_args o c e)
    go windows true h true k = rw (h, k) (refl, refl, refl, refl, refl, refl, refl, refl)
    go windows true h false k = rw (h, k) (refl, refl, refl, refl, refl, refl, refl, refl)
    go windows false h true k = rw (h, k) (refl, refl, refl, refl, refl, refl, refl, refl)
    go windows false h false k = rw (h, k) (refl, refl, refl, refl, refl, refl, refl, refl)
    go linux true h true k = rw (h, k) (refl, refl, refl, refl, refl, refl, refl, refl)
    go linux true h false k = rw (h, k) (refl, refl, refl, refl, refl, refl, refl, refl)
    go linux false h true k = rw (h, k) (refl, refl, refl, refl, refl, refl, refl, refl)
    go linux false h false k = rw (h, k) (refl, refl, refl, refl, refl, refl, refl, refl)
    go darwin true h true k = rw (h, k) (refl, refl, refl, refl, refl, refl, refl, refl)
    go darwin true h false k = rw (h, k) (refl, refl, refl, refl, refl, refl, refl, refl)
    go darwin false h true k = rw (h, k) (refl, refl, refl, refl, refl, refl, refl, refl)
    go darwin false h false k = rw (h, k) (refl, refl, refl, refl, refl, refl, refl, refl)
