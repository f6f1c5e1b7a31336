-- ===== src/Vm/Browser.antt =====
-- controller/internal/vm/browser_args.go: the command line of the browser's machine.
use torvmremix.Base.{
  List, [], ◌∷◌, ◌++◌, pos, gt_lit, Result, ok, ◌>>=◌, ◌>>◌, each, Bytes, bytes, if◌then◌else◌,
  port_text,
}
use torvmremix.Config.Schema.{Os, is_windows, Config, BrowserConfig}
use torvmremix.Vm.Shared.{
  ArgsError, Rand, entropy_hex_string, check_no_null, accel_or_tcg, is_accel, cpu_of, block_args,
  rng_args, qmp_args,
}

abbrev pub browser_checked_paths : BrowserConfig → List (Bytes × Bytes)
browser_checked_paths b =
    (bytes "Browser.KernelPath", b.kernel_path)
    ∷ (bytes "Browser.InitrdPath", b.initrd_path)
    ∷ (bytes "Browser.StateDiskPath", b.state_disk_path)
    ∷ (bytes "Browser.QMPSocketPath", b.qmp_socket_path)
    ∷ []

unfoldable pub browser_kernel_append : Config → Bytes → Bytes
browser_kernel_append c entropy =
    bytes "quiet TORIP="
    ++ c.vm_ip
    ++ bytes " SOCKSPORT="
    ++ port_text c.socks_port
    ++ bytes " DNSPORT="
    ++ port_text c.dns_port
    ++ bytes " ENTROPY="
    ++ entropy
    ++ bytes " CANARY_INTERVAL="
    ++ port_text c.browser.canary_interval_sec
    ++ (if c.browser.honey_tokens then bytes " HONEY_TOKENS=1" else [])
    ++ (if c.browser.auto_remediate then bytes " AUTO_REMEDIATE=1" else [])

unfoldable pub secwatch_socket_path : Os → Bytes
secwatch_socket_path os =
    if is_windows os then bytes "\\\\.\\pipe\\torvm-secwatch" else bytes "/run/torvm/secwatch.sock"

abbrev pub browser_options : Config → Bytes → Bytes → List Bytes
browser_options c accel append =
    bytes "-name"
    ∷ bytes "BrowserVM"
    ∷ bytes "-nodefaults"
    ∷ bytes "-machine"
    ∷ (if is_accel "kvm" accel then bytes "q35,kernel-irqchip=on" else bytes "q35")
    ∷ bytes "-cpu"
    ∷ cpu_of accel c.entropy
    ∷ bytes "-accel"
    ∷ accel
    ∷ bytes "-smp"
    ∷ port_text c.browser.vm_cpus
    ∷ bytes "-m"
    ∷ port_text c.browser.vm_memory_mb
    ∷ bytes "-kernel"
    ∷ c.browser.kernel_path
    ∷ bytes "-initrd"
    ∷ c.browser.initrd_path
    ∷ bytes "-append"
    ∷ append
    ∷ []

abbrev pub browser_block_args : BrowserConfig → Bytes → List Bytes
browser_block_args b accel = block_args accel b.state_disk_path

abbrev pub browser_rng_args : Os → List Bytes
browser_rng_args os = rng_args os (bytes "1024") (bytes "1000")

abbrev pub display_args : BrowserConfig → List Bytes
display_args b =
    if gt_lit b.vnc_display 0
    then bytes "-vnc" ∷ (bytes "127.0.0.1:" ++ port_text b.vnc_display) ∷ []
    else bytes "-nographic" ∷ []

abbrev pub secwatch_args : Os → List Bytes
secwatch_args os =
    bytes "-device"
    ∷ bytes "virtio-serial-pci"
    ∷ bytes "-chardev"
    ∷ (bytes "socket,id=secwatch,path=" ++ secwatch_socket_path os ++ bytes ",server=on,wait=off")
    ∷ bytes "-device"
    ∷ bytes "virtserialport,chardev=secwatch,name=com.torvm.secwatch"
    ∷ []

-- The arguments that BuildBrowserArgs puts together once it has its entropy.
unfoldable pub all_browser_args : Os → Config → Bytes → List Bytes
unfolding secwatch_socket_path
all_browser_args os c entropy =
    let accel = accel_or_tcg c.accel in
    browser_options c accel (browser_kernel_append c entropy)
    ++ browser_block_args c.browser accel
    ++ (bytes "-netdev"
        ∷ bytes "user,id=net0,restrict=on"
        ∷ bytes "-device"
        ∷ bytes "virtio-net-pci,netdev=net0"
        ∷ [])
    ++ browser_rng_args os
    ++ (bytes "-device" ∷ bytes "virtio-balloon-pci" ∷ [])
    ++ secwatch_args os
    ++ display_args c.browser
    ++ qmp_args os c.browser.qmp_socket_path

unfoldable pub build_browser_args : Os → Rand → Config → Result ArgsError (List Bytes)
build_browser_args os rand c = do
  each check_no_null (browser_checked_paths c.browser)
  entropy ← entropy_hex_string rand (pos 64)
  ok (all_browser_args os c entropy)
