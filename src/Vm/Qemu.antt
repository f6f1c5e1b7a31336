-- ===== src/Vm/Qemu.antt =====
-- controller/internal/vm/qemu_args.go: the command line of the relay's machine.
use torvmremix.Base.{
  ◌&&◌, List, [], ◌∷◌, ◌++◌, ℤ, pos, is_zero, Result, ok, ◌>>=◌, ◌>>◌, each, Bytes, bytes, is_nil,
  if◌then◌else◌, port_text,
}
use torvmremix.Config.Schema.{Os, windows, darwin, linux, Config}
use torvmremix.Vm.Shared.{
  ArgsError, Rand, entropy_hex_string, check_no_null, accel_or_tcg, is_accel, cpu_of, block_args,
  rng_args, qmp_args,
}

abbrev pub checked_paths : Config → List (Bytes × Bytes)
checked_paths c =
    (bytes "KernelPath", c.kernel_path)
    ∷ (bytes "InitrdPath", c.initrd_path)
    ∷ (bytes "StateDiskPath", c.state_disk_path)
    ∷ (bytes "QMPSocketPath", c.qmp_socket_path)
    ∷ []

abbrev pub or_default : ℤ → ℤ → ℤ
or_default z d = if is_zero z then d else z

unfoldable pub kernel_append : Config → Bytes → Bytes
kernel_append c entropy =
    bytes "quiet IP="
    ++ c.host_ip
    ++ bytes " MASK="
    ++ c.subnet_mask
    ++ bytes " GW="
    ++ c.vm_ip
    ++ bytes " MTU=1500 PRIVIP="
    ++ c.vm_ip
    ++ bytes " CTLSOCK="
    ++ c.vm_ip
    ++ bytes ":"
    ++ port_text c.control_port
    ++ bytes " ENTROPY="
    ++ entropy
    ++ (if c.entropy.enable_haveged then bytes " HAVEGED=1" else [])
    ++ (if c.entropy.enable_rngd then bytes " RNGD=1" else [])
    ++ (if is_nil c.entropy.serial_entropy_device then [] else bytes " SERIAL_ENTROPY=1")

unfoldable pub machine_args : Config → Bytes
machine_args c =
    if is_accel "kvm" (accel_or_tcg c.accel)
    then if c.iommu_enabled then bytes "q35,kernel-irqchip=split" else bytes "q35,kernel-irqchip=on"
    else bytes "q35"

unfoldable pub serial_entropy_args : Bytes → List Bytes
serial_entropy_args dev =
    if is_nil dev
    then []
    else bytes "-chardev"
      ∷ (bytes "serial,id=entropy_serial,path=" ++ dev)
      ∷ bytes "-device"
      ∷ bytes "isa-serial,chardev=entropy_serial"
      ∷ []

tap_netdev : Config → Bytes
tap_netdev c = bytes "tap,id=net0,ifname=" ++ c.tap_name ++ bytes ",script=no,downscript=no"

netdev : Os → Config → Bytes
unfolding tap_netdev
netdev windows c = tap_netdev c
netdev darwin c =
    bytes "vmnet-shared,id=net0,start-address="
    ++ c.vm_ip
    ++ bytes ",end-address="
    ++ c.host_ip
    ++ bytes ",subnet-mask="
    ++ c.subnet_mask
netdev linux c = tap_netdev c ++ (if c.vhost_net then bytes ",vhost=on" else [])

unfoldable pub tap_args : Os → Config → List Bytes
unfolding netdev
tap_args os c =
    bytes "-netdev" ∷ netdev os c ∷ bytes "-device" ∷ bytes "virtio-net-pci,netdev=net0" ∷ []

abbrev pub machine_options : Config → Bytes → Bytes → List Bytes
machine_options c accel append =
    bytes "-name"
    ∷ bytes "TorVM"
    ∷ bytes "-machine"
    ∷ machine_args c
    ∷ bytes "-cpu"
    ∷ cpu_of accel c.entropy
    ∷ bytes "-accel"
    ∷ accel
    ∷ bytes "-smp"
    ∷ port_text c.vm_cpus
    ∷ bytes "-m"
    ∷ port_text c.vm_memory_mb
    ∷ bytes "-kernel"
    ∷ c.kernel_path
    ∷ bytes "-initrd"
    ∷ c.initrd_path
    ∷ bytes "-append"
    ∷ append
    ∷ []

abbrev pub iommu_args : Config → Bytes → List Bytes
iommu_args c accel =
    if c.iommu_enabled && is_accel "kvm" accel
    then bytes "-device" ∷ bytes "intel-iommu,intremap=on,caching-mode=on" ∷ []
    else []

-- The arguments that BuildArgs puts together once it has its entropy.
unfoldable pub all_args : Os → Config → Bytes → List Bytes
unfolding machine_args serial_entropy_args tap_args
all_args os c entropy =
    let accel = accel_or_tcg c.accel in
    machine_options c accel (kernel_append c entropy)
    ++ block_args accel c.state_disk_path
    ++ iommu_args c accel
    ++ rng_args os (port_text (or_default c.entropy.virtio_rng_max_bytes (pos 1024)))
        (port_text (or_default c.entropy.virtio_rng_period (pos 1000)))
    ++ serial_entropy_args c.entropy.serial_entropy_device
    ++ (bytes "-device" ∷ bytes "virtio-balloon-pci" ∷ bytes "-nographic" ∷ [])
    ++ tap_args os c
    ++ qmp_args os c.qmp_socket_path

unfoldable pub build_args : Os → Rand → Config → Result ArgsError (List Bytes)
build_args os rand c = do
  each check_no_null (checked_paths c)
  entropy ← entropy_hex_string rand (or_default c.entropy.kernel_entropy_bytes (pos 32))
  ok (all_args os c entropy)
