-- ===== src/Config/Diff.antt =====
-- controller/internal/config/diff.go: what differs between two configurations. The fields are listed here that
-- Diff finds by reflection.
use torvmremix.Base.{
  Bool, not, ◌||◌, List, [], ◌∷◌, ◌++◌, String, Bytes, bytes, is_nil, eq_bytes, one_of,
  if◌then◌else◌,
}
use torvmremix.Config.Schema.{Config}
use torvmremix.Config.Deep.{
  deep_equal, nat_deep, bool_deep, int_deep, list_deep, bridge_deep, proxy_deep, service_deep,
  retry_deep, entropy_deep, relays_deep, browser_deep, fhe_deep, vector_deep,
}

pub record ConfigDiff : Type 0 where
  pub hot_reloadable : List Bytes
  pub restart_required : List Bytes

abbrev pub has_changes : ConfigDiff → Bool
has_changes d = not (is_nil d.hot_reloadable) || not (is_nil d.restart_required)

abbrev pub hot_reloadable_fields : List Bytes
hot_reloadable_fields =
    bytes "Bridge"
    ∷ bytes "Proxy"
    ∷ bytes "Verbose"
    ∷ bytes "Relays"
    ∷ bytes "FHE"
    ∷ bytes "Vector"
    ∷ []

-- A field of the two configurations: its name and tag, and whether they agree in it.
pub record Field : Type 0 where
  pub name : Bytes
  pub tag : Bytes
  pub unchanged : Bool

abbrev field : String → String → Bool → Field
field name tag unchanged = record { name = bytes name; tag = bytes tag; unchanged = unchanged }

unfoldable pub fields : Config → Config → List Field
fields old new =
    field "Version" "config_version" (deep_equal old.version new.version)
    ∷ field "TAPName" "tap_name" (deep_equal old.tap_name new.tap_name)
    ∷ field "HostIP" "host_ip" (deep_equal old.host_ip new.host_ip)
    ∷ field "VMIP" "vm_ip" (deep_equal old.vm_ip new.vm_ip)
    ∷ field "SubnetMask" "subnet_mask" (deep_equal old.subnet_mask new.subnet_mask)
    ∷ field "DNS1" "dns1" (deep_equal old.dns1 new.dns1)
    ∷ field "DNS2" "dns2" (deep_equal old.dns2 new.dns2)
    ∷ field "SOCKSPort" "socks_port" (deep_equal old.socks_port new.socks_port)
    ∷ field "ControlPort" "control_port" (deep_equal old.control_port new.control_port)
    ∷ field "TransPort" "trans_port" (deep_equal old.trans_port new.trans_port)
    ∷ field "DNSPort" "dns_port" (deep_equal old.dns_port new.dns_port)
    ∷ field "VMMemoryMB" "vm_memory_mb" (deep_equal old.vm_memory_mb new.vm_memory_mb)
    ∷ field "VMCPUs" "vm_cpus" (deep_equal old.vm_cpus new.vm_cpus)
    ∷ field "KernelPath" "kernel_path" (deep_equal old.kernel_path new.kernel_path)
    ∷ field "InitrdPath" "initrd_path" (deep_equal old.initrd_path new.initrd_path)
    ∷ field "StateDiskPath" "state_disk_path" (deep_equal old.state_disk_path new.state_disk_path)
    ∷ field "QMPSocketPath" "qmp_socket_path" (deep_equal old.qmp_socket_path new.qmp_socket_path)
    ∷ field "Verbose" "verbose" (deep_equal old.verbose new.verbose)
    ∷ field "Accel" "accel" (deep_equal old.accel new.accel)
    ∷ field "Headless" "headless" (deep_equal old.headless new.headless)
    ∷ field "VhostNet" "-" (deep_equal old.vhost_net new.vhost_net)
    ∷ field "IOMMUEnabled" "-" (deep_equal old.iommu_enabled new.iommu_enabled)
    ∷ field "Bridge" "bridge" (deep_equal old.bridge new.bridge)
    ∷ field "Proxy" "proxy" (deep_equal old.proxy new.proxy)
    ∷ field "Service" "service" (deep_equal old.service new.service)
    ∷ field "Retry" "retry" (deep_equal old.retry new.retry)
    ∷ field "Entropy" "entropy" (deep_equal old.entropy new.entropy)
    ∷ field "Relays" "relays" (deep_equal old.relays new.relays)
    ∷ field "Browser" "browser" (deep_equal old.browser new.browser)
    ∷ field "FHE" "fhe" (deep_equal old.fhe new.fhe)
    ∷ field "Vector" "vector" (deep_equal old.vector new.vector)
    ∷ []

abbrev pub label : Field → Bytes
label f = f.name ++ bytes " (" ++ f.tag ++ bytes ")"

abbrev pub skipped : Field → Bool
skipped f = eq_bytes f.tag (bytes "-")

-- The loop over the fields.
unfoldable pub diff_fields : List Field → ConfigDiff
diff_fields [] = record { hot_reloadable = []; restart_required = [] }
diff_fields (f ∷ fs) =
    let rest = diff_fields fs in
    if skipped f
    then rest
    else if f.unchanged
    then rest
    else if one_of f.name hot_reloadable_fields
    then record rest { hot_reloadable = label f ∷ rest.hot_reloadable }
    else record rest { restart_required = label f ∷ rest.restart_required }

unfoldable pub diff : Config → Config → ConfigDiff
diff old new = diff_fields (fields old new)
