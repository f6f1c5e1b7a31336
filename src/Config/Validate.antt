-- ===== src/Config/Validate.antt =====
-- controller/internal/config/config.go: Validate, section by section.
use torvmremix.Base.{
  ◌==◌, ℕ, Bool, false, not, ◌&&◌, ◌||◌, List, [], ◌∷◌, ℤ, outside, is_zero, Result, ok, ◌>>◌,
  refuse_if, each, leb, if◌then◌else◌, all, length, String, Bytes, bytes, is_nil, has_byte,
  has_prefix, contains, one_of,
}
use torvmremix.Config.Schema.{
  Os, windows, Config, EntropyConfig, VectorConfig, FheConfig, BrowserConfig,
}
use torvmremix.Config.Address.{parse_ip_ok}

pub data ConfigError : Type 0 where
  invalid_ip : (name value : Bytes) → ConfigError
  out_of_range : (name : Bytes) (lo hi : ℕ) (value : ℤ) → ConfigError
  empty_path : (name : Bytes) → ConfigError
  empty_tap_name : ConfigError
  bad_tap_name : Bytes → ConfigError
  not_allowed : (name value : Bytes) → ConfigError
  null_byte not_a_device has_dots : ConfigError

abbrev pub Check : Type 0
Check = Result ConfigError (Unit {0})

abbrev pub is_letter : ℕ → Bool
is_letter c = (leb b'a' c && leb c b'z') || (leb b'A' c && leb c b'Z')

abbrev pub is_alnum : ℕ → Bool
is_alnum c = is_letter c || (leb b'0' c && leb c b'9')

-- ^[a-zA-Z][a-zA-Z0-9]{0,14}$
unfoldable pub tap_name_unix : Bytes → Bool
tap_name_unix [] = false
tap_name_unix (c ∷ s) = is_letter c && all (λ d. is_alnum d) s && leb (length s) 14

-- ^[a-zA-Z][a-zA-Z0-9 -]{0,63}$
unfoldable pub tap_name_windows : Bytes → Bool
tap_name_windows [] = false
tap_name_windows (c ∷ s) =
    is_letter c && all (λ d. is_alnum d || d == 32 || d == 45) s && leb (length s) 63

unfoldable pub tap_name_ok : Os → Bytes → Bool
unfolding tap_name_unix tap_name_windows
tap_name_ok windows s = tap_name_windows s
tap_name_ok _ s = tap_name_unix s

unfoldable pub validate_tap_name : Os → Bytes → Check
validate_tap_name os name = do
  refuse_if (is_nil name) empty_tap_name
  refuse_if (not (tap_name_ok os name)) (bad_tap_name name)

abbrev pub check_range : String → ℕ → ℕ → ℤ → Check
check_range name lo hi z = refuse_if (outside lo hi z) (out_of_range (bytes name) lo hi z)

unfoldable pub validate_port : String → ℤ → Check
validate_port name port = check_range name 1 65535 port

abbrev pub check_ip : Bytes × Bytes → Check
check_ip p = refuse_if (not (parse_ip_ok p.1)) (invalid_ip p.0 p.1)

abbrev pub check_path : Bytes × Bytes → Check
check_path p = refuse_if (is_nil p.1) (empty_path p.0)

abbrev pub check_one_of : String → Bytes → List Bytes → Check
check_one_of name v xs = refuse_if (not (one_of v xs)) (not_allowed (bytes name) v)

abbrev pub accels : List Bytes
accels = [] ∷ bytes "kvm" ∷ bytes "hvf" ∷ bytes "whpx" ∷ bytes "tcg" ∷ []

abbrev pub proxy_kinds : List Bytes
proxy_kinds = [] ∷ bytes "http" ∷ bytes "https" ∷ bytes "socks5" ∷ []

abbrev pub transports : List Bytes
transports = [] ∷ bytes "none" ∷ bytes "obfs4" ∷ bytes "meek-azure" ∷ bytes "snowflake" ∷ []

abbrev pub search_modes : List Bytes
search_modes = bytes "keyword" ∷ bytes "vector" ∷ bytes "hybrid" ∷ [] ∷ []

abbrev pub addresses : Config → List (Bytes × Bytes)
addresses c =
    (bytes "HostIP", c.host_ip)
    ∷ (bytes "VMIP", c.vm_ip)
    ∷ (bytes "SubnetMask", c.subnet_mask)
    ∷ (bytes "DNS1", c.dns1)
    ∷ (bytes "DNS2", c.dns2)
    ∷ []

unfoldable pub validate_addresses : Config → Check
validate_addresses c = each check_ip (addresses c)

unfoldable pub validate_machine : Config → Check
unfolding validate_port
validate_machine c = do
  validate_port "SOCKSPort" c.socks_port
  validate_port "ControlPort" c.control_port
  validate_port "TransPort" c.trans_port
  validate_port "DNSPort" c.dns_port
  check_range "VMMemoryMB" 32 4096 c.vm_memory_mb
  check_range "VMCPUs" 1 16 c.vm_cpus

abbrev pub required_paths : Config → List (Bytes × Bytes)
required_paths c =
    (bytes "KernelPath", c.kernel_path)
    ∷ (bytes "InitrdPath", c.initrd_path)
    ∷ (bytes "StateDiskPath", c.state_disk_path)
    ∷ (bytes "QMPSocketPath", c.qmp_socket_path)
    ∷ []

unfoldable pub validate_names : Os → Config → Check
unfolding validate_tap_name
validate_names os c = do
  each check_path (required_paths c)
  validate_tap_name os c.tap_name
  check_one_of "Accel" c.accel accels
  check_one_of "Proxy.Type" c.proxy.kind proxy_kinds
  check_one_of "Bridge.Transport" c.bridge.transport transports

unfoldable pub validate_device : Bytes → Check
validate_device dev = if is_nil dev then ok tt else do
  refuse_if (has_byte 0 dev) null_byte
  refuse_if (not (has_prefix dev (bytes "/dev/"))) not_a_device
  refuse_if (contains dev (bytes "..")) has_dots

unfoldable pub validate_entropy : EntropyConfig → Check
unfolding validate_device
validate_entropy n = do
  check_range "Entropy.VirtioRNGMaxBytes" 64 65536 n.virtio_rng_max_bytes
  check_range "Entropy.VirtioRNGPeriod" 100 60000 n.virtio_rng_period
  check_range "Entropy.KernelEntropyBytes" 16 256 n.kernel_entropy_bytes
  validate_device n.serial_entropy_device

unfoldable pub validate_vector : VectorConfig → Check
validate_vector v = if not v.enabled then ok tt else do
  check_range "Vector.Dimension" 8 2048 v.dimension
  check_range "Vector.HNSWm" 4 64 v.hnsw_m
  check_range "Vector.HNSWefConstruct" 10 1000 v.hnsw_ef_construct
  check_range "Vector.HNSWefSearch" 10 500 v.hnsw_ef_search
  check_range "Vector.TopK" 1 1000 v.top_k
  check_one_of "Vector.SearchMode" v.search_mode search_modes

unfoldable pub validate_fhe : FheConfig → Check
unfolding validate_port
validate_fhe f = if not f.enabled then ok tt else do
  check_range "FHE.RingDegree" 10 15 f.ring_degree
  (if is_zero f.hidden_service_port
      then ok tt
      else validate_port "FHE.HiddenServicePort" f.hidden_service_port)
  check_range "FHE.MaxIndexSizeMB" 1 10240 f.max_index_size_mb
  check_range "FHE.AutoIndexInterval" 1 1440 f.auto_index_interval

abbrev pub browser_paths : BrowserConfig → List (Bytes × Bytes)
browser_paths b =
    (bytes "Browser.KernelPath", b.kernel_path)
    ∷ (bytes "Browser.InitrdPath", b.initrd_path)
    ∷ (bytes "Browser.StateDiskPath", b.state_disk_path)
    ∷ (bytes "Browser.QMPSocketPath", b.qmp_socket_path)
    ∷ []

unfoldable pub validate_browser : BrowserConfig → Check
validate_browser b = if not b.enabled then ok tt else do
  check_range "Browser.VMMemoryMB" 256 4096 b.vm_memory_mb
  check_range "Browser.VMCPUs" 1 8 b.vm_cpus
  check_range "Browser.VNCDisplay" 0 99 b.vnc_display
  check_range "Browser.CanaryIntervalSec" 1 300 b.canary_interval_sec
  each check_path (browser_paths b)

unfoldable pub validate : Os → Config → Check
unfolding validate_addresses validate_machine validate_names validate_entropy validate_vector
    validate_fhe validate_browser
validate os c = do
  validate_addresses c
  validate_machine c
  validate_names os c
  validate_entropy c.entropy
  validate_vector c.vector
  validate_fhe c.fhe
  validate_browser c.browser
