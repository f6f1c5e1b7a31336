-- ===== src/Config/Schema.antt =====
-- controller/internal/config/config.go: the configuration and its defaults. A Go `int` is an
-- integer, a string is its bytes. `runtime.GOOS` is a parameter.
use torvmremix.Base.{Bool, true, false, List, [], ◌++◌, ℤ, pos, String, Bytes, bytes}

-- runtime.GOOS, as far as the code tells platforms apart.
pub data Os : Type 0 where
  windows darwin linux : Os

abbrev pub is_windows : Os → Bool
is_windows windows = true
is_windows _ = false

-- A slice is its elements, and whether it is nil, which only reflect.DeepEqual tells from empty.
pub record BridgeConfig : Type 0 where
  pub use_bridges : Bool
  pub transport : Bytes
  pub bridges : List Bytes
  pub nil_bridges : Bool

pub record ProxyConfig : Type 0 where
  pub kind : Bytes  -- the field Type
  pub address : Bytes
  pub username : Bytes
  pub password : Bytes

pub record RetryConfig : Type 0 where
  pub enabled : Bool
  pub max_attempts : ℤ

pub record ServiceConfig : Type 0 where
  pub run_at_load : Bool

pub record EntropyConfig : Type 0 where
  pub enable_haveged : Bool
  pub enable_rngd : Bool
  pub expose_rdrand : Bool
  pub serial_entropy_device : Bytes
  pub virtio_rng_max_bytes : ℤ
  pub virtio_rng_period : ℤ
  pub kernel_entropy_bytes : ℤ

pub record VectorConfig : Type 0 where
  pub enabled : Bool
  pub index_dir : Bytes
  pub dimension : ℤ
  pub model_path : Bytes
  pub hnsw_m : ℤ
  pub hnsw_ef_construct : ℤ
  pub hnsw_ef_search : ℤ
  pub search_mode : Bytes
  pub top_k : ℤ

pub record FheConfig : Type 0 where
  pub enabled : Bool
  pub index_dir : Bytes
  pub document_dirs : List Bytes
  pub nil_document_dirs : Bool
  pub share_enabled : Bool
  pub hidden_service_port : ℤ
  pub peers : List Bytes
  pub nil_peers : Bool
  pub ring_degree : ℤ
  pub auto_index : Bool
  pub auto_index_interval : ℤ
  pub max_index_size_mb : ℤ

pub record BrowserConfig : Type 0 where
  pub enabled : Bool
  pub vm_memory_mb : ℤ
  pub vm_cpus : ℤ
  pub kernel_path : Bytes
  pub initrd_path : Bytes
  pub state_disk_path : Bytes
  pub qmp_socket_path : Bytes
  pub vnc_display : ℤ
  pub auto_start : Bool
  pub canary_interval_sec : ℤ
  pub honey_tokens : Bool
  pub auto_remediate : Bool

pub record RelayConfig : Type 0 where
  pub exclude_nodes : List Bytes
  pub nil_exclude_nodes : Bool
  pub exclude_exit_nodes : List Bytes
  pub nil_exclude_exit_nodes : Bool
  pub strict_nodes : Bool

pub record Config : Type 0 where
  pub version : ℤ
  pub tap_name : Bytes
  pub host_ip : Bytes
  pub vm_ip : Bytes
  pub subnet_mask : Bytes
  pub dns1 : Bytes
  pub dns2 : Bytes
  pub socks_port : ℤ
  pub control_port : ℤ
  pub trans_port : ℤ
  pub dns_port : ℤ
  pub vm_memory_mb : ℤ
  pub vm_cpus : ℤ
  pub kernel_path : Bytes
  pub initrd_path : Bytes
  pub state_disk_path : Bytes
  pub qmp_socket_path : Bytes
  pub verbose : Bool
  pub accel : Bytes
  pub headless : Bool
  pub vhost_net : Bool
  pub iommu_enabled : Bool
  pub bridge : BridgeConfig
  pub proxy : ProxyConfig
  pub service : ServiceConfig
  pub retry : RetryConfig
  pub entropy : EntropyConfig
  pub relays : RelayConfig
  pub browser : BrowserConfig
  pub fhe : FheConfig
  pub vector : VectorConfig

-- filepath.Join of three plain elements.
path_join : Os → String → String → String → Bytes
path_join windows a b c = bytes a ++ bytes "\\" ++ bytes b ++ bytes "\\" ++ bytes c
path_join _ a b c = bytes a ++ bytes "/" ++ bytes b ++ bytes "/" ++ bytes c

path_join₂ : Os → String → String → Bytes
path_join₂ windows a b = bytes a ++ bytes "\\" ++ bytes b
path_join₂ _ a b = bytes a ++ bytes "/" ++ bytes b

pub default_qmp_path : Os → Bytes
default_qmp_path windows = bytes "\\\\.\\pipe\\torvm-qmp"
default_qmp_path _ = bytes "/run/torvm/qmp.sock"

pub default_browser_qmp_path : Os → Bytes
default_browser_qmp_path windows = bytes "\\\\.\\pipe\\torvm-browser-qmp"
default_browser_qmp_path _ = bytes "/run/torvm/browser-qmp.sock"

pub default_tap_name : Os → Bytes
default_tap_name windows = bytes "TorVM Tap"
default_tap_name _ = bytes "torvm0"

default_entropy : EntropyConfig
default_entropy = record {
  enable_haveged = true;
  enable_rngd = true;
  expose_rdrand = true;
  serial_entropy_device = [];
  virtio_rng_max_bytes = pos 1024;
  virtio_rng_period = pos 1000;
  kernel_entropy_bytes = pos 64;
}

default_vector : Os → VectorConfig
default_vector os = record {
  enabled = false;
  index_dir = path_join₂ os "dist" "vector";
  dimension = pos 128;
  model_path = [];
  hnsw_m = pos 16;
  hnsw_ef_construct = pos 200;
  hnsw_ef_search = pos 50;
  search_mode = bytes "hybrid";
  top_k = pos 10;
}

default_fhe : Os → FheConfig
default_fhe os = record {
  enabled = false;
  index_dir = path_join₂ os "dist" "fhe";
  document_dirs = [];
  nil_document_dirs = true;
  share_enabled = false;
  hidden_service_port = pos 8443;
  peers = [];
  nil_peers = true;
  ring_degree = pos 12;
  auto_index = false;
  auto_index_interval = pos 60;
  max_index_size_mb = pos 512;
}

default_browser : Os → BrowserConfig
default_browser os = record {
  enabled = false;
  vm_memory_mb = pos 512;
  vm_cpus = pos 2;
  kernel_path = path_join os "dist" "browservm" "vmlinuz";
  initrd_path = path_join os "dist" "browservm" "initramfs.gz";
  state_disk_path = path_join os "dist" "browservm" "state.img";
  qmp_socket_path = default_browser_qmp_path os;
  vnc_display = pos 1;
  auto_start = true;
  canary_interval_sec = pos 5;
  honey_tokens = true;
  auto_remediate = true;
}

unfoldable pub default_config : Os → Config
unfolding path_join default_qmp_path default_browser_qmp_path default_tap_name default_entropy
    default_vector default_fhe default_browser path_join₂
default_config os = record {
  version = pos 0;
  tap_name = default_tap_name os;
  host_ip = bytes "10.10.10.2";
  vm_ip = bytes "10.10.10.1";
  subnet_mask = bytes "255.255.255.252";
  dns1 = bytes "4.2.2.4";
  dns2 = bytes "4.2.2.2";
  socks_port = pos 9050;
  control_port = pos 9051;
  trans_port = pos 9095;
  dns_port = pos 9093;
  vm_memory_mb = pos 128;
  vm_cpus = pos 2;
  kernel_path = path_join os "dist" "vm" "vmlinuz";
  initrd_path = path_join os "dist" "vm" "initramfs.gz";
  state_disk_path = path_join os "dist" "vm" "state.img";
  qmp_socket_path = default_qmp_path os;
  verbose = false;
  accel = [];
  headless = false;
  vhost_net = false;
  iommu_enabled = false;
  bridge = record { use_bridges = false; transport = []; bridges = []; nil_bridges = true };
  proxy = record { kind = []; address = []; username = []; password = [] };
  service = record { run_at_load = false };
  retry = record { enabled = true; max_attempts = pos 3 };
  entropy = default_entropy;
  relays = record {
    exclude_nodes = [];
    nil_exclude_nodes = true;
    exclude_exit_nodes = [];
    nil_exclude_exit_nodes = true;
    strict_nodes = false;
  };
  browser = default_browser os;
  fhe = default_fhe os;
  vector = default_vector os;
}
