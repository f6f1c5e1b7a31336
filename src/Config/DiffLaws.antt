-- ===== src/Config/DiffLaws.antt =====
-- What Diff of controller/internal/config/diff.go finds: it compares all settings that are saved.
use torvmremix.Base.{
  ◌≡◌, refl, sym, ap, ◌∙◌, ◌↔◌, Bool, true, false, ◌||◌, List, [], ◌∷◌, ℤ, Bytes, bytes, eq_bytes,
  all, arith,
}
use torvmremix.Config.Schema.{
  Config, BridgeConfig, ProxyConfig, ServiceConfig, RetryConfig, EntropyConfig, RelayConfig,
  BrowserConfig, FheConfig, VectorConfig,
}
use torvmremix.Config.Deep.{
  Deep, ◌⊗◌, ◌&◌, nat_deep, bool_deep, int_deep, list_deep, both_deep, bridge_deep, proxy_deep,
  service_deep, retry_deep, entropy_deep, relays_deep, browser_deep, fhe_deep, vector_deep,
}
use torvmremix.Config.Diff.{has_changes, Field, fields, skipped, diff_fields, diff}

-- The settings that a file holds, in the order of the struct.
abbrev Saved : Type 0
Saved =
    ℤ
    ⊗ Bytes
    ⊗ Bytes
    ⊗ Bytes
    ⊗ Bytes
    ⊗ Bytes
    ⊗ Bytes
    ⊗ ℤ
    ⊗ ℤ
    ⊗ ℤ
    ⊗ ℤ
    ⊗ ℤ
    ⊗ ℤ
    ⊗ Bytes
    ⊗ Bytes
    ⊗ Bytes
    ⊗ Bytes
    ⊗ Bool
    ⊗ Bytes
    ⊗ Bool
    ⊗ BridgeConfig
    ⊗ ProxyConfig
    ⊗ ServiceConfig
    ⊗ RetryConfig
    ⊗ EntropyConfig
    ⊗ RelayConfig
    ⊗ BrowserConfig
    ⊗ FheConfig
    ⊗ VectorConfig
    ⊗ Unit {0}

abbrev saved : Config → Saved
saved c =
    c.version & c.tap_name & c.host_ip & c.vm_ip & c.subnet_mask & c.dns1 & c.dns2 & c.socks_port
    & c.control_port & c.trans_port & c.dns_port & c.vm_memory_mb & c.vm_cpus & c.kernel_path
    & c.initrd_path & c.state_disk_path & c.qmp_socket_path & c.verbose & c.accel & c.headless
    & c.bridge & c.proxy & c.service & c.retry & c.entropy & c.relays & c.browser & c.fhe & c.vector
    & tt

abbrev restored : Saved → Config
restored t = record {
  vhost_net = false;
  iommu_enabled = false;
  version = t.first;
  tap_name = t.rest.first;
  host_ip = t.rest.rest.first;
  vm_ip = t.rest.rest.rest.first;
  subnet_mask = t.rest.rest.rest.rest.first;
  dns1 = t.rest.rest.rest.rest.rest.first;
  dns2 = t.rest.rest.rest.rest.rest.rest.first;
  socks_port = t.rest.rest.rest.rest.rest.rest.rest.first;
  control_port = t.rest.rest.rest.rest.rest.rest.rest.rest.first;
  trans_port = t.rest.rest.rest.rest.rest.rest.rest.rest.rest.first;
  dns_port = t.rest.rest.rest.rest.rest.rest.rest.rest.rest.rest.first;
  vm_memory_mb = t.rest.rest.rest.rest.rest.rest.rest.rest.rest.rest.rest.first;
  vm_cpus = t.rest.rest.rest.rest.rest.rest.rest.rest.rest.rest.rest.rest.first;
  kernel_path = t.rest.rest.rest.rest.rest.rest.rest.rest.rest.rest.rest.rest.rest.first;
  initrd_path = t.rest.rest.rest.rest.rest.rest.rest.rest.rest.rest.rest.rest.rest.rest.first;
  state_disk_path =
      t.rest.rest.rest.rest.rest.rest.rest.rest.rest.rest.rest.rest.rest.rest.rest.first;
  qmp_socket_path =
      t.rest.rest.rest.rest.rest.rest.rest.rest.rest.rest.rest.rest.rest.rest.rest.rest.first;
  verbose =
      t.rest.rest.rest.rest.rest.rest.rest.rest.rest.rest.rest.rest.rest.rest.rest.rest.rest.first;
  accel =
      t.rest.rest.rest.rest.rest.rest.rest.rest.rest.rest.rest.rest.rest.rest.rest.rest.rest.rest.first;
  headless =
      t.rest.rest.rest.rest.rest.rest.rest.rest.rest.rest.rest.rest.rest.rest.rest.rest.rest.rest.rest.first;
  bridge =
      t.rest.rest.rest.rest.rest.rest.rest.rest.rest.rest.rest.rest.rest.rest.rest.rest.rest.rest.rest.rest.first;
  proxy =
      t.rest.rest.rest.rest.rest.rest.rest.rest.rest.rest.rest.rest.rest.rest.rest.rest.rest.rest.rest.rest.rest.first;
  service =
      t.rest.rest.rest.rest.rest.rest.rest.rest.rest.rest.rest.rest.rest.rest.rest.rest.rest.rest.rest.rest.rest.rest.first;
  retry =
      t.rest.rest.rest.rest.rest.rest.rest.rest.rest.rest.rest.rest.rest.rest.rest.rest.rest.rest.rest.rest.rest.rest.rest.first;
  entropy =
      t.rest.rest.rest.rest.rest.rest.rest.rest.rest.rest.rest.rest.rest.rest.rest.rest.rest.rest.rest.rest.rest.rest.rest.rest.first;
  relays =
      t.rest.rest.rest.rest.rest.rest.rest.rest.rest.rest.rest.rest.rest.rest.rest.rest.rest.rest.rest.rest.rest.rest.rest.rest.rest.first;
  browser =
      t.rest.rest.rest.rest.rest.rest.rest.rest.rest.rest.rest.rest.rest.rest.rest.rest.rest.rest.rest.rest.rest.rest.rest.rest.rest.rest.first;
  fhe =
      t.rest.rest.rest.rest.rest.rest.rest.rest.rest.rest.rest.rest.rest.rest.rest.rest.rest.rest.rest.rest.rest.rest.rest.rest.rest.rest.rest.first;
  vector =
      t.rest.rest.rest.rest.rest.rest.rest.rest.rest.rest.rest.rest.rest.rest.rest.rest.rest.rest.rest.rest.rest.rest.rest.rest.rest.rest.rest.rest.first;
}

instance abbrev unit_deep : Deep (Unit {0})
unit_deep = record { same = λ a b. true; same_iff = λ a b. (λ h. refl, λ h. refl) }

abbrev saved_deep : Deep Saved
saved_deep = both_deep

-- A configuration without what is found out when the program runs.
abbrev pub persisted : Config → Config
persisted c = record c { vhost_net = false; iommu_enabled = false }

abbrev agrees : Field → Bool
agrees f = skipped f || f.unchanged

has_changes_iff :
    (fs : List Field) → (has_changes (diff_fields fs) ≡ false) ↔ (all agrees fs ≡ true)
unfolding diff_fields
has_changes_iff [] = (λ h. refl, λ h. refl)
has_changes_iff (f ∷ fs) = ground (arith, has_changes_iff fs)

fields-saved :
    (old new : Config) → all agrees (fields old new) ≡ saved_deep.same (saved old) (saved new)
unfolding fields bytes eq_bytes
fields-saved old new = refl

-- Diff finds no change exactly when the two configurations agree in all settings that are saved, down to
-- which of the slices are nil: a slice that is empty in one and nil in the other is a change.
pub diff-persisted :
    (old new : Config) → (has_changes (diff old new) ≡ false) ↔ (persisted old ≡ persisted new)
unfolding diff
diff-persisted old new =
    let (forth, back) = has_changes_iff (fields old new) in
    let same = saved_deep.same_iff (saved old) (saved new) in
    (
      λ h. ap restored (same.0 (sym (fields-saved old new) ∙ forth h)),
      λ h. back (fields-saved old new ∙ same.1 (ap saved h)),
    )
