-- ===== src/Config/Deep.antt =====
-- reflect.DeepEqual on the types of controller/internal/config/config.go: their equality, as Diff tests it. Two
-- slices are equal when both are nil or neither is, and their elements agree.
use torvmremix.Base.{
  Bytes, ℕ, ◌≡◌, refl, sym, ◌∙◌, &&-true, ap, ◌↔◌, Bool, true, false, not, ◌&&◌, List, [], ◌∷◌, ℤ,
  pos, negsuc, ◌==◌, ==_iff, arith,
}
use torvmremix.Config.Schema.{
  BridgeConfig, ProxyConfig, RetryConfig, ServiceConfig, EntropyConfig, VectorConfig, FheConfig,
  BrowserConfig, RelayConfig,
}

pub record Deep {ℓ} (A : Type ℓ) : Type ℓ where
  pub same : A → A → Bool
  pub same_iff : (a b : A) → (same a b ≡ true) ↔ (a ≡ b)

abbrev pub deep_equal {ℓ} : {A : Type ℓ} ⦃e : Deep A⦄ → A → A → Bool
deep_equal ⦃e⦄ = e.same

instance abbrev pub nat_deep : Deep ℕ
nat_deep = record { same = ◌==◌; same_iff = ==_iff }

abbrev pub same_bool : Bool → Bool → Bool
same_bool true b = b
same_bool false b = not b

pub same_bool_iff : (a b : Bool) → (same_bool a b ≡ true) ↔ (a ≡ b)
same_bool_iff a b = ground arith

instance abbrev pub bool_deep : Deep Bool
bool_deep = record { same = same_bool; same_iff = same_bool_iff }

abbrev pub same_int : ℤ → ℤ → Bool
same_int (pos a) (pos b) = a == b
same_int (negsuc a) (negsuc b) = a == b
same_int _ _ = false

pub same_int_iff : (a b : ℤ) → (same_int a b ≡ true) ↔ (a ≡ b)
same_int_iff a b = ground arith

instance abbrev pub int_deep : Deep ℤ
int_deep = record { same = same_int; same_iff = same_int_iff }

module _ {ℓ} {A : Type ℓ} ⦃e : Deep A⦄ where
  unfoldable pub same_list : List A → List A → Bool
  same_list [] [] = true
  same_list (x ∷ xs) (y ∷ ys) = e.same x y && same_list xs ys
  same_list _ _ = false

  pub same_list_iff : (a b : List A) → (same_list a b ≡ true) ↔ (a ≡ b)
  unfolding same_list
  same_list_iff [] [] = (λ h. refl, λ h. refl)
  same_list_iff [] (y ∷ ys) = (λ h. cc, λ h. cc)
  same_list_iff (x ∷ xs) [] = (λ h. cc, λ h. cc)
  same_list_iff (x ∷ xs) (y ∷ ys) = ground (arith, same_list_iff xs ys, e.same_iff x y)

  instance abbrev pub list_deep : Deep (List A)
  list_deep = record { same = same_list; same_iff = same_list_iff }

-- The fields of a record, one behind the other.
pub record Both (A B : Type 0) : Type 0 where
  pub first : A
  pub rest : B

infixr 3 ◌⊗◌
abbrev pub ◌⊗◌ : Type 0 → Type 0 → Type 0
A ⊗ B = Both A B

infixr 3 ◌&◌
abbrev pub ◌&◌ : {A B : Type 0} → A → B → A ⊗ B
x & y = record { first = x; rest = y }

module _ {A B : Type 0} ⦃a : Deep A⦄ ⦃b : Deep B⦄ where
  abbrev pub same_both : A ⊗ B → A ⊗ B → Bool
  same_both p q = a.same p.first q.first && b.same p.rest q.rest

  pub same_both_iff : (p q : A ⊗ B) → (same_both p q ≡ true) ↔ (p ≡ q)
  same_both_iff p q = (
    λ h.
        let (k, l) = &&-true (a.same p.first q.first) (b.same p.rest q.rest) h in
        alike p.first q.first p.rest q.rest ((a.same_iff p.first q.first).0 k)
          ((b.same_iff p.rest q.rest).0 l),
    λ h.
        rw
          (
            (a.same_iff p.first q.first).1 (ap (λ r. r.first) h),
            (b.same_iff p.rest q.rest).1 (ap (λ r. r.rest) h),
          )
          refl,
  )
    where
      alike : (x y : A) (s t : B) → x ≡ y → s ≡ t → (x & s) ≡ (y & t)
      alike x y s t h k = rw (h, k) refl

  instance abbrev pub both_deep : Deep (A ⊗ B)
  both_deep = record { same = same_both; same_iff = same_both_iff }

-- A record by its fields.
module _ {A B : Type 0} (to : A → B) (from : B → A) (back : (a : A) → from (to a) ≡ a)
    ⦃e : Deep B⦄ where
  pub same_fields_iff : (x y : A) → (e.same (to x) (to y) ≡ true) ↔ (x ≡ y)
  same_fields_iff x y = (
    λ h. sym (back x) ∙ ap from ((e.same_iff (to x) (to y)).0 h) ∙ back y,
    λ h. (e.same_iff (to x) (to y)).1 (ap to h),
  )

  abbrev pub by_fields : Deep A
  by_fields = record { same = λ x y. e.same (to x) (to y); same_iff = same_fields_iff }

instance abbrev pub bridge_deep : Deep BridgeConfig
bridge_deep =
    by_fields {B = Bool ⊗ Bytes ⊗ List Bytes ⊗ Bool}
      (λ c. c.use_bridges & c.transport & c.bridges & c.nil_bridges)
      (λ t. record {
        use_bridges = t.first;
        transport = t.rest.first;
        bridges = t.rest.rest.first;
        nil_bridges = t.rest.rest.rest;
      })
      (λ c. refl)

instance abbrev pub proxy_deep : Deep ProxyConfig
proxy_deep =
    by_fields {B = Bytes ⊗ Bytes ⊗ Bytes ⊗ Bytes}
      (λ c. c.kind & c.address & c.username & c.password)
      (λ t. record {
        kind = t.first;
        address = t.rest.first;
        username = t.rest.rest.first;
        password = t.rest.rest.rest;
      })
      (λ c. refl)

instance abbrev pub retry_deep : Deep RetryConfig
retry_deep =
    by_fields {B = Bool ⊗ ℤ} (λ c. c.enabled & c.max_attempts)
      (λ t. record { enabled = t.first; max_attempts = t.rest }) (λ c. refl)

instance abbrev pub service_deep : Deep ServiceConfig
service_deep =
    by_fields {B = Bool} (λ c. c.run_at_load) (λ t. record { run_at_load = t }) (λ c. refl)

instance abbrev pub entropy_deep : Deep EntropyConfig
entropy_deep =
    by_fields {B = Bool ⊗ Bool ⊗ Bool ⊗ Bytes ⊗ ℤ ⊗ ℤ ⊗ ℤ}
      (λ c.
        c.enable_haveged & c.enable_rngd & c.expose_rdrand & c.serial_entropy_device
        & c.virtio_rng_max_bytes & c.virtio_rng_period & c.kernel_entropy_bytes)
      (λ t. record {
        enable_haveged = t.first;
        enable_rngd = t.rest.first;
        expose_rdrand = t.rest.rest.first;
        serial_entropy_device = t.rest.rest.rest.first;
        virtio_rng_max_bytes = t.rest.rest.rest.rest.first;
        virtio_rng_period = t.rest.rest.rest.rest.rest.first;
        kernel_entropy_bytes = t.rest.rest.rest.rest.rest.rest;
      })
      (λ c. refl)

instance abbrev pub vector_deep : Deep VectorConfig
vector_deep =
    by_fields {B = Bool ⊗ Bytes ⊗ ℤ ⊗ Bytes ⊗ ℤ ⊗ ℤ ⊗ ℤ ⊗ Bytes ⊗ ℤ}
      (λ c.
        c.enabled & c.index_dir & c.dimension & c.model_path & c.hnsw_m & c.hnsw_ef_construct
        & c.hnsw_ef_search & c.search_mode & c.top_k)
      (λ t. record {
        enabled = t.first;
        index_dir = t.rest.first;
        dimension = t.rest.rest.first;
        model_path = t.rest.rest.rest.first;
        hnsw_m = t.rest.rest.rest.rest.first;
        hnsw_ef_construct = t.rest.rest.rest.rest.rest.first;
        hnsw_ef_search = t.rest.rest.rest.rest.rest.rest.first;
        search_mode = t.rest.rest.rest.rest.rest.rest.rest.first;
        top_k = t.rest.rest.rest.rest.rest.rest.rest.rest;
      })
      (λ c. refl)

instance abbrev pub fhe_deep : Deep FheConfig
fhe_deep =
    by_fields
      {B = Bool ⊗ Bytes ⊗ List Bytes ⊗ Bool ⊗ ℤ ⊗ List Bytes ⊗ ℤ ⊗ Bool ⊗ ℤ ⊗ ℤ ⊗ Bool ⊗ Bool}
      (λ c.
        c.enabled & c.index_dir & c.document_dirs & c.share_enabled & c.hidden_service_port
        & c.peers & c.ring_degree & c.auto_index & c.auto_index_interval & c.max_index_size_mb
        & c.nil_document_dirs & c.nil_peers)
      (λ t. record {
        enabled = t.first;
        index_dir = t.rest.first;
        document_dirs = t.rest.rest.first;
        share_enabled = t.rest.rest.rest.first;
        hidden_service_port = t.rest.rest.rest.rest.first;
        peers = t.rest.rest.rest.rest.rest.first;
        ring_degree = t.rest.rest.rest.rest.rest.rest.first;
        auto_index = t.rest.rest.rest.rest.rest.rest.rest.first;
        auto_index_interval = t.rest.rest.rest.rest.rest.rest.rest.rest.first;
        max_index_size_mb = t.rest.rest.rest.rest.rest.rest.rest.rest.rest.first;
        nil_document_dirs = t.rest.rest.rest.rest.rest.rest.rest.rest.rest.rest.first;
        nil_peers = t.rest.rest.rest.rest.rest.rest.rest.rest.rest.rest.rest;
      })
      (λ c. refl)

instance abbrev pub browser_deep : Deep BrowserConfig
browser_deep =
    by_fields {B = Bool ⊗ ℤ ⊗ ℤ ⊗ Bytes ⊗ Bytes ⊗ Bytes ⊗ Bytes ⊗ ℤ ⊗ Bool ⊗ ℤ ⊗ Bool ⊗ Bool}
      (λ c.
        c.enabled & c.vm_memory_mb & c.vm_cpus & c.kernel_path & c.initrd_path & c.state_disk_path
        & c.qmp_socket_path & c.vnc_display & c.auto_start & c.canary_interval_sec & c.honey_tokens
        & c.auto_remediate)
      (λ t. record {
        enabled = t.first;
        vm_memory_mb = t.rest.first;
        vm_cpus = t.rest.rest.first;
        kernel_path = t.rest.rest.rest.first;
        initrd_path = t.rest.rest.rest.rest.first;
        state_disk_path = t.rest.rest.rest.rest.rest.first;
        qmp_socket_path = t.rest.rest.rest.rest.rest.rest.first;
        vnc_display = t.rest.rest.rest.rest.rest.rest.rest.first;
        auto_start = t.rest.rest.rest.rest.rest.rest.rest.rest.first;
        canary_interval_sec = t.rest.rest.rest.rest.rest.rest.rest.rest.rest.first;
        honey_tokens = t.rest.rest.rest.rest.rest.rest.rest.rest.rest.rest.first;
        auto_remediate = t.rest.rest.rest.rest.rest.rest.rest.rest.rest.rest.rest;
      })
      (λ c. refl)

instance abbrev pub relays_deep : Deep RelayConfig
relays_deep =
    by_fields {B = List Bytes ⊗ Bool ⊗ List Bytes ⊗ Bool ⊗ Bool}
      (λ c.
        c.exclude_nodes & c.nil_exclude_nodes & c.exclude_exit_nodes & c.nil_exclude_exit_nodes
        & c.strict_nodes)
      (λ t. record {
        exclude_nodes = t.first;
        nil_exclude_nodes = t.rest.first;
        exclude_exit_nodes = t.rest.rest.first;
        nil_exclude_exit_nodes = t.rest.rest.rest.first;
        strict_nodes = t.rest.rest.rest.rest;
      })
      (λ c. refl)
