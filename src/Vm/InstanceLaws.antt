-- ===== src/Vm/InstanceLaws.antt =====
-- What the instances of controller/internal/vm/qemu.go and browser.go start, over their whole life.
use torvmremix.Base.{
  ◌≡◌, refl, sym, subst, Bool, true, false, not, ◌&&◌, List, [], ◌∷◌, ◌++◌, Result, ok, err, >>=-ok,
  >>-ok, refuse_if, refuse_if-ok, ok-injective, map_err, map_err-ok, each, Bytes, is_nil,
  if◌then◌else◌,
}
use torvmremix.Config.Schema.{Os, Config, is_windows}
use torvmremix.Config.Torrc.{torrc_overlay}
use torvmremix.Vm.Shared.{Rand}
use torvmremix.Vm.Qemu.{build_args}
use torvmremix.Vm.Browser.{build_browser_args}
use torvmremix.Vm.Binary.{Finder, BinaryError, resolve_qemu_binary, qemu_allowed_dirs}
use torvmremix.Vm.BinaryLaws.{BelowOne, resolve_qemu_binary-BelowOne}
use torvmremix.Vm.Instance.{
  Host, Instance, Process, StartError, already_running, no_directory, no_binary, not_started,
  bad_overlay, bad_args, bad_binary, path_or_empty, new_instance, new_browser_instance,
  write_overlay, check_exists, image_files, browser_files, start_relay, start_browser, Happening,
  start_called, process_ended, Event, started, ended, Starter, after_start, happen, history,
}

-- Starts and ends alternate, and each process that is started is good.
unfoldable pub Supervised : (Process → Type 0) → Bool → List Event → Type 0
Supervised Good running [] = Unit {0}
Supervised Good false (started p ∷ es) = Good p × Supervised Good true es
Supervised Good true (ended ∷ es) = Supervised Good false es
Supervised Good _ _ = ⊥

-- A start that refuses a running instance and starts good processes only, of instances of a kind
-- that does not depend on whether they run.
module _ (start : Starter) (Kind : Instance → Type 0) (Good : Process → Type 0)
    (marked : (inst : Instance) (b : Bool) → Kind inst → Kind (record inst { running = b }))
    (good : (h : Host) (inst : Instance) (p : Process)
      → Kind inst
      → start h inst ≡ ok p
      → (inst.running ≡ false) × Good p) where
  none-Supervised : (b : Bool) → Supervised Good b []
  unfolding Supervised
  none-Supervised true = tt
  none-Supervised false = tt

  history-Supervised :
      (inst : Instance) (xs : List Happening)
      → Kind inst
      → Supervised Good inst.running (history start inst xs)
  unfolding history happen
  history-Supervised inst [] k = none-Supervised inst.running
  history-Supervised inst (start_called h ∷ xs) k =
      go (start h inst) refl (history-Supervised inst xs k)
        (history-Supervised (record inst { running = true }) xs (marked inst true k))
    where
      go :
          (r : Result StartError Process)
          → start h inst ≡ r
          → Supervised Good inst.running (history start inst xs)
          → Supervised Good true (history start (record inst { running = true }) xs)
          → Supervised Good inst.running
              ((after_start inst r).1 ++ history start (after_start inst r).0 xs)
      go (err e) q same on = same
      go (ok p) q same on =
          let (off, fine) = good h inst p k q in
          subst
            (λ b. Supervised Good b (started p ∷ history start (record inst { running = true }) xs))
            (sym off) (unfold Supervised in (fine, on))
  history-Supervised inst (process_ended ∷ xs) k =
      go inst.running refl (history-Supervised inst xs k)
        (history-Supervised (record inst { running = false }) xs (marked inst false k))
    where
      next : Bool → Instance × List Event
      next b = if b then (record inst { running = false }, ended ∷ []) else (inst, [])

      go :
          (b : Bool)
          → inst.running ≡ b
          → Supervised Good inst.running (history start inst xs)
          → Supervised Good false (history start (record inst { running = false }) xs)
          → Supervised Good b ((next b).1 ++ history start (next b).0 xs)
      go true q same off = unfold Supervised in off
      go false q same off = subst (λ b. Supervised Good b (history start inst xs)) q same

-- A process of the relay: its binary lies below an allowed directory, and its arguments are those
-- of BuildArgs for the configuration, whose overlay is accepted.
abbrev pub IsRelayProcess : Os → Config → Process → Type 0
IsRelayProcess os c p =
    BelowOne os (qemu_allowed_dirs os) p.path
    × ((rand : Rand) × (build_args os rand c ≡ ok p.args))
    × ((text : Bytes) × (torrc_overlay c ≡ ok text))

abbrev pub IsBrowserProcess : Os → Config → Process → Type 0
IsBrowserProcess os c p =
    BelowOne os (qemu_allowed_dirs os) p.path
    × ((rand : Rand) × (build_browser_args os rand c ≡ ok p.args))

-- An instance of a configuration whose binary, if it has one, was found.
abbrev IsRelay : Os → Config → Instance → Type 0
IsRelay os c inst =
    (inst.config ≡ c)
    × (is_nil inst.qemu_path ≡ false → BelowOne os (qemu_allowed_dirs os) inst.qemu_path)

new-IsRelay : (os : Os) (f : Finder) (c : Config) → IsRelay os c (new_instance os f c)
unfolding new_instance
new-IsRelay os f c = (refl, go (resolve_qemu_binary os f) refl)
  where
    go :
        (r : Result BinaryError Bytes)
        → resolve_qemu_binary os f ≡ r
        → is_nil (path_or_empty r) ≡ false
        → BelowOne os (qemu_allowed_dirs os) (path_or_empty r)
    go (err e) q n = absurd (cc)
    go (ok path) q n = resolve_qemu_binary-BelowOne os f path q

start_relay-IsRelayProcess :
    (os : Os) (c : Config) (h : Host) (inst : Instance) (p : Process)
    → IsRelay os c inst
    → start_relay os h inst ≡ ok p
    → (inst.running ≡ false) × IsRelayProcess os c p
unfolding start_relay
start_relay-IsRelayProcess os c h inst p (e, b) q =
    let (r, h₁) = >>-ok (refuse_if inst.running already_running) _ q in
    let (text, t, h₂) = >>=-ok (map_err bad_overlay (torrc_overlay inst.config)) _ h₁ in
    let (_, h₃) = >>-ok (write_overlay h inst.config text) _ h₂ in
    let (_, h₄) = >>-ok (each (check_exists h) (image_files inst.config)) _ h₃ in
    let (_, h₅) =
      >>-ok
        (refuse_if (not (is_windows os) && not (h.makes_dir_of inst.config.qmp_socket_path))
          no_directory)
        _ h₄ in
    let (args, a, h₆) = >>=-ok (map_err bad_args (build_args os h.rand inst.config)) _ h₅ in
    let (n, h₇) = >>-ok (refuse_if (is_nil inst.qemu_path) no_binary) _ h₆ in
    let (_, h₈) = >>-ok (refuse_if (not (h.executes inst.qemu_path args)) not_started) _ h₇ in
    let built : build_args os h.rand c ≡ ok args =
      subst (λ d. build_args os h.rand d ≡ ok args) e (map_err-ok bad_args _ a) in
    (
      refuse_if-ok inst.running already_running r,
      subst (IsRelayProcess os c) (ok-injective _ p h₈) (
        b (refuse_if-ok (is_nil inst.qemu_path) no_binary n),
        (h.rand, built),
        (text, subst (λ d. torrc_overlay d ≡ ok text) e (map_err-ok bad_overlay _ t)),
      ),
    )

start_browser-IsBrowserProcess :
    (os : Os) (c : Config) (h : Host) (inst : Instance) (p : Process)
    → inst.config ≡ c
    → start_browser os h inst ≡ ok p
    → (inst.running ≡ false) × IsBrowserProcess os c p
unfolding start_browser
start_browser-IsBrowserProcess os c h inst p e q =
    let (r, h₁) = >>-ok (refuse_if inst.running already_running) _ q in
    let (_, h₂) = >>-ok (each (check_exists h) (browser_files inst.config)) _ h₁ in
    let (path, f, h₃) = >>=-ok (map_err bad_binary (resolve_qemu_binary os h.finder)) _ h₂ in
    let (args, a, h₄) = >>=-ok (map_err bad_args (build_browser_args os h.rand inst.config)) _ h₃ in
    let (_, h₅) =
      >>-ok (refuse_if (not (h.makes_dir_of inst.config.browser.qmp_socket_path)) no_directory) _
        h₄ in
    let (_, h₆) = >>-ok (refuse_if (not (h.executes path args)) not_started) _ h₅ in
    let built : build_browser_args os h.rand c ≡ ok args =
      subst (λ d. build_browser_args os h.rand d ≡ ok args) e (map_err-ok bad_args _ a) in
    (
      refuse_if-ok inst.running already_running r,
      subst (IsBrowserProcess os c) (ok-injective _ p h₆) (
        resolve_qemu_binary-BelowOne os h.finder path (map_err-ok bad_binary _ f),
        (h.rand, built),
      ),
    )

-- Over the whole life of an instance of either machine, whatever the system answers, starts and ends
-- of its process alternate, so it never has two at once. Each process is a binary below an allowed directory,
-- with the arguments that are built from the configuration; that of the relay starts only if its
-- overlay is accepted.
pub histories-Supervised :
    (os : Os) (f : Finder) (c : Config) (xs : List Happening)
    → Supervised (IsRelayProcess os c) false (history (start_relay os) (new_instance os f c) xs)
      × Supervised
          (IsBrowserProcess os c)
          false
          (history (start_browser os) (new_browser_instance c) xs)
unfolding new_instance new_browser_instance
histories-Supervised os f c xs = (
  history-Supervised (start_relay os) (IsRelay os c) (IsRelayProcess os c) (λ inst b k. k)
      (start_relay-IsRelayProcess os c) (new_instance os f c) xs (new-IsRelay os f c),
  history-Supervised (start_browser os) (λ inst. inst.config ≡ c) (IsBrowserProcess os c)
      (λ inst b k. k) (start_browser-IsBrowserProcess os c) (new_browser_instance c) xs refl,
)
