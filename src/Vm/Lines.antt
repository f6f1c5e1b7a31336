-- ===== src/Vm/Lines.antt =====
-- When BuildArgs (controller/internal/vm/qemu_args.go) and BuildBrowserArgs (browser_args.go) succeed, and
-- what their command lines say.
use torvmremix.Base.{
  ◌≡◌, refl, Option, none, some, List, [], ◌∷◌, ok, >>=-ok, >>-ok, Bytes, has_byte, All, Free,
  has_byte-Free, Free-has_byte, refuse_if-ok, each, ℤ, pos, ◌↔◌, arith, subst, ℕ, negsuc,
}
use torvmremix.Config.Schema.{Os, Config}
use torvmremix.Vm.Shared.{Rand, hex_encode, entropy_hex_string, check_no_null}
use torvmremix.Vm.Qemu.{checked_paths, or_default, all_args, build_args}
use torvmremix.Vm.Browser.{browser_checked_paths, all_browser_args, build_browser_args}
use torvmremix.Vm.Options.{IsBrowserLine, IsRelayLine, all_browser_args-line, all_args-line}

-- No path holds a null byte.
abbrev pub NoNull : List (Bytes × Bytes) → Type 0
NoNull paths = All (λ (p : Bytes × Bytes). Free 0 p.1) paths

each-NoNull : (ps : List (Bytes × Bytes)) → each check_no_null ps ≡ ok tt → NoNull ps
each-NoNull [] h = tt
each-NoNull (p ∷ ps) h =
    let (a, b) = >>-ok (check_no_null p) (each check_no_null ps) h in
    (has_byte-Free 0 p.1 (refuse_if-ok (has_byte 0 p.1) _ a), each-NoNull ps b)

NoNull-each : (ps : List (Bytes × Bytes)) → NoNull ps → each check_no_null ps ≡ ok tt
NoNull-each [] h = refl
NoNull-each (p ∷ ps) h = rw (Free-has_byte 0 p.1 h.0) (NoNull-each ps h.1)

-- The length is not negative, and the source fills a buffer of it.
abbrev pub Filled : Rand → ℤ → Type 0
Filled rand z = (n : ℕ) × ((z ≡ pos n) × ((buf : Bytes) × (rand n ≡ some buf)))

entropy-some : (rand : Rand) (z : ℤ) (e : Bytes) → entropy_hex_string rand z ≡ ok e → Filled rand z
unfolding entropy_hex_string
entropy-some rand (negsuc n) e h = absurd (cc)
entropy-some rand (pos n) e h = go (rand n) refl
  where
    go : (r : Option Bytes) → rand n ≡ r → Filled rand (pos n)
    go none q = absurd (grind (arith, q, h))
    go (some buf) q = (n, (refl, (buf, q)))

entropy-pos :
    (rand : Rand) (n : ℕ) (e : Bytes)
    → entropy_hex_string rand (pos n) ≡ ok e
    → (buf : Bytes) × (rand n ≡ some buf)
unfolding entropy_hex_string
entropy-pos rand n e h = go (rand n) refl
  where
    go : (r : Option Bytes) → rand n ≡ r → (buf : Bytes) × (rand n ≡ some buf)
    go none q = absurd (grind (arith, q, h))
    go (some buf) q = (buf, q)

drawn :
    (rand : Rand) (n : ℕ) (buf : Bytes)
    → rand n ≡ some buf
    → entropy_hex_string rand (pos n) ≡ ok (hex_encode buf)
unfolding entropy_hex_string
drawn rand n buf q = rw (entropy_hex_string, q) refl

filled :
    (rand : Rand) (z : ℤ)
    → Filled rand z
    → (buf : Bytes) × (entropy_hex_string rand z ≡ ok (hex_encode buf))
filled rand z (n, (q, (buf, r))) = (buf, rw q (drawn rand n buf r))

-- BuildArgs succeeds exactly when none of the four paths holds a null byte, the configured number of
-- random bytes, or 32 for zero, is not negative and the random source fills a buffer of it. Its
-- arguments then have exactly one network device, vmnet-shared between the VM's and the host's address
-- on macOS and else the TAP device of the configuration, exactly one drive, the state disk, raw, with
-- the caching of the accelerator, and the kernel, its initial file system, the sizes, the serial
-- device, if there is one, and the monitor's socket of the configuration, each exactly once.
pub build_args-line :
    (os : Os) (rand : Rand) (c : Config)
    → (((args : List Bytes) × (build_args os rand c ≡ ok args)) ↔ (
        NoNull (checked_paths c)
        × Filled rand (or_default c.entropy.kernel_entropy_bytes (pos 32))))
      × ((args : List Bytes) → build_args os rand c ≡ ok args → IsRelayLine os c args)
unfolding build_args
build_args-line os rand c = ((forth, back), line)
  where
    n : ℤ
    n = or_default c.entropy.kernel_entropy_bytes (pos 32)

    forth :
        ((args : List Bytes) × (build_args os rand c ≡ ok args))
        → NoNull (checked_paths c) × Filled rand n
    forth (args, h) =
        let (a, b) = >>-ok (each check_no_null (checked_paths c)) _ h in
        let (e, q, r) = >>=-ok (entropy_hex_string rand n) _ b in
        (each-NoNull (checked_paths c) a, entropy-some rand n e q)

    back :
        NoNull (checked_paths c) × Filled rand n
        → (args : List Bytes) × (build_args os rand c ≡ ok args)
    back (p, f) =
        let (buf, q) = filled rand n f in
        (all_args os c (hex_encode buf), rw (NoNull-each (checked_paths c) p, q) refl)

    line : (args : List Bytes) → build_args os rand c ≡ ok args → IsRelayLine os c args
    line args h =
        let (a, b) = >>-ok (each check_no_null (checked_paths c)) _ h in
        let (e, q, r) = >>=-ok (entropy_hex_string rand n) _ b in
        subst (IsRelayLine os c) (grind (arith, r)) (all_args-line os c e)

-- BuildBrowserArgs succeeds exactly when none of the four paths of the browser's machine holds a null
-- byte and the random source fills a buffer of 64 bytes. Its arguments then give QEMU one network, the
-- user network with restrict=on, a VNC screen on 127.0.0.1 or none, and the kernel, its initial file
-- system, the sizes and the monitor's socket of the configuration, each exactly once.
pub build_browser_args-line :
    (os : Os) (rand : Rand) (c : Config)
    → (((args : List Bytes) × (build_browser_args os rand c ≡ ok args))
        ↔ (NoNull (browser_checked_paths c.browser) × ((buf : Bytes) × (rand 64 ≡ some buf))))
      × ((args : List Bytes) → build_browser_args os rand c ≡ ok args → IsBrowserLine os c args)
unfolding build_browser_args
build_browser_args-line os rand c = ((forth, back), line)
  where
    forth :
        ((args : List Bytes) × (build_browser_args os rand c ≡ ok args))
        → NoNull (browser_checked_paths c.browser) × ((buf : Bytes) × (rand 64 ≡ some buf))
    forth (args, h) =
        let (a, b) = >>-ok (each check_no_null (browser_checked_paths c.browser)) _ h in
        let (e, q, r) = >>=-ok (entropy_hex_string rand (pos 64)) _ b in
        (each-NoNull (browser_checked_paths c.browser) a, entropy-pos rand 64 e q)

    back :
        NoNull (browser_checked_paths c.browser) × ((buf : Bytes) × (rand 64 ≡ some buf))
        → (args : List Bytes) × (build_browser_args os rand c ≡ ok args)
    back (p, (buf, q)) = (
      all_browser_args os c (hex_encode buf),
      rw (NoNull-each (browser_checked_paths c.browser) p, drawn rand 64 buf q) refl,
    )

    line : (args : List Bytes) → build_browser_args os rand c ≡ ok args → IsBrowserLine os c args
    line args h =
        let (a, b) = >>-ok (each check_no_null (browser_checked_paths c.browser)) _ h in
        let (e, q, r) = >>=-ok (entropy_hex_string rand (pos 64)) _ b in
        subst (IsBrowserLine os c) (grind (arith, r)) (all_browser_args-line os c e)
