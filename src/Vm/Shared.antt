-- ===== src/Vm/Shared.antt =====
-- controller/internal/vm/qemu_args.go and browser_args.go: what the two command lines share, and
-- controller/internal/security/entropy.go. `os` is runtime.GOOS.
use torvmremix.Base.{
  ℕ, ◌/◌, ◌%◌, pos, negsuc, Bool, Option, none, some, List, [], ◌∷◌, ◌++◌, ℤ, Result, ok, err,
  refuse_if, Bytes, bytes, is_nil, eq_bytes, has_byte, hex_digit, if◌then◌else◌, String,
}
use torvmremix.Config.Schema.{Os, is_windows, EntropyConfig}

pub data ArgsError : Type 0 where
  null_byte : Bytes → ArgsError
  no_entropy : ArgsError
  panics : ArgsError

-- The bytes that rand.Read fills a buffer of the given length with, or none for its error.
abbrev pub Rand : Type 0
Rand = ℕ → Option Bytes

unfoldable pub hex_encode : Bytes → Bytes
hex_encode [] = []
hex_encode (c ∷ s) = hex_digit (c / 16) ∷ hex_digit (c % 16) ∷ hex_encode s

-- `panics` is the panic of make for a negative length.
unfoldable pub entropy_hex_string : Rand → ℤ → Result ArgsError Bytes
entropy_hex_string rand (negsuc n) = err panics
entropy_hex_string rand (pos n) = elim (rand n) [
  | none ↦ err no_entropy
  | some buf ↦ ok (hex_encode buf)
]

abbrev pub check_no_null : Bytes × Bytes → Result ArgsError (Unit {0})
check_no_null p = refuse_if (has_byte 0 p.1) (null_byte p.0)

abbrev pub accel_or_tcg : Bytes → Bytes
accel_or_tcg accel = if is_nil accel then bytes "tcg" else accel

abbrev pub is_accel : String → Bytes → Bool
is_accel name accel = eq_bytes accel (bytes name)

abbrev pub cpu_of : Bytes → EntropyConfig → Bytes
cpu_of accel n =
    if is_accel "tcg" accel
    then if n.expose_rdrand then bytes "qemu64,+rdrand" else bytes "qemu64"
    else bytes "host"

-- The device of the state disk.
unfoldable pub block_args : Bytes → Bytes → List Bytes
block_args accel path =
    bytes "-drive"
    ∷ (bytes "file="
        ++ path
        ++ bytes ",id=drive0,if=none,format=raw,"
        ++ (if is_accel "kvm" accel
            then bytes "cache=none,aio=native"
            else if is_accel "hvf" accel
            then bytes "cache=writeback,aio=threads"
            else if is_accel "whpx" accel
            then bytes "cache=writeback,aio=threads"
            else bytes "cache=writeback"))
    ∷ bytes "-device"
    ∷ bytes "virtio-blk-pci,drive=drive0"
    ∷ []

unfoldable pub rng_args : Os → Bytes → Bytes → List Bytes
rng_args os max_bytes period =
    bytes "-object"
    ∷ (if is_windows os
        then bytes "rng-builtin,id=rng0"
        else bytes "rng-random,id=rng0,filename=/dev/urandom")
    ∷ bytes "-device"
    ∷ (bytes "virtio-rng-pci,rng=rng0,max-bytes=" ++ max_bytes ++ bytes ",period=" ++ period)
    ∷ []

unfoldable pub qmp_args : Os → Bytes → List Bytes
qmp_args os path =
    bytes "-qmp"
    ∷ ((if is_windows os then bytes "pipe:" else bytes "unix:") ++ path ++ bytes ",server,nowait")
    ∷ []
