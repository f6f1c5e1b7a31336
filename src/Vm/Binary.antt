-- ===== src/Vm/Binary.antt =====
-- resolveQEMUBinary of controller/internal/vm/qemu.go. What the system answers about the binary is a parameter.
use torvmremix.Base.{
  ℕ, Bool, ◌||◌, Option, List, [], ◌∷◌, ◌++◌, Result, ok, err, Bytes, bytes, is_nil, eq_bytes,
  has_prefix, has_byte, to_lower, any, if◌then◌else◌, or_fail, ◌>>=◌,
}
use torvmremix.Config.Schema.{Os, windows, darwin, linux}

-- exec.LookPath, filepath.EvalSymlinks and filepath.Abs, `none` for an error.
pub record Finder : Type 0 where
  pub look_path : Option Bytes
  pub eval_symlinks : Bytes → Option Bytes
  pub absolute : Bytes → Option Bytes

pub data BinaryError : Type 0 where
  not_in_path unresolved no_absolute not_allowed : BinaryError

abbrev pub qemu_allowed_dirs : Os → List Bytes
qemu_allowed_dirs linux =
    bytes "/usr/bin"
    ∷ bytes "/usr/local/bin"
    ∷ bytes "/usr/sbin"
    ∷ bytes "/usr/local/sbin"
    ∷ bytes "/snap/bin"
    ∷ []
qemu_allowed_dirs darwin =
    bytes "/usr/bin"
    ∷ bytes "/usr/local/bin"
    ∷ bytes "/opt/homebrew/bin"
    ∷ bytes "/opt/local/bin"
    ∷ []
qemu_allowed_dirs windows = bytes "C:\\Program Files" ∷ bytes "C:\\Program Files (x86)" ∷ []

abbrev pub separator : Os → ℕ
separator windows = b'\\'
separator _ = b'/'

-- What stands before the last separator of a path that has one.
unfoldable pub before_last : ℕ → Bytes → Bytes
before_last sep [] = []
before_last sep (c ∷ s) = let rest = before_last sep s in if has_byte sep s then c ∷ rest else []

-- filepath.Dir of a path that filepath.Abs gives: the root keeps its separator.
unfoldable pub dir_of : Os → Bytes → Bytes
dir_of os path =
    let d = before_last (separator os) path in if is_nil d then separator os ∷ [] else d

-- strings.EqualFold and ToLower on Windows, on ASCII.
abbrev pub spelled : Os → Bytes → Bytes
spelled windows s = to_lower s
spelled _ s = s

abbrev pub is_under : Os → Bytes → Bytes → Bool
is_under os d allowed =
    eq_bytes (spelled os d) (spelled os allowed)
    || has_prefix (spelled os d) (spelled os allowed ++ (separator os ∷ []))

abbrev pub check_dir : Os → Bytes → Result BinaryError Bytes
check_dir os path =
    if is_nil (qemu_allowed_dirs os) || any (is_under os (dir_of os path)) (qemu_allowed_dirs os)
    then ok path
    else err not_allowed

unfoldable pub resolve_qemu_binary : Os → Finder → Result BinaryError Bytes
resolve_qemu_binary os f = do
  path ← or_fail not_in_path f.look_path
  resolved ← or_fail unresolved (f.eval_symlinks path)
  full ← or_fail no_absolute (f.absolute resolved)
  check_dir os full
