-- ===== src/Vm/StateDisk.antt =====
-- controller/internal/vm/statedisk.go: a file is written into the image of the state disk by a command of debugfs.
-- What the system answers is a parameter.
use torvmremix.Base.{
  ℕ, ◌≡◌, ◌≢◌, refl, sym, ap, subst, Bool, true, false, not, ◌&&◌, ◌||◌, Option, [], ◌∷◌, ◌++◌,
  Result, ok, ◌>>=◌, ◌>>◌, >>=-ok, >>-ok, refuse_if, ok-injective, or_fail, Bytes, bytes, is_nil,
  contains, all, Free, length, ltb, leb, ◌==◌, arith, &&-true,
}

pub data DiskError : Type 0 where
  empty_path long_path dots bad_characters : DiskError
  no_absolute no_image not_regular no_temp not_written unsafe_temp unsafe_disk debugfs_failed :
      DiskError

-- filepath.Abs, os.Stat with Mode().IsRegular(), os.CreateTemp, the write into it, and debugfs.
pub record Disk : Type 0 where
  pub absolute : Bytes → Option Bytes
  pub stat : Bytes → Option Bool
  pub create_temp : Option Bytes
  pub writes : Bytes → Bool
  pub debugfs : Bytes → Bytes → Bool

abbrev pub is_alnum : ℕ → Bool
is_alnum c = (leb b'a' c && leb c b'z') || (leb b'A' c && leb c b'Z') || (leb b'0' c && leb c b'9')

-- [a-zA-Z0-9/_.\-], the same characters in both patterns.
abbrev pub is_path_char : ℕ → Bool
is_path_char c = is_alnum c || (c == b'/') || (c == b'_') || (c == b'.') || (c == b'-')

-- safeHostPathRe
unfoldable pub safe_host_path : Bytes → Bool
safe_host_path s = not (is_nil s) && all is_path_char s

-- guestPathRe
unfoldable pub guest_path_re : Bytes → Bool
guest_path_re [] = false
guest_path_re (c ∷ s) = is_alnum c && all is_path_char s

unfoldable pub validate_guest_path : Bytes → Result DiskError (Unit {0})
validate_guest_path p = do
  refuse_if (is_nil p) empty_path
  refuse_if (ltb 255 (length p)) long_path
  refuse_if (contains p (bytes "..")) dots
  refuse_if (not (guest_path_re p)) bad_characters

-- A command of debugfs and the image that it is for.
pub record Command : Type 0 where
  pub text : Bytes
  pub image : Bytes

-- The command that is run, if all goes well before it.
unfoldable pub debugfs_command :
    Disk → (disk_path guest_path content : Bytes) → Result DiskError Command
debugfs_command d disk_path guest_path content = do
  validate_guest_path guest_path
  path ← or_fail no_absolute (d.absolute disk_path)
  regular ← or_fail no_image (d.stat path)
  refuse_if (not regular) not_regular
  temp ← or_fail no_temp d.create_temp
  refuse_if (not (d.writes content)) not_written
  refuse_if (not (safe_host_path temp)) unsafe_temp
  refuse_if (not (safe_host_path path)) unsafe_disk
  ok (record { text = bytes "write \"" ++ (temp ++ (bytes "\" " ++ guest_path)); image = path })

unfoldable pub write_state_disk_file :
    Disk → (disk_path guest_path content : Bytes) → Result DiskError (Unit {0})
write_state_disk_file d disk_path guest_path content = do
  cmd ← debugfs_command d disk_path guest_path content
  refuse_if (not (d.debugfs cmd.text cmd.image)) debugfs_failed

-- A word of debugfs: not empty, and without a space, a line end or a quote.
abbrev pub IsWord : Bytes → Type 0
IsWord s = (is_nil s ≡ false) × Free 32 s × Free 10 s × Free 13 s × Free 34 s

not_char : (n c : ℕ) → is_path_char n ≡ false → is_path_char c ≡ true → c ≢ n
not_char n c h k e = let same = ap is_path_char e in ground (arith, same, h, k)

chars-Free : (n : ℕ) (s : Bytes) → is_path_char n ≡ false → all is_path_char s ≡ true → Free n s
chars-Free n [] h k = tt
chars-Free n (c ∷ s) h k =
    let (a, b) = &&-true (is_path_char c) (all is_path_char s) k in
    (not_char n c h a, chars-Free n s h b)

chars-IsWord : (s : Bytes) → is_nil s ≡ false → all is_path_char s ≡ true → IsWord s
chars-IsWord s n h = (
  n,
  chars-Free 32 s refl h,
  chars-Free 10 s refl h,
  chars-Free 13 s refl h,
  chars-Free 34 s refl h,
)

unless-ok : (b : Bool) (e : DiskError) → refuse_if (not b) e ≡ ok tt → b ≡ true
unless-ok true e h = refl
unless-ok false e h = cc

safe_host_path-IsWord : (s : Bytes) → safe_host_path s ≡ true → IsWord s
unfolding safe_host_path
safe_host_path-IsWord s h = chars-IsWord s (ground arith) (ground arith)

guest_path-IsWord : (s : Bytes) → guest_path_re s ≡ true → IsWord s
unfolding guest_path_re
guest_path-IsWord [] h = absurd (cc)
guest_path-IsWord (c ∷ s) h = chars-IsWord (c ∷ s) refl (ground arith)

validate-IsWord : (p : Bytes) → validate_guest_path p ≡ ok tt → IsWord p
unfolding validate_guest_path
validate-IsWord p h =
    let (_, h₁) = >>-ok (refuse_if (is_nil p) empty_path) _ h in
    let (_, h₂) = >>-ok (refuse_if (ltb 255 (length p)) long_path) _ h₁ in
    let (_, h₃) = >>-ok (refuse_if (contains p (bytes "..")) dots) _ h₂ in
    guest_path-IsWord p (unless-ok (guest_path_re p) bad_characters h₃)

-- The command that is run writes one file: its two paths are single words, and so is the image's.
pub debugfs_command-words :
    (d : Disk) (disk_path guest_path content : Bytes) (cmd : Command)
    → debugfs_command d disk_path guest_path content ≡ ok cmd
    → (temp : Bytes) × (cmd.text ≡ bytes "write \"" ++ (temp ++ (bytes "\" " ++ guest_path)))
      × IsWord temp
      × IsWord guest_path
      × IsWord cmd.image
unfolding debugfs_command
debugfs_command-words d disk_path guest_path content cmd h =
    let (v, h₁) = >>-ok (validate_guest_path guest_path) _ h in
    let (path, _, h₂) = >>=-ok (or_fail no_absolute (d.absolute disk_path)) _ h₁ in
    let (regular, _, h₃) = >>=-ok (or_fail no_image (d.stat path)) _ h₂ in
    let (_, h₄) = >>-ok (refuse_if (not regular) not_regular) _ h₃ in
    let (temp, _, h₅) = >>=-ok (or_fail no_temp d.create_temp) _ h₄ in
    let (_, h₆) = >>-ok (refuse_if (not (d.writes content)) not_written) _ h₅ in
    let (t, h₇) = >>-ok (refuse_if (not (safe_host_path temp)) unsafe_temp) _ h₆ in
    let (p, h₈) = >>-ok (refuse_if (not (safe_host_path path)) unsafe_disk) _ h₇ in
    let made : cmd ≡ record {
      text = bytes "write \"" ++ (temp ++ (bytes "\" " ++ guest_path));
      image = path;
    } =
      sym (ok-injective _ cmd h₈) in
    (
      temp,
      ap (λ c. c.text) made,
      safe_host_path-IsWord temp (unless-ok (safe_host_path temp) unsafe_temp t),
      validate-IsWord guest_path v,
      subst IsWord (sym (ap (λ c. c.image) made))
          (safe_host_path-IsWord path (unless-ok (safe_host_path path) unsafe_disk p)),
    )
