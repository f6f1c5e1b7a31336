-- ===== src/Tor/Replies.antt =====
-- GETINFO of controller/internal/tor/control.go against what Tor writes.
use torvmremix.Base.{
  ◌≡◌, refl, ◌∙◌, ap, true, Option, none, some, List, [], ◌∷◌, ◌++◌, ok, Bytes, bytes, Free, All,
  eq_bytes, arith, split_at_byte, if◌then◌else◌,
}
use torvmremix.Tor.Events.{strip_status_prefix}
use torvmremix.Tor.Directives.{lookup, last_value, or_else, lookup-insert, Directives, insert}
use torvmremix.Tor.Control.{
  Incoming, line, entry_text, get_info_line, is_final, is_error, collect_response, read_info,
  get_info, send_command,
}

-- What Tor answers to GETINFO when every value fits one line: a line for each key, and OK.
unfoldable pub reply_to : Directives → List Incoming
reply_to [] = line (bytes "250 OK") ∷ []
reply_to (e ∷ m) = line (bytes "250-" ++ entry_text e) ∷ reply_to m

-- A map built by assignments in the order of a list.
unfoldable pub assigned : Directives → Directives → Directives
assigned m [] = m
assigned m (e ∷ es) = assigned (insert e.0 e.1 m) es

texts : Directives → List Bytes
texts [] = bytes "250 OK" ∷ []
texts (e ∷ m) = (bytes "250-" ++ entry_text e) ∷ texts m

collect-reply : (m : Directives) → collect_response (reply_to m) ≡ ok (texts m)
unfolding collect_response reply_to texts is_final is_error bytes
collect-reply [] = refl
collect-reply (e ∷ m) = rw (collect-reply m) refl

split-at : (s rest : Bytes) → Free 61 s → split_at_byte 61 (s ++ (61 ∷ rest)) ≡ some (s, rest)
unfolding split_at_byte
split-at [] rest h = refl
split-at (c ∷ s) rest h = rw (split-at s rest h.1) (ground (arith, h.0))

strip-code : (s : Bytes) → strip_status_prefix (50 ∷ 53 ∷ 48 ∷ 45 ∷ s) ≡ s
unfolding strip_status_prefix
strip-code s = ground arith

read-texts :
    (acc m : Directives)
    → All (λ (e : Bytes × Bytes). Free 61 e.0) m
    → read_info acc (texts m) ≡ assigned acc m
unfolding read_info texts assigned strip_status_prefix bytes split_at_byte
read-texts acc [] h = refl
read-texts acc (e ∷ m) h =
    ap (λ s. read_info (next s) (texts m)) {x = strip_status_prefix (bytes "250-" ++ entry_text e)}
      {y = entry_text e} (strip-code (entry_text e))
    ∙ ap (λ r. read_info (chosen r) (texts m)) (split-at e.0 e.1 h.0)
    ∙ read-texts (insert e.0 e.1 acc) m h.1
  where
    chosen : Option (Bytes × Bytes) → Directives
    chosen r = elim r [ none ↦ acc | some p ↦ insert p.0 p.1 acc ]

    next : Bytes → Directives
    next s = chosen (split_at_byte 61 s)

assigned-lookup :
    (k : Bytes) (acc m : Directives)
    → lookup k (assigned acc m) ≡ or_else (last_value k m) (lookup k acc)
unfolding assigned last_value
assigned-lookup k acc [] = refl
assigned-lookup k acc (e ∷ m) =
    assigned-lookup k (insert e.0 e.1 acc) m
    ∙ fall_back (last_value k m) (lookup-insert k e.0 e.1 acc)
  where
    fall_back :
        (r : Option Bytes)
        → lookup k (insert e.0 e.1 acc) ≡ (if eq_bytes e.0 k then some e.1 else lookup k acc)
        → or_else r (lookup k (insert e.0 e.1 acc))
          ≡ or_else (or_else r (if eq_bytes e.0 k then some e.1 else none)) (lookup k acc)
    fall_back (some v) h = refl
    fall_back none h = ground (arith, h)

-- Round trip: when Tor answers GETINFO with a line for each of some keys and values, the call gives a
-- map that holds for every key the value that Tor wrote last for it, and no other key. The keywords
-- hold no line ends and no key holds an equals sign.
pub get_info-reply :
    (keywords : List Bytes) (cmd : Bytes) (m : Directives)
    → get_info_line keywords ≡ ok cmd
    → All (λ (e : Bytes × Bytes). Free 61 e.0) m
    → (found : Directives) × ((get_info keywords
          (record { writes = true; incoming = reply_to m })).1
        ≡ ok found)
      × ((k : Bytes) → lookup k found ≡ last_value k m)
unfolding get_info send_command
get_info-reply keywords cmd m h k = (
  assigned [] m,
  rw (h, collect-reply m) (ap ok (read-texts [] m k)),
  λ key. assigned-lookup key [] m ∙ unfold lookup in same (last_value key m),
)
  where
    same : (r : Option Bytes) → or_else r none ≡ r
    same (some v) = refl
    same none = refl
