-- ===== src/Tor/Fields.antt =====
-- strings.Fields, for controller/internal/tor/circuit.go.
use torvmremix.Base.{
  ℕ, zero, suc, ◌-◌, List, [], ◌∷◌, ◌++◌, ◌==◌, Bytes, is_nil, if◌then◌else◌, prefix_length,
  white_space,
}

-- The field read so far, if it is not empty.
abbrev flush : Bytes → List Bytes
flush word = if is_nil word then [] else word ∷ []

-- `skip` counts the bytes that are left of a white space of several bytes.
unfoldable pub fields_from : ℕ → Bytes → Bytes → List Bytes
fields_from skip word [] = flush word
fields_from (suc skip) word (c ∷ s) = fields_from skip word s
fields_from zero word (c ∷ s) =
    let n = prefix_length white_space (c ∷ s) in
    let rest = fields_from (n - 1) (if n == 0 then word ++ (c ∷ []) else []) s in
    if n == 0 then rest else flush word ++ rest

unfoldable pub fields : Bytes → List Bytes
fields s = fields_from 0 [] s
