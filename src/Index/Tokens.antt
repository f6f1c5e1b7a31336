-- ===== src/Index/Tokens.antt =====
-- controller/internal/index/tokenizer.go, and HashTerm of controller/internal/fhe/encrypt.go. A text is its
-- code points. The tables of Unicode, the decomposition of golang.org/x/text and SHA-256 are a
-- parameter: nothing is assumed of them.
use torvmremix.Base.{
  ℕ, ◌+◌, ◌%◌, Bool, not, ◌&&◌, ◌||◌, List, [], ◌∷◌, ◌++◌, leb, ltb, ◌==◌, if◌then◌else◌, Bytes,
  bytes, is_nil, one_of, map,
}

abbrev pub Runes : Type 0
Runes = List ℕ

pub record Unicode : Type 0 where
  pub is_letter : ℕ → Bool  -- unicode.IsLetter
  pub is_digit : ℕ → Bool  -- unicode.IsDigit
  pub lower : ℕ → ℕ  -- unicode.ToLower
  pub nfd : Bytes → Runes  -- norm.NFD.String, decoded
  pub digest : Runes → ℕ  -- the first eight bytes of SHA-256, as a little-endian number

-- unicode.IsSpace
abbrev pub is_space : ℕ → Bool
is_space c =
    (leb 9 c && leb c 13)
    || (c == 32)
    || (c == 0x85)
    || (c == 0xa0)
    || (c == 0x1680)
    || (leb 0x2000 c && leb c 0x200a)
    || (c == 0x2028)
    || (c == 0x2029)
    || (c == 0x202f)
    || (c == 0x205f)
    || (c == 0x3000)

-- len of the string in UTF-8.
unfoldable pub rune_length : ℕ → ℕ
rune_length c = if ltb c 0x80 then 1 else if ltb c 0x800 then 2 else if ltb c 0x10000 then 3 else 4

unfoldable pub byte_length : Runes → ℕ
unfolding rune_length
byte_length [] = 0
byte_length (c ∷ s) = rune_length c + byte_length s

abbrev pub stop_words : List Bytes
stop_words =
    bytes "a"
    ∷ bytes "an"
    ∷ bytes "and"
    ∷ bytes "are"
    ∷ bytes "as"
    ∷ bytes "at"
    ∷ bytes "be"
    ∷ bytes "by"
    ∷ bytes "for"
    ∷ bytes "from"
    ∷ bytes "has"
    ∷ bytes "he"
    ∷ bytes "in"
    ∷ bytes "is"
    ∷ bytes "it"
    ∷ bytes "its"
    ∷ bytes "of"
    ∷ bytes "on"
    ∷ bytes "or"
    ∷ bytes "she"
    ∷ bytes "that"
    ∷ bytes "the"
    ∷ bytes "to"
    ∷ bytes "was"
    ∷ bytes "were"
    ∷ bytes "will"
    ∷ bytes "with"
    ∷ bytes "this"
    ∷ bytes "but"
    ∷ bytes "not"
    ∷ bytes "you"
    ∷ bytes "all"
    ∷ bytes "can"
    ∷ bytes "had"
    ∷ bytes "her"
    ∷ bytes "one"
    ∷ bytes "our"
    ∷ bytes "out"
    ∷ bytes "do"
    ∷ bytes "if"
    ∷ bytes "me"
    ∷ bytes "my"
    ∷ bytes "no"
    ∷ bytes "so"
    ∷ bytes "up"
    ∷ bytes "we"
    ∷ []

-- The field read so far, if it is not empty, in front of the others.
abbrev flush : Runes → List Runes → List Runes
flush word rest = if is_nil word then rest else word ∷ rest

-- strings.FieldsFunc
unfoldable pub fields_func : (ℕ → Bool) → Runes → Runes → List Runes
fields_func sep word [] = flush word []
fields_func sep word (c ∷ s) =
    let rest = fields_func sep (if sep c then [] else word ++ (c ∷ [])) s in
    if sep c then flush word rest else rest

unfoldable pub trim_left : (ℕ → Bool) → Runes → Runes
trim_left sep [] = []
trim_left sep (c ∷ s) = let rest = trim_left sep s in if sep c then rest else c ∷ s

-- Without the end, if all of it is cut.
unfoldable pub trim_right : (ℕ → Bool) → Runes → Runes
trim_right sep [] = []
trim_right sep (c ∷ s) =
    let rest = trim_right sep s in if sep c && is_nil rest then [] else c ∷ rest

-- strings.TrimFunc
unfoldable pub trim_func : (ℕ → Bool) → Runes → Runes
trim_func sep s = trim_right sep (trim_left sep s)

module _ (u : Unicode) where
  abbrev pub is_separator : ℕ → Bool
  is_separator c = not (u.is_letter c) && not (u.is_digit c)

  unfoldable pub normalize : Runes → Runes
  normalize w = trim_func is_separator (map u.lower w)

  -- Which words the loop passes over.
  unfoldable pub is_skipped : List Runes → Runes → Bool
  is_skipped seen w = ltb (byte_length w) 3 || one_of w stop_words || one_of w seen

  -- The loop over the words. `seen` holds the terms so far.
  unfoldable pub collect_terms : List Runes → List Runes → List Runes
  collect_terms seen [] = []
  collect_terms seen (w ∷ ws) =
      let t = normalize w in
      let rest = collect_terms (if is_skipped seen t then seen else t ∷ seen) ws in
      if is_skipped seen t then rest else t ∷ rest

  unfoldable pub tokenize : Bytes → List Runes
  tokenize text = collect_terms [] (fields_func is_separator [] (u.nfd text))

  unfoldable pub hash_term : Runes → ℕ
  hash_term term = u.digest (map u.lower (trim_func is_space term)) % 65537
