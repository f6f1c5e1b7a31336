-- ===== src/Witnesses/Documents.antt =====
-- Concrete documents and queries for controller/internal/index.
use torvmremix.Base.{
  ℕ, ◌+◌, ◌*◌, ◌/◌, ◌≡◌, refl, Bool, ◌&&◌, ◌||◌, none, List, [], ◌∷◌, pos, leb, All, if◌then◌else◌,
  Bytes, bytes, arith, eq_bytes,
}
use torvmremix.Index.Tokens.{
  Unicode, Runes, tokenize, hash_term, fields_func, normalize, trim_func, trim_left, trim_right,
  collect_terms, is_skipped, byte_length, rune_length,
}
use torvmremix.Index.TokenLaws.{IsTerm, Distinct, tokenize-Distinct}
use torvmremix.Index.Filter.{MetadataFilter}
use torvmremix.Index.Inverted.{new_inverted_index, Upload, Table, query, local_query}
use torvmremix.Index.History.{add_each, matching, described, query-history}
use torvmremix.Index.Search.{Float, CompositeIndex}

abbrev in_range : ℕ → ℕ → ℕ → Bool
in_range a b c = leb a c && leb c b

-- The tables for ASCII, with a sum in place of the hash.
abbrev ascii : Unicode
ascii = record {
  is_letter = λ c. in_range b'a' b'z' c || in_range b'A' b'Z' c;
  is_digit = λ c. in_range b'0' b'9' c;
  lower = λ c. if in_range b'A' b'Z' c then c + 32 else c;
  nfd = λ s. s;
  digest = weight;
}
  where
    weight : Runes → ℕ
    weight [] = 7
    weight (c ∷ s) = c + 31 * weight s

abbrev text : Bytes
text = bytes "The Onion router; an ONION, for you."

tokenize-Distinct_example : All IsTerm (tokenize ascii text) × Distinct (tokenize ascii text)
tokenize-Distinct_example = tokenize-Distinct ascii text

tokenize_test : tokenize ascii text ≡ bytes "onion" ∷ bytes "router" ∷ []
unfolding tokenize bytes fields_func normalize trim_func trim_left trim_right collect_terms
    is_skipped byte_length rune_length eq_bytes
tokenize_test = refl

abbrev wanted : MetadataFilter
wanted = record {
  file_types = bytes "Markdown" ∷ [];
  min_size = pos 1024;
  max_size = pos 4096;
  created_after = 63700000000000000000;
  created_before = 0;
  modified_after = 0;
  modified_before = 63850000000000000000;
  tags = bytes "work" ∷ [];
}

abbrev upload : Bytes → Bytes → Upload
upload path content = record { path = path; content = content; stat = none; now = 5 }

abbrev uploads : List Upload
uploads =
    upload (bytes "/docs/a.txt") (bytes "onion routing")
    ∷ upload (bytes "/docs/b.md") (bytes "garlic")
    ∷ upload (bytes "/docs/c.log") (bytes "an onion, an ONION")
    ∷ []

query-history_example :
    (query ascii (add_each ascii new_inverted_index uploads) (bytes "onion")
      ≡ matching ascii (hash_term ascii (bytes "onion")) 0 uploads)
    × (local_query ascii (add_each ascii new_inverted_index uploads) (bytes "onion")
        ≡ described ascii (hash_term ascii (bytes "onion")) 0 uploads)
query-history_example = query-history ascii uploads (bytes "onion") (omega arith)

-- Scores in thousandths, sorted by insertion.
abbrev thousandths : Float
thousandths = record {
  Score = ℕ;
  zero_score = 0;
  one = 1000;
  add = λ a b. a + b;
  reciprocal = λ n. 1000 / n;
  arrange = sorted;
}
  where
    place : ℕ × ℕ → Table ℕ → Table ℕ
    place e [] = e ∷ []
    place e (d ∷ m) = let rest = place e m in if leb d.1 e.1 then e ∷ d ∷ m else d ∷ rest

    sorted : Table ℕ → Table ℕ
    sorted [] = []
    sorted (e ∷ m) = place e (sorted m)

abbrev documents : CompositeIndex ascii thousandths
documents = record { words = add_each ascii new_inverted_index uploads; vectors = none }

abbrev logs : MetadataFilter
logs = record wanted {
  file_types = bytes "config" ∷ bytes "text" ∷ [];
  min_size = pos 0;
  tags = [];
}
