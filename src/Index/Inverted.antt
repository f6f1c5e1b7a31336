-- ===== src/Index/Inverted.antt =====
-- controller/internal/index/inverted.go and LocalQuery of query.go. A Go map is a list of its entries, each
-- key once. The lock makes each method one step.
use torvmremix.Base.{
  ℕ, ◌+◌, ◌%◌, Option, none, some, List, [], ◌∷◌, ◌++◌, ℤ, pos, any, length, ◌==◌, if◌then◌else◌,
  Bytes, map,
}
use torvmremix.Index.Tokens.{Unicode, Runes, tokenize, hash_term}
use torvmremix.Index.Meta.{Time, DocMeta, detect_file_type, detect_mime_type, ext_of, base_of}

abbrev pub Table : Type 0 → Type 0
Table V = List (ℕ × V)

module _ {V : Type 0} where
  unfoldable pub lookup : ℕ → Table V → Option V
  lookup k [] = none
  lookup k (e ∷ m) = if e.0 == k then some e.1 else lookup k m

  -- m[k] = v
  unfoldable pub put : ℕ → V → Table V → Table V
  put k v [] = (k, v) ∷ []
  put k v (e ∷ m) = let rest = put k v m in if e.0 == k then (k, v) ∷ m else e ∷ rest

-- m[k] where a missing key reads as nil.
unfoldable pub ids_at : ℕ → Table (List ℕ) → List ℕ
ids_at k m = elim (lookup k m) [ none ↦ [] | some ids ↦ ids ]

pub record InvertedIndex : Type 0 where
  pub terms : Table (List ℕ)
  pub documents : Table DocMeta
  pub next_doc_id : ℕ

unfoldable pub new_inverted_index : InvertedIndex
new_inverted_index = record { terms = []; documents = []; next_doc_id = 0 }

unfoldable pub append_unique : List ℕ → ℕ → List ℕ
append_unique ids v = if any (λ w. w == v) ids then ids else ids ++ (v ∷ [])

-- What os.Stat says of a file, if it succeeds.
pub record FileInfo : Type 0 where
  pub size : ℤ
  pub mod_time : Time

-- A call of AddDocument, with what the system answers during it.
pub record Upload : Type 0 where
  pub path : Bytes
  pub content : Bytes
  pub stat : Option FileInfo
  pub now : Time

module _ (u : Unicode) where
  -- The loop over the terms of a document.
  unfoldable pub add_terms : ℕ → List Runes → Table (List ℕ) → Table (List ℕ)
  add_terms id [] m = m
  add_terms id (t ∷ ts) m =
      add_terms id ts (put (hash_term u t) (append_unique (ids_at (hash_term u t) m) id) m)

  unfoldable pub describe : ℕ → Upload → DocMeta
  describe id f = record {
    id = id;
    path = f.path;
    title = base_of f.path;
    size = elim f.stat [ none ↦ pos 0 | some i ↦ i.size ];
    indexed_at = f.now;
    file_type = detect_file_type (ext_of f.path);
    mime_type = detect_mime_type (ext_of f.path);
    created_at = elim f.stat [ none ↦ 0 | some i ↦ i.mod_time ];
    modified_at = elim f.stat [ none ↦ 0 | some i ↦ i.mod_time ];
    tags = [];
    word_count = length (tokenize u f.content);
  }

  -- AddDocument: the new index and the number of the document, a uint32.
  unfoldable pub add_document : InvertedIndex → Upload → InvertedIndex × ℕ
  add_document x f = (
    record {
      terms = add_terms x.next_doc_id (tokenize u f.content) x.terms;
      documents = put x.next_doc_id (describe x.next_doc_id f) x.documents;
      next_doc_id = (x.next_doc_id + 1) % 4294967296;
    },
    x.next_doc_id,
  )

  unfoldable pub query : InvertedIndex → Runes → List ℕ
  query x term = ids_at (hash_term u term) x.terms

  -- The loop of LocalQuery.
  unfoldable pub found : Table DocMeta → List ℕ → List DocMeta
  found m [] = []
  found m (id ∷ ids) =
      let rest = found m ids in elim (lookup id m) [ none ↦ rest | some doc ↦ doc ∷ rest ]

  unfoldable pub local_query : InvertedIndex → Runes → List DocMeta
  local_query x term = found x.documents (query x term)

unfoldable pub get_doc : InvertedIndex → ℕ → Option DocMeta
get_doc x id = lookup id x.documents

unfoldable pub term_count : InvertedIndex → ℕ
term_count x = length x.terms

unfoldable pub doc_count : InvertedIndex → ℕ
doc_count x = length x.documents

unfoldable pub term_hashes : InvertedIndex → List ℕ
term_hashes x = map (λ (e : ℕ × List ℕ). e.0) x.terms
