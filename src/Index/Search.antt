-- ===== src/Index/Search.antt =====
-- controller/internal/index/composite.go. The vector index is a parameter, `none` when it is disabled, and
-- so is the arithmetic of float32: the code adds scores and sorts by them.
use torvmremix.Base.{
  ℕ, zero, suc, ◌+◌, ◌*◌, Bool, true, false, Option, none, some, List, [], ◌∷◌, ℤ, pos, negsuc,
  take, map, if◌then◌else◌, Bytes,
}
use torvmremix.Index.Tokens.{Unicode, Runes}
use torvmremix.Index.Meta.{DocMeta, unix}
use torvmremix.Index.Filter.{MetadataFilter, is_empty, matches}
use torvmremix.Index.Inverted.{
  Table, lookup, put, InvertedIndex, Upload, add_document, local_query, get_doc,
}

pub data SearchMode : Type 0 where
  keyword vector hybrid : SearchMode
  other : Bytes → SearchMode

-- float32, as far as the code computes with it. `arrange` is the order in which sort.Slice leaves
-- the entries of the map of scores, the highest first.
pub record Float : Type 1 where
  pub Score : Type 0
  pub zero_score : Score
  pub one : Score
  pub add : Score → Score → Score
  pub reciprocal : ℕ → Score  -- 1.0 / float32(n)
  pub arrange : Table Score → Table Score

module _ (u : Unicode) (fl : Float) where
  pub record SearchResult : Type 0 where
    pub doc_id : ℕ
    pub path : Bytes
    pub title : Bytes
    pub score : fl.Score
    pub mode : SearchMode
    pub file_type : Bytes
    pub size : ℤ
    pub created_at : ℤ
    pub modified_at : ℤ
    pub word_count : ℕ

  -- A hit of the vector index.
  pub record Hit : Type 0 where
    pub id : ℕ
    pub score : fl.Score

  pub record CompositeIndex : Type 0 where
    pub words : InvertedIndex
    pub vectors : Option (Runes → ℤ → Option (List Hit))

  abbrev pub double : ℤ → ℤ
  double (pos n) = pos (n * 2)
  double (negsuc n) = negsuc (n * 2 + 1)

  -- `if k > 0 && i >= k { break }`, and the slice results[:k].
  abbrev pub at_most : {A : Type 0} → ℤ → List A → List A
  at_most (pos zero) xs = xs
  at_most (pos (suc n)) xs = take (suc n) xs
  at_most (negsuc n) xs = xs

  unfoldable pub keyword_result : DocMeta → SearchResult
  keyword_result doc = record {
    doc_id = doc.id;
    path = doc.path;
    title = doc.title;
    score = fl.one;
    mode = keyword;
    file_type = doc.file_type;
    size = doc.size;
    created_at = unix doc.created_at;
    modified_at = unix doc.modified_at;
    word_count = doc.word_count;
  }

  unfoldable pub keyword_search : CompositeIndex → Runes → ℤ → List SearchResult
  keyword_search c q k = map keyword_result (at_most k (local_query u c.words q))

  abbrev pub bare_result : ℕ → fl.Score → SearchMode → Bytes → Bytes → SearchResult
  bare_result id s m path title = record {
    doc_id = id;
    path = path;
    title = title;
    score = s;
    mode = m;
    file_type = [];
    size = pos 0;
    created_at = pos 0;
    modified_at = pos 0;
    word_count = 0;
  }

  unfoldable pub vector_result : CompositeIndex → Hit → SearchResult
  vector_result c h = elim (get_doc c.words h.id) [
    | none ↦ bare_result h.id h.score vector [] []
    | some doc ↦ record (keyword_result doc) { doc_id = h.id; score = h.score; mode = vector }
  ]

  unfoldable pub vector_search : CompositeIndex → Runes → ℤ → List SearchResult
  vector_search c q k = elim c.vectors [
    | none ↦ []
    | some search ↦ elim (search q k) [ none ↦ [] | some hits ↦ map (vector_result c) hits ]
  ]

  -- The maps of hybridSearch.
  pub record Fusion : Type 0 where
    pub scores : Table fl.Score
    pub paths : Table Bytes
    pub titles : Table Bytes

  abbrev pub value_or : {A : Type 0} → A → Option A → A
  value_or d none = d
  value_or d (some a) = a

  abbrev pub raise : Fusion → ℕ → ℕ → Table fl.Score
  raise m id rank =
      put id (fl.add (value_or fl.zero_score (lookup id m.scores)) (fl.reciprocal (60 + rank)))
        m.scores

  unfoldable pub fuse_keyword : Fusion → ℕ → List SearchResult → Fusion
  fuse_keyword m rank [] = m
  fuse_keyword m rank (r ∷ rs) =
      fuse_keyword
        (record {
          scores = raise m r.doc_id rank;
          paths = put r.doc_id r.path m.paths;
          titles = put r.doc_id r.title m.titles;
        })
        (rank + 1) rs

  abbrev pub is_absent : {A : Type 0} → Option A → Bool
  is_absent none = true
  is_absent (some a) = false

  unfoldable pub fuse_vector : Fusion → ℕ → List SearchResult → Fusion
  fuse_vector m rank [] = m
  fuse_vector m rank (r ∷ rs) =
      let new = is_absent (lookup r.doc_id m.paths) in
      fuse_vector
        (record {
          scores = raise m r.doc_id rank;
          paths = if new then put r.doc_id r.path m.paths else m.paths;
          titles = if new then put r.doc_id r.title m.titles else m.titles;
        })
        (rank + 1) rs

  unfoldable pub hybrid_search : CompositeIndex → Runes → ℤ → List SearchResult
  hybrid_search c q k =
      let m =
        fuse_vector
          (fuse_keyword (record { scores = []; paths = []; titles = [] }) 0
            (keyword_search c q (double k)))
          0 (vector_search c q (double k)) in
      map
        (λ (e : ℕ × fl.Score).
          bare_result e.0 e.1 hybrid (value_or [] (lookup e.0 m.paths))
            (value_or [] (lookup e.0 m.titles)))
        (at_most k (fl.arrange m.scores))

  unfoldable pub dispatch : CompositeIndex → Runes → SearchMode → ℤ → List SearchResult
  dispatch c q keyword k = keyword_search c q k
  dispatch c q vector k = vector_search c q k
  dispatch c q hybrid k = hybrid_search c q k
  dispatch c q (other m) k = keyword_search c q k

  -- Whether the document of a result is known and passes the filter.
  unfoldable pub passes : CompositeIndex → Option MetadataFilter → SearchResult → Bool
  passes c f r = elim (get_doc c.words r.doc_id) [ none ↦ false | some doc ↦ matches f doc ]

  unfoldable pub keep : (SearchResult → Bool) → List SearchResult → List SearchResult
  keep p [] = []
  keep p (r ∷ rs) = let rest = keep p rs in if p r then r ∷ rest else rest

  unfoldable pub search :
      CompositeIndex → Runes → SearchMode → ℤ → Option MetadataFilter → List SearchResult
  search c q m k f =
      let results = dispatch c q m (double k) in
      at_most k (if is_empty f then results else keep (passes c f) results)

  -- AddDocument; the vector index, if there is one, is told of the document, which is its own matter.
  unfoldable pub add_to_both : CompositeIndex → Upload → CompositeIndex × ℕ
  add_to_both c f = let (words, id) = add_document u c.words f in (record c { words = words }, id)
