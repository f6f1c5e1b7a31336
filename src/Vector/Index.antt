-- ===== src/Vector/Index.antt =====
-- controller/internal/vectorindex/vectorindex.go. The embedder is any one, the level of a node that
-- is inserted and the order in which Go ranges over a map are arguments. AddDocument embeds in front
-- of its lock, and an embedder keeps no state here, so each method is one step.
use torvmremix.Base.{
  ℕ, Option, none, some, List, [], ◌∷◌, Bool, true, false, not, ◌||◌, Result, ok, err, ◌==◌,
  if◌then◌else◌, Bytes, is_nil, length, map, ℤ,
}
use torvmremix.Index.Inverted.{Table, lookup, put}
use torvmremix.Vector.Partial.{◌>>=◌}
use torvmremix.Vector.Graph.{Floats, HnswIndex, new_hnsw_index, vector_at}
use torvmremix.Vector.Insert.{insert, SearchHit, search_knn}
use torvmremix.Vector.Embed.{Embedder}

pub record DocRef : Type 0 where
  pub doc_id : ℕ
  pub path : Bytes
  pub title : Bytes

-- A call of AddDocument, and the level that is drawn in it.
pub record Entry : Type 0 where
  pub ref : DocRef
  pub content : Bytes
  pub level : ℕ

module _ (fl : Floats) (em : Embedder fl) where
  pub record VectorIndex : Type 0 where
    pub hnsw : HnswIndex fl
    pub docs : Table DocRef
    pub is_ready : Bool

  unfoldable pub new_vector_index : ℕ → ℕ → VectorIndex
  new_vector_index m ef = record {
    hnsw = new_hnsw_index fl em.dimension m ef;
    docs = [];
    is_ready = false;
  }

  -- AddDocument: the index afterwards, or the error of the embedder, which leaves it as it was.
  unfoldable pub add_document : VectorIndex → Entry → Option (Result em.Error VectorIndex)
  add_document vi doc = em.embed_text doc.content >>= λ r. elim r [
    | err e ↦ some (err e)
    | ok vec ↦ insert fl vi.hnsw vec doc.level >>= λ done.
        some (ok record { hnsw = done.0; docs = put done.1 doc.ref vi.docs; is_ready = true })
  ]

  -- The document's number in place of the node's, if the node has a document.
  unfoldable pub with_doc_id : Table DocRef → SearchHit fl → SearchHit fl
  with_doc_id docs hit = elim (lookup hit.id docs) [
    | none ↦ hit
    | some ref ↦ record hit { id = ref.doc_id }
  ]

  unfoldable pub search : VectorIndex → Bytes → ℤ → Option (Result em.Error (List (SearchHit fl)))
  unfolding with_doc_id
  search vi query k = elim (not vi.is_ready || is_nil vi.hnsw.nodes) [
    | true ↦ some (ok [])
    | false ↦ em.embed_text query >>= λ r. elim r [
      | err e ↦ some (err e)
      | ok vec ↦ search_knn fl vi.hnsw vec k >>= λ hits. some (ok (map (with_doc_id vi.docs) hits))
    ]
  ]

  -- The first entry, in the order of the range, that has a document's number.
  unfoldable pub node_of : ℕ → Table DocRef → Option ℕ
  node_of n [] = none
  node_of n (e ∷ m) = if e.1.doc_id == n then some e.0 else node_of n m

  -- GetEmbedding; none is the nil slice.
  unfoldable pub get_embedding :
      (Table DocRef → Table DocRef) → VectorIndex → ℕ → Option (List fl.Float32)
  unfolding node_of
  get_embedding arrange vi n =
      node_of n (arrange vi.docs) >>= λ a. vector_at fl vi.hnsw.dimension vi.hnsw.vectors a

  -- A caller that goes on behind an error, as CompositeIndex.AddDocument does.
  abbrev pub kept_on_error : VectorIndex → Result em.Error VectorIndex → VectorIndex
  kept_on_error vi (err e) = vi
  kept_on_error vi (ok next) = next

  unfoldable pub add_each : List Entry → VectorIndex → Option VectorIndex
  unfolding add_document
  add_each [] vi = some vi
  add_each (doc ∷ docs) vi = add_document vi doc >>= λ r. add_each docs (kept_on_error vi r)

  unfoldable pub len : VectorIndex → ℕ
  len vi = length vi.docs
