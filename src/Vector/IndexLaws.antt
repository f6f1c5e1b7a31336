-- ===== src/Vector/IndexLaws.antt =====
-- The vector index after any sequence of documents.
use torvmremix.Base.{
  ℕ, ◌<◌, ◌≡◌, refl, sym, subst, ◌∙◌, Option, none, some, List, [], ◌∷◌, ◌++◌, Bool, true, false,
  Result, ok, err, length, get_elem?, if◌then◌else◌, arith, length-append, append_assoc, append-nil,
}
use torvmremix.Index.Inverted.{lookup, put}
use torvmremix.Index.Tables.{lookup-put, get_elem?-snoc}
use torvmremix.Vector.Partial.{◌>>=◌, Returns, Returns->>=, Returns-some}
use torvmremix.Vector.Descent.{Order}
use torvmremix.Vector.Graph.{Floats, HnswIndex, new_hnsw_index, links_at}
use torvmremix.Vector.Insert.{insert}
use torvmremix.Vector.Embed.{Embedder, Sized}
use torvmremix.Vector.WellFormed.{WellFormed}
use torvmremix.Vector.Grow.{Inserted, insert-Inserted}
use torvmremix.Vector.Index.{
  DocRef, Entry, VectorIndex, new_vector_index, add_document, kept_on_error, add_each,
}

module _ (fl : Floats) (em : Embedder fl) where
  -- The index holds some documents, in the order in which they came: each has a node of the graph,
  -- which is well formed, and its reference under the node's number.
  pub record Holds (past : List DocRef) (vi : VectorIndex fl em) : Type 0 where
    pub graph : WellFormed fl vi.hnsw
    pub dimension : vi.hnsw.dimension ≡ em.dimension
    pub size : length vi.hnsw.nodes ≡ length past
    pub docs : (n : ℕ) → lookup n vi.docs ≡ get_elem? past n
    pub ready : 0 < length past → vi.is_ready ≡ true

  -- The embedder gives a vector.
  abbrev pub embeds : Option (Result em.Error (List fl.Float32)) → Bool
  embeds none = false
  embeds (some (err e)) = false
  embeds (some (ok vec)) = true

  -- The documents that an embedder takes.
  abbrev pub embedded : List Entry → List DocRef
  embedded [] = []
  embedded (doc ∷ docs) =
      let rest = embedded docs in
      if embeds (em.embed_text doc.content) then doc.ref ∷ rest else rest

  -- What AddDocument makes of the documents.
  abbrev pub Added : List DocRef → DocRef → Bool → Result em.Error (VectorIndex fl em) → Type 0
  Added past ref taken (err e) = taken ≡ false
  Added past ref taken (ok next) = (taken ≡ true) × Holds (past ++ (ref ∷ [])) next

  Inserted-Holds :
      (past : List DocRef) (vi : VectorIndex fl em) (doc : Entry) (vec : List fl.Float32)
      (done : HnswIndex fl × ℕ)
      → Holds past vi
      → Inserted fl vi.hnsw vec done
      → Holds
          (past ++ (doc.ref ∷ []))
          record { hnsw = done.0; docs = put done.1 doc.ref vi.docs; is_ready = true }
  Inserted-Holds past vi doc vec done holds made = record {
    graph = made.well_formed;
    dimension = made.dimension ∙ holds.dimension;
    size = omega (arith, made.grown, holds.size, length-append past (doc.ref ∷ []));
    docs = λ n. ground (
      arith,
      lookup-put done.1 n doc.ref vi.docs,
      get_elem?-snoc past doc.ref n,
      holds.docs n,
      made.id,
      holds.size,
    );
    ready = λ _. refl;
  }

  result-Added :
      (past : List DocRef) (vi : VectorIndex fl em) (doc : Entry)
      (r : Result em.Error (List fl.Float32))
      → Order fl.less
      → Holds past vi
      → Sized em.dimension r
      → Returns (Added past doc.ref (embeds (some r))) (elim r [
        | err e ↦ some (err e)
        | ok vec ↦ insert fl vi.hnsw vec doc.level >>= λ done.
            some (ok record { hnsw = done.0; docs = put done.1 doc.ref vi.docs; is_ready = true })
      ])
  result-Added past vi doc (err e) order holds sized = refl
  result-Added past vi doc (ok vec) order holds sized =
      Returns->>= (Inserted fl vi.hnsw vec) (Added past doc.ref true)
        (insert fl vi.hnsw vec doc.level) _
        (insert-Inserted fl vi.hnsw vec doc.level order holds.graph (sized ∙ sym holds.dimension))
        (λ done made. (refl, Inserted-Holds past vi doc vec done holds made))

  -- AddDocument returns; behind the embedder's error the index is as it was, and otherwise it holds
  -- the document behind the others.
  pub add_document-Added :
      (past : List DocRef) (vi : VectorIndex fl em) (doc : Entry)
      → Order fl.less
      → Holds past vi
      → Returns
          (Added past doc.ref (embeds (em.embed_text doc.content)))
          (add_document fl em vi doc)
  unfolding add_document
  add_document-Added past vi doc order holds =
      let (r, e, sized) =
        Returns-some (Sized em.dimension) (em.embed_text doc.content)
          (em.embed_text_sized doc.content) in
      rw e (result-Added past vi doc r order holds sized)

  new-Holds : (m ef : ℕ) → 0 < ef → Holds [] (new_vector_index fl em m ef)
  unfolding new_vector_index new_hnsw_index links_at lookup
  new-Holds m ef h = record {
    graph = record {
      sized = omega arith;
      neat = λ l a ls e. absurd (cc);
      top = λ l a e. absurd (cc);
      entered = refl;
      wide = h;
      search_wide = omega arith;
    };
    dimension = refl;
    size = refl;
    docs = λ n. refl;
    ready = λ h. absurd (omega arith);
  }

  add_each-Holds :
      (past : List DocRef) (docs : List Entry) (vi : VectorIndex fl em)
      → Order fl.less
      → Holds past vi
      → Returns (Holds (past ++ embedded docs)) (add_each fl em docs vi)
  unfolding add_each
  add_each-Holds past [] vi order holds = rw (append-nil past) holds
  add_each-Holds past (doc ∷ docs) vi order holds =
      Returns->>= (Added past doc.ref (embeds (em.embed_text doc.content)))
        (Holds (past ++ embedded (doc ∷ docs))) (add_document fl em vi doc) _
        (add_document-Added past vi doc order holds)
        (λ r added.
          next r (embeds (em.embed_text doc.content)) added
            (λ front vj. add_each-Holds front docs vj order))
    where
      next :
          (r : Result em.Error (VectorIndex fl em)) (taken : Bool)
          → Added past doc.ref taken r
          → ((front : List DocRef) (vj : VectorIndex fl em)
              → Holds front vj
              → Returns (Holds (front ++ embedded docs)) (add_each fl em docs vj))
          → Returns
              (Holds (past ++ (if taken then doc.ref ∷ embedded docs else embedded docs)))
              (add_each fl em docs (kept_on_error fl em vi r))
      next (err e) taken added rest = rw added (rest past vi holds)
      next (ok now) taken added rest = rw (added.0) (
          subst (λ all. Returns (Holds all) (add_each fl em docs now))
            (append_assoc past (doc.ref ∷ []) (embedded docs))
            (rest (past ++ (doc.ref ∷ [])) now added.1))

-- An index is what AddDocument makes of a sequence of documents: no call panics or runs on, and it
-- holds the documents that the embedder takes, each under its node's number, with a well-formed
-- graph; if the beam of the construction is not empty and the comparison of distances is irreflexive
-- and transitive.
pub history-Holds :
    (fl : Floats) (em : Embedder fl) (m ef : ℕ) (docs : List Entry)
    → Order fl.less
    → 0 < ef
    → Returns
        (Holds fl em (embedded fl em docs))
        (add_each fl em docs (new_vector_index fl em m ef))
history-Holds fl em m ef docs order h =
    add_each-Holds fl em [] docs (new_vector_index fl em m ef) order (new-Holds fl em m ef h)
