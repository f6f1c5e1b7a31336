-- ===== src/Index/History.antt =====
-- The inverted index of controller/internal/index/inverted.go after any sequence of documents.
use mathlib.Core.Option
use torvmremix.Base.{
  ℕ, suc, ◌+◌, ◌%◌, ◌≤◌, ◌<◌, ◌≡◌, refl, ap, ◌∙◌, sym, subst, Bool, true, false, some, List, [],
  ◌∷◌, ◌++◌, append-nil, append_assoc, any, length, get_elem?, All, ==_iff, ◌==◌, if◌then◌else◌,
  arith, Bool-cases, ◌⊎◌, inl, inr, length-append, All-weaken,
}
use torvmremix.Index.Tokens.{Unicode, Runes, tokenize, hash_term}
use torvmremix.Index.Meta.{DocMeta}
use torvmremix.Index.Inverted.{
  Table, lookup, put, ids_at, InvertedIndex, new_inverted_index, append_unique, Upload, add_terms,
  describe, add_document, query, found, local_query,
}
use torvmremix.Index.Tables.{lookup-put, append_unique-fresh, ids_at-term, twice, get_elem?-snoc}

module _ (u : Unicode) where
  -- A document has a term of a hash.
  unfoldable pub mentions : ℕ → List Runes → Bool
  mentions h ts = any (λ t. hash_term u t == h) ts

  ids_at-add_terms :
      (h id : ℕ) (ts : List Runes) (m : Table (List ℕ))
      → ids_at h (add_terms u id ts m)
        ≡ (if mentions h ts then append_unique (ids_at h m) id else ids_at h m)
  unfolding add_terms mentions
  ids_at-add_terms h id [] m = refl
  ids_at-add_terms h id (t ∷ ts) m =
      ids_at-add_terms h id ts (put (hash_term u t) (append_unique (ids_at (hash_term u t) m) id) m)
      ∙ rw (ids_at-term h id (hash_term u t) m)
          (twice (mentions h ts) (hash_term u t == h) (ids_at h m) id)

  -- The numbers of the documents, counted from `n`, that have a term of the hash.
  unfoldable pub matching : ℕ → ℕ → List Upload → List ℕ
  matching h n [] = []
  matching h n (f ∷ fs) =
      let rest = matching h (n + 1) fs in
      if mentions h (tokenize u f.content) then n ∷ rest else rest

  -- What is kept of these documents.
  unfoldable pub described : ℕ → ℕ → List Upload → List DocMeta
  described h n [] = []
  described h n (f ∷ fs) =
      let rest = described h (n + 1) fs in
      if mentions h (tokenize u f.content) then describe u n f ∷ rest else rest

  -- One document after the other.
  unfoldable pub add_each : InvertedIndex → List Upload → InvertedIndex
  add_each x [] = x
  add_each x (f ∷ fs) = add_each (add_document u x f).0 fs

  -- The index holds what a list of documents makes of it.
  record Holds (past : List Upload) (x : InvertedIndex) : Type 0 where
    next : x.next_doc_id ≡ length past % 4294967296
    terms : (h : ℕ) → ids_at h x.terms ≡ matching h 0 past
    documents :
        (n : ℕ) (f : Upload)
        → get_elem? past n ≡ some f
        → lookup n x.documents ≡ some (describe u n f)

  matching-snoc :
      (h n : ℕ) (past : List Upload) (f : Upload)
      → matching h n (past ++ (f ∷ []))
        ≡ matching h n past
          ++ (if mentions h (tokenize u f.content) then (n + length past) ∷ [] else [])
  unfolding matching
  matching-snoc h n [] f = ground arith
  matching-snoc h n (g ∷ past) f = ground (arith, matching-snoc h (n + 1) past f)

  matching-below :
      (h n : ℕ) (past : List Upload) → All (λ w. w < n + length past) (matching h n past)
  unfolding matching
  matching-below h n [] = tt
  matching-below h n (g ∷ past) = go (mentions h (tokenize u g.content)) (
      All-weaken _ _ (λ w k. omega (arith, k)) (matching h (n + 1) past)
        (matching-below h (n + 1) past))
    where
      go :
          (b : Bool)
          → All (λ w. w < n + suc (length past)) (matching h (n + 1) past)
          → All
              (λ w. w < n + suc (length past))
              (if b then n ∷ matching h (n + 1) past else matching h (n + 1) past)
      go true k = (omega arith, k)
      go false k = k

  add-Holds :
      (past : List Upload) (x : InvertedIndex) (f : Upload)
      → length past < 4294967296
      → Holds past x
      → Holds (past ++ (f ∷ [])) (add_document u x f).0
  unfolding add_document
  add-Holds past x f le w = record {
    next = ground (arith, length-append past (f ∷ []), w.next);
    terms = λ h.
        ids_at-add_terms h x.next_doc_id (tokenize u f.content) x.terms
        ∙ ap
            (λ ids.
              if mentions h (tokenize u f.content) then append_unique ids x.next_doc_id else ids)
            (w.terms h)
        ∙ appended h (mentions h (tokenize u f.content))
        ∙ sym (matching-snoc h 0 past f);
    documents = λ n g e.
        lookup-put x.next_doc_id n (describe u x.next_doc_id f) x.documents
        ∙ kept n g (sym (get_elem?-snoc past f n) ∙ e) (Bool-cases (n == length past));
  }
    where
      at : x.next_doc_id ≡ length past
      at = omega (arith, w.next, le)

      appended :
          (h : ℕ) (b : Bool)
          → (if b then append_unique (matching h 0 past) x.next_doc_id else matching h 0 past)
            ≡ matching h 0 past ++ (if b then (0 + length past) ∷ [] else [])
      appended h true =
          ap (append_unique (matching h 0 past)) (at ∙ omega arith)
          ∙ append_unique-fresh (matching h 0 past) (0 + length past) (matching-below h 0 past)
      appended h false = sym (append-nil (matching h 0 past))

      kept :
          (n : ℕ) (g : Upload)
          → (if n == length past then some f else get_elem? past n) ≡ some g
          → (n == length past ≡ true) ⊎ (n == length past ≡ false)
          → (if x.next_doc_id == n then some (describe u x.next_doc_id f) else lookup n x.documents)
            ≡ some (describe u n g)
      kept n g e (inl h) =
          let same : some f ≡ some g = ground (arith, e, h) in
          let here : x.next_doc_id ≡ n = omega (arith, at, (==_iff n (length past)).0 h) in
          let told : some (describe u x.next_doc_id f) ≡ some (describe u n g) =
            ap (λ k. some (describe u k f)) here ∙ ap (Option.map (describe u n)) same in
          ground (arith, here, told)
      kept n g e (inr h) = ground (arith, w.documents n g (ground (arith, e, h)), at)

  add_each-Holds :
      (past : List Upload) (x : InvertedIndex) (fs : List Upload)
      → length past + length fs ≤ 4294967296
      → Holds past x
      → Holds (past ++ fs) (add_each x fs)
  unfolding add_each
  add_each-Holds past x [] le w = subst (λ l. Holds l x) (sym (append-nil past)) w
  add_each-Holds past x (f ∷ fs) le w =
      subst (λ l. Holds l (add_each (add_document u x f).0 fs)) (append_assoc past (f ∷ []) fs)
        (add_each-Holds (past ++ (f ∷ [])) (add_document u x f).0 fs
          (omega (arith, le, length-append past (f ∷ [])))
          (add-Holds past x f (omega (arith, le)) w))

  new-Holds : Holds [] new_inverted_index
  unfolding new_inverted_index matching ids_at lookup
  new-Holds = record { next = refl; terms = λ h. refl; documents = λ n g e. absurd (cc) }

  found-described :
      (m : Table DocMeta) (h k : ℕ) (fs : List Upload)
      → ((n : ℕ) (f : Upload)
          → get_elem? fs n ≡ some f
          → lookup (k + n) m ≡ some (describe u (k + n) f))
      → found u m (matching h k fs) ≡ described h k fs
  unfolding found matching described
  found-described m h k [] at = refl
  found-described m h k (f ∷ fs) at =
      let head : lookup k m ≡ some (describe u k f) =
        subst (λ j. lookup j m ≡ some (describe u j f)) (omega arith) (at 0 f refl) in
      let tail =
        found-described m h (k + 1) fs (λ n g e.
          subst (λ j. lookup j m ≡ some (describe u j g)) (omega arith) (at (suc n) g e)) in
      go (mentions h (tokenize u f.content)) head tail
    where
      go :
          (b : Bool)
          → lookup k m ≡ some (describe u k f)
          → found u m (matching h (k + 1) fs) ≡ described h (k + 1) fs
          → found u m (if b then k ∷ matching h (k + 1) fs else matching h (k + 1) fs)
            ≡ (if b then describe u k f ∷ described h (k + 1) fs else described h (k + 1) fs)
      go true e r = rw (found, e, r) refl
      go false e r = r

-- After any documents, up to 2 ^ 32 of them, a query gives the numbers of exactly those that have a
-- term with the hash of the term asked for, in the order in which they came, and LocalQuery gives
-- what is kept of these: none is missing and none stands there twice.
pub query-history :
    (u : Unicode) (fs : List Upload) (term : Runes)
    → length fs ≤ 4294967296
    → (query u (add_each u new_inverted_index fs) term ≡ matching u (hash_term u term) 0 fs)
      × (local_query u (add_each u new_inverted_index fs) term
          ≡ described u (hash_term u term) 0 fs)
unfolding query local_query
query-history u fs term le =
    let w = add_each-Holds u [] new_inverted_index fs (omega (arith, le)) (new-Holds u) in
    (
      w.terms (hash_term u term),
      ap (found u (add_each u new_inverted_index fs).documents) (w.terms (hash_term u term))
          ∙ found-described u (add_each u new_inverted_index fs).documents (hash_term u term) 0 fs
              (λ n f e.
                subst
                  (λ j.
                    lookup j (add_each u new_inverted_index fs).documents ≡ some (describe u j f))
                  (omega arith) (w.documents n f e)),
    )
