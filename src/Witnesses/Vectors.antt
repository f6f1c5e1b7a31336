-- ===== src/Witnesses/Vectors.antt =====
-- Concrete runs for the vector index. Numbers in thousandths stand for floating point.
use mathlib.Core.Option.{some-injective}
use torvmremix.Base.{
  ℕ, zero, suc, ◌+◌, ◌-◌, ◌*◌, ◌/◌, ◌≤◌, ◌≡◌, refl, subst, Option, some, List, [], ◌∷◌, true, false,
  length, get_elem?, leb, ltb, ◌==◌, if◌then◌else◌, arith, pos, Bytes, bytes, ◌&&◌,
}
use torvmremix.Index.Tokens.{Unicode}
use torvmremix.Index.Inverted.{lookup}
use torvmremix.Vector.Partial.{Returns}
use torvmremix.Vector.Graph.{
  Floats, HnswIndex, links_at, links_of, vector_at, distance, sums, cosine_similarity,
}
use torvmremix.Vector.Insert.{
  search_knn, search_from, descend, score_hits, select_neighbors_for_node, max_conn_at,
}
use torvmremix.Vector.Heap.{push, pop, up, down, swap}
use torvmremix.Vector.Search.{search_layer, expand, visit, drain}
use torvmremix.Vector.Descent.{Order}
use torvmremix.Vector.Select.{Total, Chosen, select_neighbors_for_node-Chosen}
use torvmremix.Vector.Neat.{Neighbours, Neat}
use torvmremix.Vector.Links.{Tall}
use torvmremix.Vector.WellFormed.{WellFormed}
use torvmremix.Vector.Answers.{Answered, search_knn-Answered}
use torvmremix.Vector.Embed.{TfidfEmbedder, new_tfidf_embedder, train, tallied, Embedder}
use torvmremix.Vector.EmbedLaws.{documents_with, train-documents_with, tfidf}
use torvmremix.Vector.Index.{DocRef, Entry, VectorIndex, new_vector_index, add_each, search}
use torvmremix.Vector.IndexLaws.{Holds, embedded, history-Holds}
use torvmremix.Vector.Replies.{Reply, search-Reply}

abbrev root_below : ℕ → ℕ → ℕ
root_below zero x = 0
root_below (suc n) x = let r = root_below n x in if leb (suc n * suc n) x then suc n else r

abbrev thousandths : Floats
thousandths = record {
  Float32 = ℕ;
  zero_float = 0;
  one = 1000;
  add = ◌+◌;
  sub = ◌-◌;
  mul = ◌*◌;
  div = λ a b. a * 1000 / b;
  root = root_below 30;
  is_zero_float = λ x. x == 0;
  less = ltb;
}

ltb-Order : Order ltb
ltb-Order = record { irreflexive = λ x. ground arith; transitive = λ x y z h k. ground arith }

ltb-Total : Total ltb
ltb-Total = record { asymmetric = λ x y h. ground arith; chained = λ x y z h k. ground arith }

abbrev letters : Unicode
letters = record {
  is_letter = λ c. leb b'a' c && leb c b'z';
  is_digit = λ c. leb b'0' c && leb c b'9';
  lower = λ c. c;
  nfd = λ s. s;
  digest = length;
}

abbrev texts : List Bytes
texts = bytes "tor relay" ∷ bytes "tor tor bridge" ∷ []

abbrev trained_embedder : TfidfEmbedder letters (λ s. s)
trained_embedder = train letters (λ s. s) (new_tfidf_embedder letters (λ s. s) 2) texts

train-documents_with_example :
    tallied (bytes "tor") trained_embedder.doc_freq
    ≡ documents_with letters (λ s. s) (bytes "tor") texts
train-documents_with_example =
    train-documents_with letters (λ s. s) (new_tfidf_embedder letters (λ s. s) 2) texts
      (bytes "tor")

two_wide : trained_embedder.dimension ≡ 2
unfolding train new_tfidf_embedder
two_wide = refl

abbrev embedder : Embedder thousandths
embedder =
    tfidf letters (λ s. s) thousandths (λ n. n) (λ n df. n) (λ m. m) trained_embedder
      (omega (arith, two_wide)) (omega (arith, two_wide))

abbrev ref_at : ℕ → DocRef
ref_at n = record { doc_id = n; path = bytes "notes"; title = bytes "notes" }

abbrev entries : List Entry
entries =
    record { ref = ref_at 7; content = bytes "tor relay"; level = 0 }
    ∷ record { ref = ref_at 9; content = bytes "tor tor bridge"; level = 1 }
    ∷ []

history-Holds_example :
    Returns
      (Holds thousandths embedder (embedded thousandths embedder entries))
      (add_each thousandths embedder entries (new_vector_index thousandths embedder 4 10))
history-Holds_example = history-Holds thousandths embedder 4 10 entries ltb-Order (omega arith)

-- Two nodes that are neighbours of each other.
abbrev pair : HnswIndex thousandths
pair = record {
  dimension = 2;
  m = 4;
  m_max0 = 8;
  ef_construct = 10;
  ef_search = 50;
  max_level = 0;
  entry_point = some 0;
  nodes =
      record { connections = (1 ∷ []) ∷ []; level = 0 }
      ∷ record { connections = (0 ∷ []) ∷ []; level = 0 }
      ∷ [];
  vectors = 3 ∷ 4 ∷ 4 ∷ 3 ∷ [];
}

links-Neighbours :
    (a b : ℕ) (ls : List ℕ)
    → ◌≡◌ {A = Option (List ℕ)} (some (b ∷ [])) (some ls)
    → Tall pair.nodes 0 b
    → (b == a) ≡ false
    → Neighbours (max_conn_at thousandths pair) pair.nodes 0 a ls
links-Neighbours a b ls e tall apart =
    subst (Neighbours (max_conn_at thousandths pair) pair.nodes 0 a) (some-injective (b ∷ []) ls e)
      record {
        tall = λ c h. subst (Tall pair.nodes 0) (ground arith) tall;
        others = λ c h same. absurd (ground arith);
        once = λ c. ground arith;
        room = omega arith;
      }

pair-Neat : Neat (max_conn_at thousandths pair) pair.nodes
unfolding links_at
pair-Neat zero zero ls e = links-Neighbours 0 1 ls e refl (ground arith)
pair-Neat zero (suc zero) ls e = links-Neighbours 1 0 ls e refl (ground arith)
pair-Neat zero (suc (suc a)) ls e = absurd (cc)
pair-Neat (suc l) zero ls e = absurd (cc)
pair-Neat (suc l) (suc zero) ls e = absurd (cc)
pair-Neat (suc l) (suc (suc a)) ls e = absurd (cc)

pair-top : (l a : ℕ) → Tall pair.nodes l a → l ≤ 0
unfolding links_at
pair-top zero a h = omega arith
pair-top (suc l) zero h = absurd (cc)
pair-top (suc l) (suc zero) h = absurd (cc)
pair-top (suc l) (suc (suc a)) h = absurd (cc)

pair-WellFormed : WellFormed thousandths pair
unfolding links_at
pair-WellFormed = record {
  sized = omega arith;
  neat = pair-Neat;
  top = pair-top;
  entered = refl;
  wide = omega arith;
  search_wide = omega arith;
}

search_knn-Answered_example :
    Answered thousandths pair
      (4 ∷ 3 ∷ [])
      (pos 1)
      (search_knn thousandths pair (4 ∷ 3 ∷ []) (pos 1))
search_knn-Answered_example =
    search_knn-Answered thousandths pair (4 ∷ 3 ∷ []) (pos 1) ltb-Order pair-WellFormed
      (omega arith)

-- The second node has the query's direction.
search_knn_test :
    search_knn thousandths pair (4 ∷ 3 ∷ []) (pos 1) ≡ some (record { id = 1; score = 1000 } ∷ [])
unfolding search_knn search_from descend search_layer expand visit drain push pop up down swap
    links_of distance cosine_similarity vector_at sums score_hits
search_knn_test = refl

abbrev two_documents : VectorIndex thousandths embedder
two_documents = record { hnsw = pair; docs = (0, ref_at 7) ∷ (1, ref_at 9) ∷ []; is_ready = true }

two_documents-Holds : Holds thousandths embedder (ref_at 7 ∷ ref_at 9 ∷ []) two_documents
unfolding tfidf train lookup new_tfidf_embedder
two_documents-Holds = record {
  graph = pair-WellFormed;
  dimension = refl;
  size = refl;
  docs = docs;
  ready = λ h. refl;
}
  where
    docs : (n : ℕ) → lookup n two_documents.docs ≡ get_elem? (ref_at 7 ∷ ref_at 9 ∷ []) n
    docs zero = refl
    docs (suc zero) = refl
    docs (suc (suc n)) = ground arith

search-Reply_example :
    Returns
      (Reply thousandths embedder (ref_at 7 ∷ ref_at 9 ∷ []) (bytes "tor") 1)
      (search thousandths embedder two_documents (bytes "tor") (pos 1))
search-Reply_example =
    search-Reply thousandths embedder (ref_at 7 ∷ ref_at 9 ∷ []) two_documents (bytes "tor") 1
      ltb-Order two_documents-Holds

select_neighbors_for_node-Chosen_example :
    Returns
      (Chosen ltb (distance thousandths 2 pair.vectors (3 ∷ 4 ∷ [])) (1 ∷ 0 ∷ []) 1)
      (select_neighbors_for_node thousandths 2 pair.vectors 0 (1 ∷ 0 ∷ []) 1)
unfolding vector_at distance cosine_similarity sums
select_neighbors_for_node-Chosen_example =
    select_neighbors_for_node-Chosen thousandths 2 pair.vectors 0 (3 ∷ 4 ∷ []) (1 ∷ 0 ∷ []) 1
      ltb-Total refl (tt, (tt, tt))
