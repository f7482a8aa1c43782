-- ===== src/Similarity/Tests.antt =====
-- TopK at concrete entries, with an arithmetic on small numbers in place of that of float32.
use hybrid_vector_cache_hnsw.Common.{
  ℕ, ◌+◌, ◌-◌, ◌*◌, ◌/◌, ◌≡◌, refl, ◌∙◌, false, List, [], ◌∷◌, arith, length, backwards,
}
use hybrid_vector_cache_hnsw.Common.Int.{pos, pos_part}
use hybrid_vector_cache_hnsw.Common.Bytes.{Bytes, bytes}
use hybrid_vector_cache_hnsw.Store.{VectorEntry}
use hybrid_vector_cache_hnsw.Similarity.{Float, Result, scored, top_of, top_k, smaller, is_nan}
use hybrid_vector_cache_hnsw.Heap.{drain, push, fix_root}
use hybrid_vector_cache_hnsw.Heap.Tally.{tally-backwards}
use hybrid_vector_cache_hnsw.Similarity.Best.{IsBest, top_k-IsBest}

abbrev numbers : Float
numbers = record {
  add = λ x y. x + y;
  sub = λ x y. x - y;
  mul = λ x y. x * y;
  div = λ x y. 100 * x / y;
  root = λ x. x;
}

abbrev entry : Bytes → List ℕ → VectorEntry
entry id v = record { id = id; vector = v; metadata = []; expires_at = pos 0; has_ttl = false }

abbrev entries : List VectorEntry
entries =
    entry (bytes "a") (1 ∷ 2 ∷ [])
    ∷ entry (bytes "b") (0 ∷ 0 ∷ [])
    ∷ entry (bytes "c") (3 ∷ 1 ∷ [])
    ∷ entry (bytes "d") (1 ∷ 1 ∷ [])
    ∷ entry (bytes "e") (1 ∷ [])
    ∷ []

abbrev query : List ℕ
query = 1 ∷ 1 ∷ []

abbrev ids : List Result → List Bytes
ids [] = []
ids (r ∷ rs) = r.id ∷ ids rs

best_two : ids (top_k numbers (λ rs. rs) 1 query entries (pos 2)) ≡ bytes "d" ∷ bytes "a" ∷ []
unfolding top_k top_of drain scored push fix_root
best_two = refl

top_k-IsBest_example :
    (length (top_k numbers (λ rs. backwards rs []) 4 query entries (pos 2))
      ≡ smaller (pos_part (pos 2)) (length (scored numbers query entries)))
    × IsBest
        (scored numbers query entries)
        (top_k numbers (λ rs. backwards rs []) 4 query entries (pos 2))
unfolding scored is_nan
top_k-IsBest_example =
    top_k-IsBest numbers (λ rs. backwards rs []) 4 query entries (pos 2)
      (λ rs p. tally-backwards p rs [] ∙ omega arith) (refl, (refl, (refl, tt)))
