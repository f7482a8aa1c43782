-- ===== src/Server/Vector/Decoded.antt =====
-- The client reads the results of VSIMILARITY back.
use hybrid_vector_cache_hnsw.Common.{
  ℕ, ◌≡◌, refl, sym, ap, ◌∙◌, List, [], ◌∷◌, ◌++◌, map, append-nil, append_assoc,
}
use hybrid_vector_cache_hnsw.Common.Bytes.{Bytes}
use hybrid_vector_cache_hnsw.Common.Dict.{Dict, insert, IsDistinct}
use hybrid_vector_cache_hnsw.Heap.Items.{All}
use hybrid_vector_cache_hnsw.Protocol.Response.{serialize}
use hybrid_vector_cache_hnsw.Similarity.{Result}
use hybrid_vector_cache_hnsw.Client.{got, read_response}
use hybrid_vector_cache_hnsw.Client.Answers.{items_of, metadata_answer, similarity_answer}
use hybrid_vector_cache_hnsw.Client.RoundTrip.{value_of, values_of, IsSent, read_response-serialize}
use hybrid_vector_cache_hnsw.Server.Words.{Numerals}
use hybrid_vector_cache_hnsw.Server.Words.Printed.{AreNew, AreNew-insert, insert-new, every_new}
use hybrid_vector_cache_hnsw.Server.Vector.Similar.{meta_items, result_items}
use hybrid_vector_cache_hnsw.Server.Vector.Query.{reply}

metadata_answer-items :
    (m more : Dict Bytes)
    → IsDistinct more
    → AreNew m more
    → metadata_answer (values_of (meta_items more)) m ≡ m ++ more
unfolding metadata_answer meta_items
metadata_answer-items m [] d a = sym (append-nil m)
metadata_answer-items m ((k, v) ∷ more) d a =
    metadata_answer-items (insert k v m) more d.1 (AreNew-insert k v m more d.0 a.1)
    ∙ ap (λ n. n ++ more) (insert-new k v m a.0)
    ∙ append_assoc m ((k, v) ∷ []) more

-- A result as it is told: with the score that the text of its score parses to.
abbrev pub told : (Bytes → ℕ) → Numerals → Result → Result
told parse num r = record r { score = parse (num.print4 r.score) }

similarity_answer-items :
    (parse : Bytes → ℕ) (num : Numerals) (rs : List Result)
    → All (λ (r : Result). IsDistinct r.metadata) rs
    → similarity_answer parse (values_of (result_items num.print4 rs)) ≡ map (told parse num) rs
unfolding similarity_answer result_items
similarity_answer-items parse num [] d = refl
similarity_answer-items parse num (r ∷ rs) d =
    rw
      (
        metadata_answer-items [] r.metadata d.0 (every_new r.metadata),
        similarity_answer-items parse num rs d.1,
      )
      refl

-- The client reads the answer of VSIMILARITY as a value, from which VSimilarity makes the results that
-- the server sent, in their order, with their metadata, and with the scores cut to four decimals. The
-- texts have no line ends, and no key of the metadata stands twice.
pub similarity_reply_decodes :
    (parse : Bytes → ℕ) (num : Numerals) (rs : List Result) (rest : Bytes)
    → IsSent (reply num rs)
    → All (λ (r : Result). IsDistinct r.metadata) rs
    → (read_response (serialize (reply num rs) ++ rest) ≡ got (value_of (reply num rs)) rest)
      × (similarity_answer parse (items_of (value_of (reply num rs))) ≡ map (told parse num) rs)
similarity_reply_decodes parse num rs rest sent distinct = (
  read_response-serialize (reply num rs) rest sent,
  similarity_answer-items parse num rs distinct,
)
