-- ===== src/Server/VectorIndex/Params.antt =====
-- VINDEX CREATE reads the parameters that the client sends.
use hybrid_vector_cache_hnsw.Common.{ℕ, zero, suc, ◌^◌, ◌<◌, ◌≡◌, refl, ◌∙◌, List, ◌++◌, arith}
use hybrid_vector_cache_hnsw.Common.Bytes.{Bytes, bytes, same}
use hybrid_vector_cache_hnsw.Protocol.Parse.{to_upper}
use hybrid_vector_cache_hnsw.Client.Commands.{VindexCreateArgs, param_words, vindex_create_words}
use hybrid_vector_cache_hnsw.Server.Words.{accepted}
use hybrid_vector_cache_hnsw.Server.Vector.Request.{positive-decimal}
use hybrid_vector_cache_hnsw.Server.VectorIndex.{
  IndexParams, default_params, set_param, read_params,
}

-- A number that is sent, or the default in the place of 0.
abbrev or_standard : ℕ → ℕ → ℕ
or_standard zero standard = standard
or_standard (suc n) standard = suc n

read_params-m :
    (n : ℕ) (rest : List Bytes) (p : IndexParams)
    → n < 2 ^ 63
    → read_params (param_words (bytes "M") n ++ rest) p
      ≡ read_params rest (record p { m = or_standard n p.m })
unfolding read_params set_param to_upper same
read_params-m zero rest p h = refl
read_params-m (suc n) rest p h = rw (positive-decimal (suc n) (omega arith) h) refl

read_params-ef_construction :
    (n : ℕ) (rest : List Bytes) (p : IndexParams)
    → n < 2 ^ 63
    → read_params (param_words (bytes "EF_CONSTRUCTION") n ++ rest) p
      ≡ read_params rest (record p { ef_construction = or_standard n p.ef_construction })
unfolding read_params set_param to_upper same
read_params-ef_construction zero rest p h = refl
read_params-ef_construction (suc n) rest p h = rw (positive-decimal (suc n) (omega arith) h) refl

read_params-ef_search :
    (n : ℕ) (p : IndexParams)
    → n < 2 ^ 63
    → read_params (param_words (bytes "EF_SEARCH") n) p
      ≡ accepted (record p { ef_search = or_standard n p.ef_search })
unfolding read_params set_param to_upper same
read_params-ef_search zero p h = refl
read_params-ef_search (suc n) p h = rw (positive-decimal (suc n) (omega arith) h) refl

-- VINDEX CREATE reads the parameters that the client's VIndexCreate sends as they were meant, with its
-- own default for each that is 0. Each is an int.
read_params-vindex_create_words :
    (a : VindexCreateArgs)
    → a.m < 2 ^ 63
    → a.ef_construction < 2 ^ 63
    → a.ef_search < 2 ^ 63
    → read_params (vindex_create_words a) default_params
      ≡ accepted (record {
        m = or_standard a.m 16;
        ef_construction = or_standard a.ef_construction 200;
        ef_search = or_standard a.ef_search 100;
      })
unfolding vindex_create_words
read_params-vindex_create_words a m efc efs =
    read_params-m a.m
      (param_words (bytes "EF_CONSTRUCTION") a.ef_construction
        ++ param_words (bytes "EF_SEARCH") a.ef_search)
      default_params m
    ∙ read_params-ef_construction a.ef_construction (param_words (bytes "EF_SEARCH") a.ef_search)
        (record default_params { m = or_standard a.m 16 }) efc
    ∙ read_params-ef_search a.ef_search
        (record default_params {
          m = or_standard a.m 16;
          ef_construction = or_standard a.ef_construction 200;
        })
        efs
