-- ===== src/Client/Commands.antt =====
-- pkg/client/client.go: the words of the commands that the methods send. `print` is the text "%f" of
-- a float32.
use hybrid_vector_cache_hnsw.Common.{
  zero, suc, ◌+◌, ◌/◌, if◌then◌else◌, ℕ, List, [], ◌∷◌, ◌++◌, map, length,
}
use hybrid_vector_cache_hnsw.Common.Bytes.{Bytes, bytes}
use hybrid_vector_cache_hnsw.Common.Dict.{Dict}
use hybrid_vector_cache_hnsw.Common.Int.{ℤ, pos, negsuc, ltb_ℤ}
use hybrid_vector_cache_hnsw.Protocol.Response.{decimal, itoa}

-- VSetArgs
pub record VsetArgs : Type 0 where
  pub namespace : Bytes
  pub id : Bytes
  pub vector : List ℕ
  pub metadata : Dict Bytes

-- The keys and the values of a map, in a row.
unfoldable pub flatten : Dict Bytes → List Bytes
flatten [] = []
flatten ((k, v) ∷ m) = k ∷ v ∷ flatten m

unfoldable pub meta_words : Dict Bytes → List Bytes
meta_words [] = []
meta_words ((k, v) ∷ m) = bytes "META" ∷ flatten ((k, v) ∷ m)

-- The words of VSet behind the name of the command.
unfoldable pub vset_words : (ℕ → Bytes) → VsetArgs → List Bytes
vset_words print a =
    a.namespace ∷ a.id ∷ decimal (length a.vector) ∷ (map print a.vector ++ meta_words a.metadata)

abbrev negated : ℕ → ℤ
negated zero = pos 0
negated (suc n) = negsuc n

-- int(d.Seconds()), which cuts towards 0; the rounding of the float64 is left out.
unfoldable pub seconds_of : ℤ → ℤ
seconds_of (pos n) = pos (n / 1000000000)
seconds_of (negsuc n) = negated ((n + 1) / 1000000000)

-- The texts that the methods hand to RawExec, word by word; a method joins them with a space.
-- Set
unfoldable pub set_words : Bytes → Bytes → ℤ → List Bytes
set_words key value ttl =
    bytes "SET"
    ∷ key
    ∷ value
    ∷ (if ltb_ℤ (pos 0) ttl then bytes "EX" ∷ itoa (seconds_of ttl) ∷ [] else [])

-- Get
abbrev pub get_key_words : Bytes → List Bytes
get_key_words key = bytes "GET" ∷ key ∷ []

-- Del
abbrev pub del_words : List Bytes → List Bytes
del_words keys = bytes "DEL" ∷ keys

-- Expire
unfoldable pub expire_words : Bytes → ℤ → List Bytes
expire_words key ttl = bytes "EXPIRE" ∷ key ∷ itoa (seconds_of ttl) ∷ []

-- TTL
abbrev pub ttl_words : Bytes → List Bytes
ttl_words key = bytes "TTL" ∷ key ∷ []

-- VGet
abbrev pub vget_words : Bytes → Bytes → List Bytes
vget_words namespace id = bytes "VGET" ∷ namespace ∷ id ∷ []

-- VDel
abbrev pub vdel_words : Bytes → Bytes → List Bytes
vdel_words namespace id = bytes "VDEL" ∷ namespace ∷ id ∷ []

-- VCount
abbrev pub vcount_words : Bytes → List Bytes
vcount_words namespace = bytes "VCOUNT" ∷ namespace ∷ []

-- VSimilarityArgs
pub record VsimilarityArgs : Type 0 where
  pub namespace : Bytes
  pub vector : List ℕ
  pub top_k : ℕ

-- The words of VSimilarity behind the name of the command; TopK is not negative.
unfoldable pub vsimilarity_words : (ℕ → Bytes) → VsimilarityArgs → List Bytes
vsimilarity_words print a =
    a.namespace
    ∷ decimal (length a.vector)
    ∷ (map print a.vector ++ bytes "TOP" ∷ decimal a.top_k ∷ [])

-- VIndexCreateArgs, with its numbers not negative
pub record VindexCreateArgs : Type 0 where
  pub namespace : Bytes
  pub m : ℕ
  pub ef_construction : ℕ
  pub ef_search : ℕ

-- A parameter of VIndexCreate, if it is positive.
abbrev pub param_words : Bytes → ℕ → List Bytes
param_words name zero = []
param_words name (suc n) = name ∷ decimal (suc n) ∷ []

-- The parameters of VIndexCreate, behind VINDEX CREATE and the namespace.
unfoldable pub vindex_create_words : VindexCreateArgs → List Bytes
vindex_create_words a =
    param_words (bytes "M") a.m
    ++ (param_words (bytes "EF_CONSTRUCTION") a.ef_construction
        ++ param_words (bytes "EF_SEARCH") a.ef_search)

-- VIndexDrop
abbrev pub vindex_drop_words : Bytes → List Bytes
vindex_drop_words namespace = bytes "VINDEX" ∷ bytes "DROP" ∷ namespace ∷ []

-- VIndexInfo
abbrev pub vindex_info_words : Bytes → List Bytes
vindex_info_words namespace = bytes "VINDEX" ∷ bytes "INFO" ∷ namespace ∷ []

-- VIndexSetEf
unfoldable pub vindex_set_ef_words : Bytes → ℤ → List Bytes
vindex_set_ef_words namespace ef = bytes "VINDEX" ∷ bytes "SET_EF" ∷ namespace ∷ itoa ef ∷ []

-- Info and Ping
abbrev pub info_words : List Bytes
info_words = bytes "INFO" ∷ []

abbrev pub ping_words : List Bytes
ping_words = bytes "PING" ∷ []
