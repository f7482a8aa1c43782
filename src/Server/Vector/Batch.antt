-- ===== src/Server/Vector/Batch.antt =====
-- internal/server/handlers_vector.go: how VMSET reads its entries.
use hybrid_vector_cache_hnsw.Common.{
  ℕ, zero, suc, ◌+◌, ◌%◌, Bool, ◌&&◌, List, [], ◌∷◌, ◌++◌, if◌then◌else◌, length, take, drop, ◌==◌,
  ltb, leb,
}
use hybrid_vector_cache_hnsw.Common.Bytes.{Bytes, bytes, same}
use hybrid_vector_cache_hnsw.Protocol.Parse.{to_upper}
use hybrid_vector_cache_hnsw.Protocol.Response.{decimal}
use hybrid_vector_cache_hnsw.Store.Vector.{BatchEntry}
use hybrid_vector_cache_hnsw.Server.Kv.{positive_seconds}
use hybrid_vector_cache_hnsw.Server.Words.{
  Numerals, Checked, accepted, refused, ◌>>=◌, or_refuse, require, read_pairs,
}

pub record VmsetRequest : Type 0 where
  pub namespace : Bytes
  pub dim : ℕ
  pub entries : List BatchEntry

module _ (num : Numerals) where
  -- The floats of an entry, from a position on.
  unfoldable pub entry_floats : Bytes → ℕ → List Bytes → Checked (List ℕ)
  entry_floats id j [] = accepted []
  entry_floats id j (x ∷ xs) = do
    f ← or_refuse (num.parse32 x) (
        bytes "entry '"
        ++ (id ++ (bytes "': invalid float at position " ++ (decimal j ++ (bytes ": " ++ x)))))
    fs ← entry_floats id (j + 1) xs
    accepted (f ∷ fs)

  -- The words of META behind an entry, and what is left. While more entries are to come, a pair whose
  -- second word is a float ends it, if the words behind its first could be the floats of an entry.
  unfoldable pub meta_pairs : Bool → ℕ → List Bytes → List Bytes × List Bytes
  meta_pairs more dim [] = ([], [])
  meta_pairs more dim (k ∷ []) = ([], k ∷ [])
  meta_pairs more dim (k ∷ v ∷ rest) =
      let (pairs, left) = meta_pairs more dim rest in
      if more && leb (1 + dim) (length (k ∷ v ∷ rest)) && num.accepts64 v
      then ([], k ∷ v ∷ rest)
      else (k ∷ v ∷ pairs, left)

  abbrev pub entry_meta : Bool → ℕ → List Bytes → List Bytes × List Bytes
  entry_meta more dim [] = ([], [])
  entry_meta more dim (x ∷ xs) =
      if same (to_upper x) (bytes "META") then meta_pairs more dim xs else ([], x ∷ xs)

  -- The entry of an id and the words behind it, and the words that are left.
  unfoldable pub read_entry : Bool → ℕ → Bytes → List Bytes → Checked (BatchEntry × List Bytes)
  read_entry more dim id words = do
    _ ← require (leb dim (length words)) (
        bytes "entry '"
        ++ (id ++ (bytes "': not enough floats (need " ++ (decimal dim ++ bytes ")"))))
    vec ← entry_floats id 0 (take dim words)
    let (pairs, left) = entry_meta more dim (drop dim words)
    _ ←
        require (length pairs % 2 == 0)
          (bytes "entry '" ++ (id ++ bytes "': META requires even number of arguments"))
    accepted (record { id = id; vector = vec; metadata = read_pairs pairs [] }, left)

  -- The loop over the entries: `expected` are to come.
  unfoldable pub read_entries : ℕ → ℕ → List Bytes → Checked (List BatchEntry)
  read_entries zero dim words = accepted []
  read_entries (suc expected) dim [] = accepted []
  read_entries (suc expected) dim (id ∷ words) = do
    (entry, left) ← read_entry (ltb 0 expected) dim id words
    entries ← read_entries expected dim left
    accepted (entry ∷ entries)

  -- The dimension and the count are such that i+dim does not wrap around and make accepts the count.
  unfoldable pub read_vmset : List Bytes → Checked VmsetRequest
  read_vmset (namespace ∷ d ∷ n ∷ x ∷ xs) = do
    dim ← or_refuse (positive_seconds d) (bytes "invalid dimension")
    expected ← or_refuse (positive_seconds n) (bytes "invalid count")
    entries ← read_entries expected dim (x ∷ xs)
    _ ← require (length entries == expected) (
        bytes "expected "
        ++ (decimal expected ++ (bytes " entries, got " ++ decimal (length entries))))
    accepted (record { namespace = namespace; dim = dim; entries = entries })
  read_vmset args = refused (bytes "wrong number of arguments for 'VMSET' command")
