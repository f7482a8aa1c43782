-- ===== src/Server/Vector/Write.antt =====
-- internal/server/handlers_vector.go: VSET and VMSET, on the store and on the index of the namespace.
-- A panic of the index is one of the handler. `draw` is what randomLevel draws, entry by entry.
use hybrid_vector_cache_hnsw.Common.{ℕ, ◌+◌, Option, none, some, List, [], ◌∷◌}
use hybrid_vector_cache_hnsw.Common.Int.{ℤ, pos}
use hybrid_vector_cache_hnsw.Common.Bytes.{Bytes}
use hybrid_vector_cache_hnsw.Common.Dict.{Dict, lookup, insert}
use hybrid_vector_cache_hnsw.Common.Run.{Run, ok, ◌>>=◌}
use hybrid_vector_cache_hnsw.Protocol.Response.{Response, error, integer, ok_response}
use hybrid_vector_cache_hnsw.Similarity.{Float}
use hybrid_vector_cache_hnsw.Store.{Store}
use hybrid_vector_cache_hnsw.Store.Vector.{BatchEntry, VectorError, vset_with_ttl, vmset}
use hybrid_vector_cache_hnsw.Hnsw.{Index}
use hybrid_vector_cache_hnsw.Hnsw.Insert.{insert_vector}
use hybrid_vector_cache_hnsw.Server.Words.{Numerals, Checked, accepted, refused}
use hybrid_vector_cache_hnsw.Server.Vector.Set.{VsetRequest, read_vset, error_text}
use hybrid_vector_cache_hnsw.Server.Vector.Batch.{VmsetRequest, read_vmset}

module _ (f : Float) (draw : ℕ → ℕ) where
  -- The loop of idx.Insert over entries; the n-th draw is the first.
  unfoldable pub insert_all : ℕ → List BatchEntry → Index → Run Index
  insert_all n [] idx = ok idx
  insert_all n (b ∷ bs) idx =
      insert_vector f b.id b.vector b.metadata (draw n) idx >>= insert_all (n + 1) bs

  -- The inserts into the index of the namespace, if it has one.
  unfoldable pub insert_into : Bytes → List BatchEntry → Dict Index → Run (Dict Index)
  insert_into namespace bs indexes = elim (lookup namespace indexes) [
    | none ↦ ok indexes
    | some idx ↦ do idx' ← insert_all 0 bs idx; ok (insert namespace idx' indexes)
  ]

  -- VSET and VMSET behind the store: an error of the store, or the inserts.
  abbrev pub answered :
      Option VectorError
      → Response
      → Bytes
      → List BatchEntry
      → Store
      → Dict Index
      → Run (Response × Store × Dict Index)
  answered (some e) r namespace bs s indexes = ok (error (error_text e), s, indexes)
  answered none r namespace bs s indexes = do
    indexes' ← insert_into namespace bs indexes
    ok (r, s, indexes')

  unfoldable pub run_vset :
      Checked VsetRequest → ℤ → Store × Dict Index → Run (Response × Store × Dict Index)
  run_vset (refused m) now (s, indexes) = ok (error m, s, indexes)
  run_vset (accepted q) now (s, indexes) =
      let (failed, s') = vset_with_ttl q.namespace q.dim q.entry q.ttl now s in
      answered failed ok_response q.namespace (q.entry ∷ []) s' indexes

  -- handleVSet
  unfoldable pub handle_vset :
      Numerals → List Bytes → ℤ → Store × Dict Index → Run (Response × Store × Dict Index)
  handle_vset num args = run_vset (read_vset num.parse32 args)

  unfoldable pub run_vmset :
      Checked VmsetRequest → (ℕ → ℤ) → Store × Dict Index → Run (Response × Store × Dict Index)
  run_vmset (refused m) clock (s, indexes) = ok (error m, s, indexes)
  run_vmset (accepted q) clock (s, indexes) =
      let (count, failed, s') = vmset q.namespace q.dim q.entries clock s in
      answered failed (integer (pos count)) q.namespace q.entries s' indexes

  -- handleVMSet
  unfoldable pub handle_vmset :
      Numerals → List Bytes → (ℕ → ℤ) → Store × Dict Index → Run (Response × Store × Dict Index)
  handle_vmset num args = run_vmset (read_vmset num args)
