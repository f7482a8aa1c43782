-- ===== src/Store/Tests.antt =====
-- The theorems on the store at concrete stores, and runs of its operations.
use hybrid_vector_cache_hnsw.Common.{
  ◌≡◌, ◌≢◌, refl, true, false, not, ◌&&◌, none, some, [], ◌∷◌, arith, if◌then◌else◌, length,
}
use hybrid_vector_cache_hnsw.Common.Int.{ℤ, pos, ◌+ℤ◌, ◌-ℤ◌, ltb_ℤ}
use hybrid_vector_cache_hnsw.Common.Bytes.{Bytes, bytes, same}
use hybrid_vector_cache_hnsw.Common.Dict.{lookup}
use hybrid_vector_cache_hnsw.Common.Dict.Sweep.{keep_if, count_if}
use hybrid_vector_cache_hnsw.Store.{KvEntry, VectorEntry, VectorNamespace, Store, vector_expired}
use hybrid_vector_cache_hnsw.Store.Kv.{get_upgrade, set, ttl}
use hybrid_vector_cache_hnsw.Store.Kv.View.{view, view-get_upgrade}
use hybrid_vector_cache_hnsw.Store.Kv.Updates.{view-set, ttl_live}
use hybrid_vector_cache_hnsw.Store.Vector.{
  BatchEntry, vset_with_ttl, vmset, vget, vexpire_namespace,
}
use hybrid_vector_cache_hnsw.Store.Vector.View.{vector_view, find_entry, vget-eq-vector_view}
use hybrid_vector_cache_hnsw.Store.Vector.Insert.{
  deadline, entry_until, or_new, vector_view-vset_with_ttl, vset_all, vmset-eq-vset_all,
}
use hybrid_vector_cache_hnsw.Store.Vector.Expire.{vector_view-vexpire_namespace}
use hybrid_vector_cache_hnsw.Store.Sweep.{sweep_expired_vectors, sweep_expired}
use hybrid_vector_cache_hnsw.Store.Sweep.View.{
  IsWellFormed, view-sweep_expired, vector_view-sweep_expired_vectors,
  sweep_expired_vectors_reclaims,
}

abbrev a : Bytes
a = bytes "a"

abbrev b : Bytes
b = bytes "b"

abbrev docs : Bytes
docs = bytes "docs"

abbrev second : ℤ
second = pos 1000000000

-- "a" ends at 5 seconds, "b" never; one vector of "docs" ends at 5 seconds, one never, and "old"
-- has only a vector that ends at 5 seconds.
abbrev key_a : KvEntry
key_a = record { value = bytes "x"; expires_at = pos 5000000000; has_ttl = true }

abbrev key_b : KvEntry
key_b = record { value = bytes "y"; expires_at = pos 0; has_ttl = false }

abbrev vector_a : VectorEntry
vector_a = record {
  id = a;
  vector = 1 ∷ 2 ∷ [];
  metadata = [];
  expires_at = pos 5000000000;
  has_ttl = true;
}

abbrev vector_b : VectorEntry
vector_b = record {
  id = b;
  vector = 3 ∷ 4 ∷ [];
  metadata = [];
  expires_at = pos 0;
  has_ttl = false;
}

abbrev docs_namespace : VectorNamespace
docs_namespace = record {
  entries = (a, vector_a) ∷ (b, vector_b) ∷ [];
  default_ttl = pos 0;
  has_default_ttl = false;
  ttl_set_at = pos 0;
}

abbrev old_namespace : VectorNamespace
old_namespace = record docs_namespace { entries = (a, vector_a) ∷ [] }

abbrev sample : Store
sample = record {
  kv = (a, key_a) ∷ (b, key_b) ∷ [];
  vectors = (docs, docs_namespace) ∷ (bytes "old", old_namespace) ∷ [];
}

sample-IsWellFormed : IsWellFormed sample
unfolding lookup same
sample-IsWellFormed = record {
  kv_distinct = (refl, (refl, tt));
  names_distinct = (refl, (refl, tt));
  ids_distinct = ((refl, (refl, tt)), ((refl, tt), tt));
}

abbrev batch : BatchEntry
batch = record { id = b; vector = 7 ∷ 8 ∷ []; metadata = [] }

abbrev late : ℤ
late = pos 6000000000

-- SweepExpired takes the two expired vectors, the expired key and the empty namespace.
sweep_run : sweep_expired late late sample ≡ (
  3,
  record {
    kv = (b, key_b) ∷ [];
    vectors = (docs, record docs_namespace { entries = (b, vector_b) ∷ [] }) ∷ [];
  },
)
unfolding sweep_expired same
sweep_run = refl

view-get_upgrade_example : view late (get_upgrade a late sample) b ≡ view late sample b
view-get_upgrade_example = view-get_upgrade a b late late sample (omega arith)

view-set_example : view late (set a (bytes "z") sample) a ≡ (
    if same a a
    then some (record { value = bytes "z"; expires_at = pos 0; has_ttl = false })
    else view late sample a)
view-set_example = view-set a (bytes "z") a late sample

ttl_live_example : view (pos 4000000000) sample a ≡ view second sample a
unfolding ttl lookup same ◌+ℤ◌ ◌-ℤ◌
ttl_live_example =
    ttl_live a second second (pos 4000000000) 4 sample refl (omega arith) (omega arith)

vget-eq-vector_view_example : (vget docs a late late sample).0 ≡ vector_view late sample docs a
vget-eq-vector_view_example = vget-eq-vector_view docs a late late sample

vector_view-vset_with_ttl_example :
    ((vset_with_ttl docs 2 batch second second sample).0 ≡ none)
    × (vector_view late (vset_with_ttl docs 2 batch second second sample).1 docs a ≡ (
        if same docs docs && same b a
        then keep_if
            (λ e. not (vector_expired late e))
            (some
              (entry_until batch (deadline second second (or_new (lookup docs sample.vectors)))))
        else vector_view late sample docs a))
vector_view-vset_with_ttl_example =
    vector_view-vset_with_ttl docs docs a 2 batch second second late sample refl

vmset-eq-vset_all_example :
    vmset (bytes "new") 2 (batch ∷ batch ∷ []) (λ n. second) sample
    ≡ (2, none, vset_all (bytes "new") 2 (batch ∷ batch ∷ []) (λ n. second) 0 sample)
vmset-eq-vset_all_example =
    vmset-eq-vset_all (bytes "new") 2 batch (batch ∷ []) (λ n. second) sample (refl, (refl, tt))

vector_view-vexpire_namespace_example :
    vector_view late (vexpire_namespace docs second second second sample).1 docs b ≡ (
      if same docs docs
      then elim (find_entry (lookup docs sample.vectors) b) [
        | none ↦ none
        | some e ↦
            if e.has_ttl
            then keep_if (λ e. not (vector_expired late e)) (some e)
            else if ltb_ℤ (second +ℤ second) late
            then none
            else some (record e { expires_at = second +ℤ second; has_ttl = true })
      ]
      else vector_view late sample docs b)
vector_view-vexpire_namespace_example =
    vector_view-vexpire_namespace docs docs b second second second late sample

view-sweep_expired_example : view late (sweep_expired late late sample).1 b ≡ view late sample b
view-sweep_expired_example =
    view-sweep_expired late late late sample b sample-IsWellFormed (omega arith)

vector_view-sweep_expired_vectors_example :
    vector_view late (sweep_expired_vectors late sample).1 docs b ≡ vector_view late sample docs b
vector_view-sweep_expired_vectors_example =
    vector_view-sweep_expired_vectors late late sample docs b sample-IsWellFormed (omega arith)

abbrev docs_left : VectorNamespace
docs_left = record docs_namespace { entries = (b, vector_b) ∷ [] }

sweep_expired_vectors_reclaims_example :
    (count_if (vector_expired late) docs_left.entries ≡ 0) × (length docs_left.entries ≢ 0)
unfolding sweep_expired_vectors lookup same
sweep_expired_vectors_reclaims_example =
    sweep_expired_vectors_reclaims late sample docs docs_left sample-IsWellFormed refl
