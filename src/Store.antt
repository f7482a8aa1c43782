-- ===== src/Store.antt =====
-- internal/store: the data types of the in-memory store, shared by its two halves.
-- A `time.Time` and a `time.Duration` are nanoseconds in ℤ; a call of `time.Now()` is an argument.
-- A float32 is its IEEE bit pattern, a number. The mutexes make each locked region one step.
pub mod Kv
pub mod Vector
pub mod Listing
pub mod Sweep
mod Tests
use hybrid_vector_cache_hnsw.Common.{ℕ, Bool, false, ◌&&◌, List, []}
use hybrid_vector_cache_hnsw.Common.Int.{ℤ, pos, ltb_ℤ}
use hybrid_vector_cache_hnsw.Common.Bytes.{Bytes}
use hybrid_vector_cache_hnsw.Common.Dict.{Dict}

pub record KvEntry : Type 0 where
  pub value : Bytes
  pub expires_at : ℤ
  pub has_ttl : Bool

pub record VectorEntry : Type 0 where
  pub id : Bytes
  pub vector : List ℕ
  pub metadata : Dict Bytes
  pub expires_at : ℤ
  pub has_ttl : Bool

pub record VectorNamespace : Type 0 where
  pub entries : Dict VectorEntry
  pub default_ttl : ℤ
  pub has_default_ttl : Bool
  pub ttl_set_at : ℤ

pub record Store : Type 0 where
  pub kv : Dict KvEntry
  pub vectors : Dict VectorNamespace

-- New
abbrev pub empty : Store
empty = record { kv = []; vectors = [] }

-- newVectorNamespace
abbrev pub new_namespace : VectorNamespace
new_namespace = record {
  entries = [];
  default_ttl = pos 0;
  has_default_ttl = false;
  ttl_set_at = pos 0;
}

-- `HasTTL && time.Now().After(ExpiresAt)`, of both kinds of entry
abbrev pub past : Bool → ℤ → ℤ → Bool
past has_ttl expires_at now = has_ttl && ltb_ℤ expires_at now

abbrev pub kv_expired : ℤ → KvEntry → Bool
kv_expired now e = past e.has_ttl e.expires_at now

abbrev pub vector_expired : ℤ → VectorEntry → Bool
vector_expired now e = past e.has_ttl e.expires_at now
