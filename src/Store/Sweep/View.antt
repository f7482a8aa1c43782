-- ===== src/Store/Sweep/View.antt =====
-- The sweep takes away what has expired and nothing that a client can see.
use hybrid_vector_cache_hnsw.Common.{
  ℕ, ◌+◌, ◌≡◌, ◌≢◌, refl, sym, Bool, false, not, Option, none, some, List, [], ◌∷◌, arith, ◌∙◌,
  if◌then◌else◌, length, inl, inr, ◌==◌, Bool-cases,
}
use hybrid_vector_cache_hnsw.Common.Int.{ℤ, ◌≤ℤ◌}
use hybrid_vector_cache_hnsw.Common.Bytes.{Bytes, same, same_iff, contains}
use hybrid_vector_cache_hnsw.Common.Dict.{Dict, lookup, remove, IsDistinct, lookup-remove}
use hybrid_vector_cache_hnsw.Common.Dict.Sweep.{
  sweep, count_if, keep_if, map_option, lookup-sweep, count_if-add-length-sweep, count_if-sweep,
}
use hybrid_vector_cache_hnsw.Store.{Store, VectorEntry, VectorNamespace, vector_expired, kv_expired}
use hybrid_vector_cache_hnsw.Store.Sweep.{
  sweep_namespaces, remove_all, sweep_expired_vectors, sweep_expired,
}
use hybrid_vector_cache_hnsw.Store.Kv.View.{view}
use hybrid_vector_cache_hnsw.Store.Vector.View.{vector_view, find_entry}

-- Every map of the store has each key once.
abbrev pub AllDistinct : Dict VectorNamespace → Type 0
AllDistinct [] = Unit {0}
AllDistinct ((_, ns) ∷ m) = IsDistinct ns.entries × AllDistinct m

pub record IsWellFormed (s : Store) : Type 0 where
  pub kv_distinct : IsDistinct s.kv
  pub names_distinct : IsDistinct s.vectors
  pub ids_distinct : AllDistinct s.vectors

lookup-remove_all :
    (names : List Bytes) (m : Dict VectorNamespace) (j : Bytes)
    → lookup j (remove_all names m) ≡ (if contains names j then none else lookup j m)
unfolding remove_all
lookup-remove_all [] m j = refl
lookup-remove_all (k ∷ ks) m j =
    ground (arith, lookup-remove_all ks (remove k m) j, lookup-remove k j m)

-- A namespace without its expired entries.
abbrev pub swept : ℤ → VectorNamespace → VectorNamespace
swept now ns = record ns { entries = sweep (vector_expired now) ns.entries }

abbrev is_empty : ℤ → Option VectorNamespace → Bool
is_empty now none = false
is_empty now (some ns) = length (swept now ns).entries == 0

pub lookup-sweep_namespaces :
    (now : ℤ) (m : Dict VectorNamespace) (j : Bytes)
    → IsDistinct m
    → (lookup j (sweep_namespaces now m).2 ≡ map_option (swept now) (lookup j m))
      × (contains (sweep_namespaces now m).1 j ≡ is_empty now (lookup j m))
unfolding sweep_namespaces lookup
lookup-sweep_namespaces now [] j d = (refl, refl)
lookup-sweep_namespaces now ((k, ns) ∷ m) j d =
    ground (arith, same_iff k j, lookup-sweep_namespaces now m j)

-- A namespace after the sweep: gone if nothing of it is left.
abbrev pub swept_or_gone : ℤ → Option VectorNamespace → Option VectorNamespace
swept_or_gone now none = none
swept_or_gone now (some ns) =
    if length (swept now ns).entries == 0 then none else some (swept now ns)

pub lookup-sweep_expired_vectors :
    (now : ℤ) (s : Store) (j : Bytes)
    → IsDistinct s.vectors
    → lookup j (sweep_expired_vectors now s).1.vectors ≡ swept_or_gone now (lookup j s.vectors)
unfolding sweep_expired_vectors
lookup-sweep_expired_vectors now s j d =
    let m = (sweep_namespaces now s.vectors).2 in
    let names = (sweep_namespaces now s.vectors).1 in
    let both = lookup-sweep_namespaces now s.vectors j d in
    ground (arith, lookup-remove_all names m j, both.0, both.1)

lookup-eq_none : (j : Bytes) (m : Dict VectorEntry) → length m ≡ 0 → lookup j m ≡ none
unfolding lookup
lookup-eq_none j [] h = refl
lookup-eq_none j (x ∷ m) h = absurd (omega arith)

AllDistinct-lookup :
    (m : Dict VectorNamespace) (n : Bytes) (ns : VectorNamespace)
    → AllDistinct m
    → lookup n m ≡ some ns
    → IsDistinct ns.entries
unfolding lookup
AllDistinct-lookup [] n ns d h = cc
AllDistinct-lookup ((k, x) ∷ m) n ns d h = elim (Bool-cases (same k n)) [
  | inl e ↦ let q : x ≡ ns = ground arith in rw (← q) d.0
  | inr e ↦ AllDistinct-lookup m n ns d.1 (ground arith)
]

swept-keeps :
    (now t : ℤ) (o : Option VectorNamespace) (j : Bytes)
    → ◌≤ℤ◌ now t
    → ((ns : VectorNamespace) → o ≡ some ns → IsDistinct ns.entries)
    → keep_if (λ e. not (vector_expired t e)) (find_entry (swept_or_gone now o) j)
      ≡ keep_if (λ e. not (vector_expired t e)) (find_entry o j)
swept-keeps now t none j h d = refl
swept-keeps now t (some ns) j h d = ground (
  arith,
  lookup-sweep (vector_expired now) j ns.entries (d ns refl),
  lookup-eq_none j (sweep (vector_expired now) ns.entries),
)

-- In a well-formed store the sweep hides no live key, at its time or after it.
pub view-sweep_expired :
    (now later t : ℤ) (s : Store) (j : Bytes)
    → IsWellFormed s
    → ◌≤ℤ◌ now t
    → view t (sweep_expired now later s).1 j ≡ view t s j
unfolding view sweep_expired sweep_expired_vectors
view-sweep_expired now later t s j w h =
    ground (arith, lookup-sweep (kv_expired now) j s.kv w.kv_distinct)

-- In a well-formed store the sweep hides no live vector, at its time or after it.
pub vector_view-sweep_expired_vectors :
    (now t : ℤ) (s : Store) (n j : Bytes)
    → IsWellFormed s
    → ◌≤ℤ◌ now t
    → vector_view t (sweep_expired_vectors now s).1 n j ≡ vector_view t s n j
unfolding vector_view
vector_view-sweep_expired_vectors now t s n j w h =
    rw (lookup-sweep_expired_vectors now s n w.names_distinct) (
      swept-keeps now t (lookup n s.vectors) j h
        (λ ns e. AllDistinct-lookup s.vectors n ns w.ids_distinct e))

-- Every namespace that the sweep of a well-formed store leaves has an entry, and no expired one.
pub sweep_expired_vectors_reclaims :
    (now : ℤ) (s : Store) (n : Bytes) (ns : VectorNamespace)
    → IsWellFormed s
    → lookup n (sweep_expired_vectors now s).1.vectors ≡ some ns
    → (count_if (vector_expired now) ns.entries ≡ 0) × (length ns.entries ≢ 0)
sweep_expired_vectors_reclaims now s n ns w h =
    left (lookup n s.vectors) (sym (lookup-sweep_expired_vectors now s n w.names_distinct) ∙ h)
  where
    left :
        (o : Option VectorNamespace)
        → swept_or_gone now o ≡ some ns
        → (count_if (vector_expired now) ns.entries ≡ 0) × (length ns.entries ≢ 0)
    left none e = absurd (cc)
    left (some x) e = ground (arith, count_if-sweep (vector_expired now) x.entries)

abbrev pub total_entries : Dict VectorNamespace → ℕ
total_entries [] = 0
total_entries ((_, ns) ∷ m) = length ns.entries + total_entries m

pub total-sweep_namespaces :
    (now : ℤ) (m : Dict VectorNamespace)
    → (sweep_namespaces now m).0 + total_entries (sweep_namespaces now m).2 ≡ total_entries m
unfolding sweep_namespaces
total-sweep_namespaces now [] = refl
total-sweep_namespaces now ((k, ns) ∷ m) =
    ground (
      arith,
      total-sweep_namespaces now m,
      count_if-add-length-sweep (vector_expired now) ns.entries,
    )
