-- ===== src/Store/Vector/View.antt =====
-- What a client of the vector half sees at a time, and the operations that leave it alone.
use hybrid_vector_cache_hnsw.Common.{
  ◌≡◌, refl, true, false, not, ◌&&◌, Option, none, some, [], ◌∷◌, arith, if◌then◌else◌, length, inl,
  inr, Option-cases,
}
use hybrid_vector_cache_hnsw.Common.Int.{ℤ, ◌≤ℤ◌}
use hybrid_vector_cache_hnsw.Common.Bytes.{Bytes, same, same_iff}
use hybrid_vector_cache_hnsw.Common.Dict.{Dict, lookup, remove, lookup-remove, lookup-insert}
use hybrid_vector_cache_hnsw.Common.Dict.Sweep.{keep_if, count_if}
use hybrid_vector_cache_hnsw.Store.{Store, VectorEntry, VectorNamespace, vector_expired}
use hybrid_vector_cache_hnsw.Store.Vector.{vget, vdel, vcount, vsnapshot, live_entries, vns_drop}

abbrev pub find_entry : Option VectorNamespace → Bytes → Option VectorEntry
find_entry none id = none
find_entry (some ns) id = lookup id ns.entries

-- The live entry of an id in a namespace.
unfoldable pub vector_view : ℤ → Store → Bytes → Bytes → Option VectorEntry
vector_view now s namespace id =
    keep_if (λ e. not (vector_expired now e)) (find_entry (lookup namespace s.vectors) id)

-- VGet returns the live entry, and a miss for an id with none.
pub vget-eq-vector_view :
    (namespace id : Bytes) (now later : ℤ) (s : Store)
    → (vget namespace id now later s).0 ≡ vector_view now s namespace id
unfolding vget vector_view
vget-eq-vector_view namespace id now later s = ground arith

-- VGet changes no live entry at the time of its second check or after it.
vector_view-vget :
    (namespace id n j : Bytes) (now later t : ℤ) (s : Store)
    → ◌≤ℤ◌ later t
    → vector_view t (vget namespace id now later s).1 n j ≡ vector_view t s n j
unfolding vget vector_view
vector_view-vget namespace id n j now later t s o =
    elim (Option-cases (lookup namespace s.vectors)) [
      | inl e ↦ ground arith
      | inr (ns, e) ↦
          let ns' = record ns { entries = remove id ns.entries } in
          ground (
            arith,
            lookup-insert namespace n ns' s.vectors,
            lookup-remove id j ns.entries,
            same_iff namespace n,
            same_iff id j,
          )
    ]

-- VDel takes the one entry away and changes no other; it answers whether there was one, live or not.
pub vdel_removes :
    (namespace id n j : Bytes) (t : ℤ) (s : Store)
    → (vector_view t (vdel namespace id s).1 n j
        ≡ (if same namespace n && same id j then none else vector_view t s n j))
      × ((vdel namespace id s).0
          ≡ elim (find_entry (lookup namespace s.vectors) id) [ none ↦ false | some _ ↦ true ])
unfolding vdel vector_view
vdel_removes namespace id n j t s = elim (Option-cases (lookup namespace s.vectors)) [
  | inl e ↦ rw e (ground (arith, e, same_iff namespace n))
  | inr (ns, e) ↦
      let ns' = record ns { entries = remove id ns.entries } in
      rw e (
        ground (
          arith,
          e,
          lookup-insert namespace n ns' s.vectors,
          lookup-remove id j ns.entries,
          same_iff namespace n,
          same_iff id j,
        ))
]

-- VNSDrop takes away every entry of the namespace and no other; it answers whether it existed.
pub vns_drop_removes :
    (namespace n j : Bytes) (t : ℤ) (s : Store)
    → (vector_view t (vns_drop namespace s).1 n j
        ≡ (if same namespace n then none else vector_view t s n j))
      × ((vns_drop namespace s).0
          ≡ elim (lookup namespace s.vectors) [ none ↦ false | some _ ↦ true ])
unfolding vns_drop vector_view
vns_drop_removes namespace n j t s =
    ground (arith, lookup-remove namespace n s.vectors, same_iff namespace n)

length-live_entries :
    (now : ℤ) (m : Dict VectorEntry)
    → length (live_entries now m) ≡ count_if (λ e. not (vector_expired now e)) m
unfolding live_entries count_if
length-live_entries now [] = refl
length-live_entries now ((k, e) ∷ m) = ground (arith, length-live_entries now m)

-- VCount is the number of entries that VSnapshot would return.
vcount-eq-length-vsnapshot :
    (namespace : Bytes) (now : ℤ) (s : Store)
    → vcount namespace now s ≡ length (vsnapshot namespace now s)
unfolding vcount vsnapshot
vcount-eq-length-vsnapshot namespace now s = elim (Option-cases (lookup namespace s.vectors)) [
  | inl e ↦ ground arith
  | inr (ns, e) ↦ ground (arith, length-live_entries now ns.entries)
]
