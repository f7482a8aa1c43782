-- ===== src/Hnsw/Contents.antt =====
-- The index as a map: what it holds for a key.
use hybrid_vector_cache_hnsw.Common.{
  ℕ, ◌≡◌, ◌≢◌, refl, sym, ap, ◌∙◌, inl, inr, Bool, true, false, Option, none, some, List, arith,
  if◌then◌else◌, get_elem?, Option-cases,
}
use hybrid_vector_cache_hnsw.Common.Bytes.{Bytes, same, same_iff}
use hybrid_vector_cache_hnsw.Common.Dict.{Dict, lookup, lookup-remove}
use hybrid_vector_cache_hnsw.Hnsw.{Node, Index, bury, delete, delete_found}
use hybrid_vector_cache_hnsw.Hnsw.Keys.{AreMapped, IsIndexed, get_elem?-bury_other, same_key}

abbrev pub content : Option Node → Option (List ℕ × Dict Bytes)
content none = none
content (some n) = some (n.vector, n.metadata)

abbrev pub content_at : List Node → Option ℕ → Option (List ℕ × Dict Bytes)
content_at nodes none = none
content_at nodes (some i) = content (get_elem? nodes i)

-- The vector and the metadata of a key.
abbrev pub stored : Index → Bytes → Option (List ℕ × Dict Bytes)
stored idx key = content_at idx.nodes (lookup key idx.id_map)

-- Two keys have two ids.
pub other_id :
    (nodes : List Node) (id_map : Dict ℕ) (names : List Bytes) (key k : Bytes) (id i : ℕ)
    → AreMapped nodes id_map names
    → lookup key id_map ≡ some id
    → lookup k id_map ≡ some i
    → key ≢ k
    → id ≢ i
other_id nodes id_map names key k id i v e h other same_ids =
    let (n, at, live, named) = v.owned key id e in
    let (m, at', live', named') = v.owned k i h in
    other (same_key key k (sym named ∙ ap (get_elem? names) same_ids ∙ named'))

-- A change of the node of one key leaves the contents of the other keys.
pub content_at-other :
    (nodes nodes' : List Node) (id_map : Dict ℕ) (names : List Bytes) (key k : Bytes) (id : ℕ)
    → AreMapped nodes id_map names
    → lookup key id_map ≡ some id
    → ((i : ℕ) → id ≢ i → get_elem? nodes' i ≡ get_elem? nodes i)
    → key ≢ k
    → content_at nodes' (lookup k id_map) ≡ content_at nodes (lookup k id_map)
content_at-other nodes nodes' id_map names key k id v e keep other =
    elim (Option-cases (lookup k id_map)) [
      | inl missing ↦ rw missing refl
      | inr (i, found) ↦
          rw found (ap content (keep i (other_id nodes id_map names key k id i v e found other)))
    ]

-- Delete takes the key out of the index and leaves what the index holds for every other key; it says
-- whether the key was there.
pub stored-delete :
    (key k : Bytes) (idx : Index)
    → IsIndexed idx
    → (stored (delete key idx).1 k ≡ (if same key k then none else stored idx k))
      × ((delete key idx).0 ≡ elim (lookup key idx.id_map) [ none ↦ false | some _ ↦ true ])
unfolding delete delete_found
stored-delete key k idx v = deleted (lookup key idx.id_map) refl
  where
    left :
        (b : Bool)
        → same key k ≡ b
        → (id : ℕ) → lookup key idx.id_map ≡ some id
        → content_at (bury id idx.nodes) (if b then none else lookup k idx.id_map)
          ≡ (if b then none else stored idx k)
    left true s id e = refl
    left false s id e =
        content_at-other idx.nodes (bury id idx.nodes) idx.id_map idx.reverse_map key k id v e
          (λ i h. get_elem?-bury_other id i idx.nodes h)
          (λ (h : key ≡ k). ground (arith, same_iff key k))

    gone :
        (b : Bool)
        → same key k ≡ b
        → lookup key idx.id_map ≡ none
        → stored idx k ≡ (if b then none else stored idx k)
    gone true s e =
        let at : key ≡ k = (same_iff key k).0 s in
        ap (content_at idx.nodes) (ap (λ j. lookup j idx.id_map) (sym at) ∙ e)
    gone false s e = refl

    deleted :
        (o : Option ℕ)
        → lookup key idx.id_map ≡ o
        → (stored (delete_found key idx o).1 k ≡ (if same key k then none else stored idx k))
          × ((delete_found key idx o).0 ≡ elim o [ none ↦ false | some _ ↦ true ])
    deleted none e = (gone (same key k) refl e, refl)
    deleted (some id) e = (rw (lookup-remove key k idx.id_map) (left (same key k) refl id e), refl)
