-- ===== src/Hnsw/Snapshot/Revived.antt =====
-- What an index holds behind a snapshot and its load.
use mathlib.Core.Path.{subst}
use hybrid_vector_cache_hnsw.Common.{
  ℕ, zero, suc, ◌+◌, ◌≡◌, refl, sym, ap, ◌∙◌, inl, inr, Bool, true, false, Option, none, some, List,
  [], ◌∷◌, map, arith, get_elem?, get_elem?-lt, get_elem?-some, if◌then◌else◌, Option-cases,
}
use hybrid_vector_cache_hnsw.Common.Bytes.{Bytes, same, same_iff, same_refl}
use hybrid_vector_cache_hnsw.Common.Dict.{Dict, lookup, insert, lookup-insert}
use hybrid_vector_cache_hnsw.Common.Run.{Returns, Returns-map}
use hybrid_vector_cache_hnsw.Heap.Items.{All, Holds, All-get}
use hybrid_vector_cache_hnsw.Hnsw.{Node, Index, bury, delete, delete_found}
use hybrid_vector_cache_hnsw.Hnsw.Keys.{IsIndexed}
use hybrid_vector_cache_hnsw.Hnsw.Contents.{content, content_at, stored}
use hybrid_vector_cache_hnsw.Hnsw.Snapshot.{Json, snapshot}
use hybrid_vector_cache_hnsw.Hnsw.Snapshot.Load.{loaded, load_snapshot, number_keys}
use hybrid_vector_cache_hnsw.Hnsw.Snapshot.Nodes.{revive}
use hybrid_vector_cache_hnsw.Hnsw.Snapshot.RoundTrip.{Fits, restored, load_snapshot-snapshot}

module _ (id_map : Dict ℕ) where
  -- The keys have the ids that count up from i.
  abbrev AreNamed : ℕ → List Bytes → Type 0
  AreNamed i [] = Unit {0}
  AreNamed i (key ∷ keys) = (lookup key id_map ≡ some i) × AreNamed (i + 1) keys

  number_keys-keeps :
      (keys : List Bytes) (i : ℕ) (m : Dict ℕ) (k : Bytes)
      → AreNamed i keys
      → lookup k m ≡ lookup k id_map
      → lookup k (number_keys i keys m) ≡ lookup k id_map
  unfolding number_keys
  number_keys-keeps [] i m k a e = e
  number_keys-keeps (key ∷ keys) i m k a e =
      number_keys-keeps keys (i + 1) (insert key i m) k a.1
        (lookup-insert key k i m ∙ at (same key k) refl)
    where
      at : (b : Bool) → same key k ≡ b → (if b then some i else lookup k m) ≡ lookup k id_map
      at true s = sym a.0 ∙ ap (λ j. lookup j id_map) ((same_iff key k).0 s)
      at false s = e

  number_keys-finds :
      (keys : List Bytes) (i j : ℕ) (m : Dict ℕ) (k : Bytes)
      → AreNamed i keys
      → get_elem? keys j ≡ some k
      → lookup k (number_keys i keys m) ≡ lookup k id_map
  unfolding number_keys
  number_keys-finds [] i j m k a e = cc
  number_keys-finds (key ∷ keys) i zero m k a e =
      let at : key ≡ k = cc in
      number_keys-keeps keys (i + 1) (insert key i m) k a.1
        (lookup-insert key k i m ∙ rw (at, same_refl k) (sym a.0 ∙ ap (λ j. lookup j id_map) at))
  number_keys-finds (key ∷ keys) i (suc j) m k a e =
      number_keys-finds keys (i + 1) j (insert key i m) k a.1 e

  are_named :
      (keys : List Bytes) (i : ℕ)
      → ((j : ℕ) (key : Bytes) → get_elem? keys j ≡ some key → lookup key id_map ≡ some (i + j))
      → AreNamed i keys
  are_named [] i h = tt
  are_named (key ∷ keys) i h = (
    h zero key refl ∙ ap (λ j. some j) (omega arith),
    are_named keys (i + 1) (λ j k e. h (suc j) k e ∙ ap (λ l. some l) (omega arith)),
  )

content-revive :
    (nodes : List Node) (i : ℕ)
    → content (get_elem? (map revive nodes) i) ≡ content (get_elem? nodes i)
content-revive [] i = refl
content-revive (n ∷ ns) zero = refl
content-revive (n ∷ ns) (suc i) = content-revive ns i

content_at-revive :
    (nodes : List Node) (o : Option ℕ) → content_at (map revive nodes) o ≡ content_at nodes o
content_at-revive nodes none = refl
content_at-revive nodes (some i) = content-revive nodes i

revive-bury : (i : ℕ) (nodes : List Node) → map revive (bury i nodes) ≡ map revive nodes
unfolding bury
revive-bury i [] = refl
revive-bury zero (n ∷ ns) = refl
revive-bury (suc i) (n ∷ ns) = ap (λ ms. revive n ∷ ms) (revive-bury i ns)

-- No node of the index was ever deleted.
abbrev pub IsAlive : Index → Type 0
IsAlive idx = All (λ (n : Node). n.deleted ≡ false) idx.nodes

lookup-number_keys :
    (idx : Index) (k : Bytes)
    → IsIndexed idx
    → IsAlive idx
    → lookup k (number_keys 0 idx.reverse_map []) ≡ lookup k idx.id_map
unfolding lookup
lookup-number_keys idx k v live =
    let named : AreNamed idx.id_map 0 idx.reverse_map =
      are_named idx.id_map idx.reverse_map 0 (λ j key e. owned j key e) in
    elim (Option-cases (lookup k idx.id_map)) [
      | inl missing ↦ number_keys-keeps idx.id_map idx.reverse_map 0 [] k named (sym missing)
      | inr (i, found) ↦
          let (n, at, alive, name) = v.owned k i found in
          number_keys-finds idx.id_map idx.reverse_map 0 i [] k named name
    ]
  where
    owned :
        (j : ℕ) (key : Bytes)
        → get_elem? idx.reverse_map j ≡ some key
        → lookup key idx.id_map ≡ some (0 + j)
    owned j key e =
        let (n, at) =
          get_elem?-some idx.nodes j
            (omega (arith, get_elem?-lt idx.reverse_map j key e, v.same_size)) in
        let alive : Holds (λ (m : Node). m.deleted ≡ false) (get_elem? idx.nodes j) =
          All-get (λ (m : Node). m.deleted ≡ false) idx.nodes j live in
        v.owner j n key at e (subst (Holds (λ (m : Node). m.deleted ≡ false)) at alive)
        ∙ ap (λ l. some l) (omega arith)

stored-restored :
    (idx : Index) (k : Bytes) → IsIndexed idx → IsAlive idx → stored (restored idx) k ≡ stored idx k
stored-restored idx k v live =
    ap (content_at (map revive idx.nodes)) (lookup-number_keys idx k v live)
    ∙ content_at-revive idx.nodes (lookup k idx.id_map)

stored-restored-delete :
    (idx : Index) (key k : Bytes) → stored (restored (delete key idx).1) k ≡ stored (restored idx) k
unfolding delete delete_found
stored-restored-delete idx key k = found (lookup key idx.id_map)
  where
    found :
        (o : Option ℕ) → stored (restored (delete_found key idx o).1) k ≡ stored (restored idx) k
    found none = refl
    found (some id) =
        ap (λ nodes. content_at nodes (lookup k (number_keys 0 idx.reverse_map [])))
          (revive-bury id idx.nodes)

-- A snapshot forgets Delete: when an index without deleted nodes loses a key, is saved and is loaded,
-- it holds the key again, with the vector and the metadata of before, as well as every other key.
pub snapshot_forgets_delete :
    (json : Json) (idx : Index) (key k : Bytes)
    → IsIndexed idx
    → IsAlive idx
    → Fits json (delete key idx).1
    → Returns
        (λ file.
          (idx' : Index) × (load_snapshot json file ≡ loaded idx') × (stored idx' k ≡ stored idx k))
        (snapshot json (delete key idx).1)
snapshot_forgets_delete json idx key k v live fits =
    Returns-map (λ file. load_snapshot json file ≡ loaded (restored (delete key idx).1))
      (λ file.
        (idx' : Index) × (load_snapshot json file ≡ loaded idx') × (stored idx' k ≡ stored idx k))
      (snapshot json (delete key idx).1) (load_snapshot-snapshot json (delete key idx).1 fits)
      (λ file e. (
        restored (delete key idx).1,
        e,
        stored-restored-delete idx key k ∙ stored-restored idx k v live,
      ))
