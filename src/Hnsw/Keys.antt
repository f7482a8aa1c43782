-- ===== src/Hnsw/Keys.antt =====
-- The two maps between keys and nodes, and that Delete keeps them.
use hybrid_vector_cache_hnsw.Common.{
  ℕ, zero, suc, ◌≡◌, ◌≢◌, refl, sym, ap, ◌∙◌, false, Option, none, some, List, [], ◌∷◌, arith,
  length, get_elem?,
}
use hybrid_vector_cache_hnsw.Common.Bytes.{Bytes, same_iff}
use hybrid_vector_cache_hnsw.Common.Dict.{Dict, lookup, remove, lookup-remove}
use hybrid_vector_cache_hnsw.Hnsw.{Node, Index, bury, delete, delete_found}

-- The live nodes and the keys of an index belong to one another.
pub record AreMapped (nodes : List Node) (id_map : Dict ℕ) (reverse_map : List Bytes) : Type 0 where
  pub same_size : length reverse_map ≡ length nodes
  pub owner :
      (i : ℕ) (n : Node) (key : Bytes)
      → get_elem? nodes i ≡ some n
      → get_elem? reverse_map i ≡ some key
      → n.deleted ≡ false
      → lookup key id_map ≡ some i
  pub owned :
      (key : Bytes) (i : ℕ)
      → lookup key id_map ≡ some i
      → (n : Node) × (get_elem? nodes i ≡ some n)
        × (n.deleted ≡ false)
        × (get_elem? reverse_map i ≡ some key)

abbrev pub IsIndexed : Index → Type 0
IsIndexed idx = AreMapped idx.nodes idx.id_map idx.reverse_map

length-bury : (i : ℕ) (nodes : List Node) → length (bury i nodes) ≡ length nodes
unfolding bury
length-bury i [] = refl
length-bury zero (n ∷ ns) = refl
length-bury (suc i) (n ∷ ns) = ap suc (length-bury i ns)

-- A live node behind a burial was there before, and is another one.
get_elem?-bury :
    (i j : ℕ) (nodes : List Node) (n : Node)
    → get_elem? (bury i nodes) j ≡ some n
    → n.deleted ≡ false
    → (get_elem? nodes j ≡ some n) × (i ≢ j)
unfolding bury
get_elem?-bury i j [] n e d = cc
get_elem?-bury zero zero (x ∷ ns) n e d = ground arith
get_elem?-bury zero (suc j) (x ∷ ns) n e d = (e, λ h. omega (arith, h))
get_elem?-bury (suc i) zero (x ∷ ns) n e d = (e, λ h. omega (arith, h))
get_elem?-bury (suc i) (suc j) (x ∷ ns) n e d =
    let (at, other) = get_elem?-bury i j ns n e d in (at, λ h. other (omega (arith, h)))

pub get_elem?-bury_other :
    (i j : ℕ) (nodes : List Node) → i ≢ j → get_elem? (bury i nodes) j ≡ get_elem? nodes j
unfolding bury
get_elem?-bury_other i j [] h = refl
get_elem?-bury_other zero zero (x ∷ ns) h = absurd (h refl)
get_elem?-bury_other zero (suc j) (x ∷ ns) h = refl
get_elem?-bury_other (suc i) zero (x ∷ ns) h = refl
get_elem?-bury_other (suc i) (suc j) (x ∷ ns) h = get_elem?-bury_other i j ns (λ e. h (ap suc e))

pub same_id : (i j : ℕ) → ◌≡◌ {A = Option ℕ} (some i) (some j) → i ≡ j
same_id i j e = cc

pub same_key : (k j : Bytes) → ◌≡◌ {A = Option Bytes} (some k) (some j) → k ≡ j
same_key k j e = cc

lookup-remove_keep :
    (key k : Bytes) (i : ℕ) (m : Dict ℕ)
    → lookup k m ≡ some i
    → key ≢ k
    → lookup k (remove key m) ≡ some i
lookup-remove_keep key k i m h other = ground (arith, lookup-remove key k m, same_iff key k)

lookup-remove_other :
    (key k : Bytes) (i : ℕ) (m : Dict ℕ)
    → lookup k (remove key m) ≡ some i
    → (lookup k m ≡ some i) × (key ≢ k)
lookup-remove_other key k i m h = (
  ground (arith, lookup-remove key k m, same_iff key k),
  λ e. ground (arith, lookup-remove key k m, same_iff key k),
)

-- Delete keeps the maps in step.
pub delete-IsIndexed : (key : Bytes) (idx : Index) → IsIndexed idx → IsIndexed (delete key idx).1
unfolding delete
delete-IsIndexed key idx v = deleted (lookup key idx.id_map) refl
  where
    deleted : (o : Option ℕ) → lookup key idx.id_map ≡ o → IsIndexed (delete_found key idx o).1
    deleted none e = v
    deleted (some id) e = record {
      same_size = v.same_size ∙ sym (length-bury id idx.nodes);
      owner = λ i n k at named live.
          let (was, other) = get_elem?-bury id i idx.nodes n at live in
          lookup-remove_keep key k i idx.id_map (v.owner i n k was named live) (λ (h : key ≡ k).
            other (
              same_id id i
                (sym e ∙ ap (λ j. lookup j idx.id_map) h ∙ v.owner i n k was named live)));
      owned = λ k i found.
          let (n, at, live, named) = v.owned k i (lookup-remove_other key k i idx.id_map found).0 in
          let (m, _, _, named') = v.owned key id e in
          (
            n,
            get_elem?-bury_other id i idx.nodes (λ h.
                  (lookup-remove_other key k i idx.id_map found).1
                    (same_key key k (sym named' ∙ ap (get_elem? idx.reverse_map) h ∙ named)))
                ∙ at,
            live,
            named,
          );
    }
