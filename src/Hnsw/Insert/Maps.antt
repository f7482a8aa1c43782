-- ===== src/Hnsw/Insert/Maps.antt =====
-- What Insert does to the maps between keys and nodes.
use mathlib.Core.Path.{subst}
use hybrid_vector_cache_hnsw.Common.{
  ℕ, zero, suc, ◌≡◌, refl, sym, ap, ◌∙◌, ◌⊎◌, inl, inr, Bool, true, false, Option, none, some, List,
  [], ◌∷◌, ◌++◌, arith, if◌then◌else◌, length, length-append, get_elem?, get_elem?-lt,
  get_elem?-concat, get_elem?-concat_old, get_elem?-concat_new, Option-cases, Bool-cases,
}
use hybrid_vector_cache_hnsw.Common.Bytes.{Bytes, same, same_iff}
use hybrid_vector_cache_hnsw.Common.Dict.{Dict, lookup, insert, lookup-insert}
use hybrid_vector_cache_hnsw.Hnsw.{Node}
use hybrid_vector_cache_hnsw.Hnsw.Keys.{AreMapped}
use hybrid_vector_cache_hnsw.Hnsw.Contents.{content, content_at}
use hybrid_vector_cache_hnsw.Hnsw.Insert.Shape.{Alike, Alike-sym, Alike-get, length-Alike}

Alike-content :
    (ns ms : List Node) (i : ℕ) → Alike ns ms → content (get_elem? ns i) ≡ content (get_elem? ms i)
Alike-content [] [] i a = refl
Alike-content [] (m ∷ ms) i a = absurd a
Alike-content (n ∷ ns) [] i a = absurd a
Alike-content (n ∷ ns) (m ∷ ms) zero a = let v = a.0.vector in let d = a.0.metadata in cc
Alike-content (n ∷ ns) (m ∷ ms) (suc i) a = Alike-content ns ms i a.1

pub Alike-content_at :
    (ns ms : List Node) (o : Option ℕ) → Alike ns ms → content_at ns o ≡ content_at ms o
Alike-content_at ns ms none a = refl
Alike-content_at ns ms (some i) a = Alike-content ns ms i a

-- New links leave the maps in step.
pub Alike-AreMapped :
    (ns ms : List Node) (id_map : Dict ℕ) (names : List Bytes)
    → Alike ns ms
    → AreMapped ns id_map names
    → AreMapped ms id_map names
Alike-AreMapped ns ms id_map names a v = record {
  same_size = v.same_size ∙ length-Alike ns ms a;
  owner = λ i m key at named live.
      let (n, was, same_node) = Alike-get ms ns i m (Alike-sym ns ms a) at in
      v.owner i n key was named (sym same_node.deleted ∙ live);
  owned = λ key i found.
      let (n, at, live, named) = v.owned key i found in
      let (m, is, same_node) = Alike-get ns ms i n a at in
      (m, is, sym same_node.deleted ∙ live, named);
}

module _ (nodes : List Node) (id_map : Dict ℕ) (names : List Bytes) (key : Bytes) (new : Node)
    (v : AreMapped nodes id_map names) (fresh : lookup key id_map ≡ none)
    (born : new.deleted ≡ false) where
  fresh-ne : (k : Bytes) (i : ℕ) → lookup k id_map ≡ some i → same key k ≡ false
  fresh-ne k i found = elim (Bool-cases (same key k)) [
    | inr other ↦ other
    | inl same_keys ↦ ground (arith, (same_iff key k).0 same_keys)
  ]

  concat-owner :
      (i : ℕ) (n : Node) (k : Bytes)
      → (get_elem? nodes i ≡ some n) ⊎ ((i ≡ length nodes) × (new ≡ n))
      → (get_elem? names i ≡ some k) ⊎ ((i ≡ length names) × (key ≡ k))
      → n.deleted ≡ false
      → lookup k (insert key (length nodes) id_map) ≡ some i
  concat-owner i n k (inl at) (inl named) live =
      let was = v.owner i n k at named live in
      ground (arith, lookup-insert key k (length nodes) id_map, fresh-ne k i was)
  concat-owner i n k (inl at) (inr (e, named)) live =
      absurd (omega (arith, v.same_size, e, get_elem?-lt nodes i n at))
  concat-owner i n k (inr (e, is)) (inl named) live =
      absurd (omega (arith, v.same_size, e, get_elem?-lt names i k named))
  concat-owner i n k (inr (e, is)) (inr (e', named)) live =
      ground (arith, lookup-insert key k (length nodes) id_map, (same_iff key k).1 named)

  concat-owned :
      (k : Bytes) (i : ℕ) (b : Bool)
      → same key k ≡ b
      → lookup k (insert key (length nodes) id_map) ≡ some i
      → (n : Node) × (get_elem? (nodes ++ new ∷ []) i ≡ some n)
        × (n.deleted ≡ false)
        × (get_elem? (names ++ key ∷ []) i ≡ some k)
  concat-owned k i true e found =
      let at : length nodes ≡ i = ground (arith, lookup-insert key k (length nodes) id_map) in
      let at' : length names ≡ i = v.same_size ∙ at in
      (
        new,
        subst (λ j. get_elem? (nodes ++ new ∷ []) j ≡ some new) at (get_elem?-concat_new nodes new),
        born,
        subst (λ j. get_elem? (names ++ key ∷ []) j ≡ some k) at'
            (get_elem?-concat_new names key ∙ ap some ((same_iff key k).0 e)),
      )
  concat-owned k i false e found =
      let was : lookup k id_map ≡ some i =
        ground (arith, lookup-insert key k (length nodes) id_map) in
      let (n, at, live, named) = v.owned k i was in
      (n, get_elem?-concat_old nodes new n i at, live, get_elem?-concat_old names key k i named)

  pub AreMapped-concat :
      AreMapped (nodes ++ new ∷ []) (insert key (length nodes) id_map) (names ++ key ∷ [])
  AreMapped-concat = record {
    same_size =
        omega (arith, v.same_size, length-append nodes (new ∷ []), length-append names (key ∷ []));
    owner = λ i n k at named live.
        concat-owner i n k (get_elem?-concat nodes new n i at)
          (get_elem?-concat names key k i named) live;
    owned = λ k i found. concat-owned k i (same key k) refl found;
  }

  -- The new map holds what the old one does, and the new node for the key.
  pub content_at-concat :
      (k : Bytes)
      → content_at (nodes ++ new ∷ []) (lookup k (insert key (length nodes) id_map))
        ≡ (if same key k then content (some new) else content_at nodes (lookup k id_map))
  content_at-concat k = rw (lookup-insert key k (length nodes) id_map) (held (same key k) refl)
    where
      held :
          (b : Bool)
          → same key k ≡ b
          → content_at (nodes ++ new ∷ []) (if b then some (length nodes) else lookup k id_map)
            ≡ (if b then content (some new) else content_at nodes (lookup k id_map))
      held true e = ap content (get_elem?-concat_new nodes new)
      held false e = elim (Option-cases (lookup k id_map)) [
        | inl missing ↦ rw missing refl
        | inr (i, found) ↦
            let (n, at, live, named) = v.owned k i found in
            rw (found, at) (ap content (get_elem?-concat_old nodes new n i at))
      ]
