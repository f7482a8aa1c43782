-- ===== src/Hnsw/Insert/Total.antt =====
-- Insert as a whole: it returns, keeps the graph and the maps sound, and stores its key.
use hybrid_vector_cache_hnsw.Common.{
  ℕ, zero, suc, ◌+◌, ◌^◌, ◌≤◌, ◌<◌, ◌≡◌, ◌≢◌, refl, sym, ap, ◌∙◌, inl, inr, Bool, true, false, none,
  some, List, [], ◌∷◌, ◌++◌, arith, if◌then◌else◌, length, length-append, ◌==◌, Option-cases,
  Bool-cases,
}
use hybrid_vector_cache_hnsw.Common.Bytes.{Bytes, same, same_iff}
use hybrid_vector_cache_hnsw.Common.Dict.{Dict, lookup, insert}
use hybrid_vector_cache_hnsw.Common.Run.{ok, panic, Returns, Returns-map}
use hybrid_vector_cache_hnsw.Similarity.{Float}
use hybrid_vector_cache_hnsw.Hnsw.{Node, Index, new_node, new_index, cap_level, random_level}
use hybrid_vector_cache_hnsw.Hnsw.Keys.{IsIndexed}
use hybrid_vector_cache_hnsw.Hnsw.Contents.{content, content_at, stored, content_at-other}
use hybrid_vector_cache_hnsw.Hnsw.Neighbors.Chosen.{IsDim}
use hybrid_vector_cache_hnsw.Hnsw.Insert.{
  change, register, replace, attach, next_id, insert_new, insert_vector,
}
use hybrid_vector_cache_hnsw.Hnsw.Insert.Shape.{HasLayer, IsLinked, length-Alike}
use hybrid_vector_cache_hnsw.Hnsw.Insert.Links.{Alike-IsDim}
use hybrid_vector_cache_hnsw.Hnsw.Insert.Register.{
  HasLayer-concat, IsDim-concat, HasLayer-new, IsLinked-concat,
}
use hybrid_vector_cache_hnsw.Hnsw.Insert.Attach.{Attached, attach-Attached}
use hybrid_vector_cache_hnsw.Hnsw.Insert.Renew.{
  length-change, get_elem?-change_self, get_elem?-change_other, renew, renew-HasLayer, renew-IsDim,
  renew-IsLinked, renew-AreMapped,
}
use hybrid_vector_cache_hnsw.Hnsw.Insert.Maps.{
  Alike-content_at, Alike-AreMapped, AreMapped-concat, content_at-concat,
}

-- What keeps the graph sound: vectors of one length, links to nodes that have the layer, positive
-- widths, and an entry point that has the top layer.
pub record IsGraph (dim : ℕ) (idx : Index) : Type 0 where
  pub dims : IsDim dim idx.nodes
  pub linked : IsLinked idx.nodes
  pub wide : 0 < idx.ef_construction
  pub width : 0 < idx.ef
  pub entry : 0 < length idx.nodes → HasLayer idx.nodes idx.current_max_layer idx.entry_point

-- The index behind an Insert: sound, with its maps in step, and with the key's new content.
pub record Inserted (dim : ℕ) (idx : Index) (key : Bytes) (vec : List ℕ) (meta : Dict Bytes)
    (idx' : Index) : Type 0 where
  pub graph : IsGraph dim idx'
  pub indexed : IsIndexed idx'
  pub grown : length idx'.nodes ≤ length idx.nodes + 1
  pub degree : idx'.m ≡ idx.m
  pub contents :
      (k : Bytes) → stored idx' k ≡ (if same key k then some (vec, meta) else stored idx k)

module _ (dim : ℕ) (id : ℕ) (vec : List ℕ) (meta : Dict Bytes) (size : length vec ≡ dim) where
  replace-Inserted :
      (idx : Index) (key : Bytes)
      → IsGraph dim idx
      → IsIndexed idx
      → lookup key idx.id_map ≡ some id
      → Inserted dim idx key vec meta (replace id vec meta idx)
  unfolding replace
  replace-Inserted idx key g v e = record {
    graph = record {
      dims = renew-IsDim dim id vec meta size idx.nodes g.dims;
      linked = renew-IsLinked dim id vec meta size idx.nodes g.linked;
      wide = g.wide;
      width = g.width;
      entry = λ h.
          renew-HasLayer dim id vec meta size idx.nodes idx.current_max_layer idx.entry_point
            (g.entry (omega (arith, h, length-change idx.nodes id (renew dim id vec meta size))));
    };
    indexed = renew-AreMapped dim id vec meta size idx.nodes idx.id_map idx.reverse_map v;
    grown = omega (arith, length-change idx.nodes id (renew dim id vec meta size));
    degree = refl;
    contents = λ k. held k (same key k) refl;
  }
    where
      held :
          (k : Bytes) (b : Bool)
          → same key k ≡ b
          → content_at (change idx.nodes id (renew dim id vec meta size)) (lookup k idx.id_map)
            ≡ (if b then some (vec, meta) else stored idx k)
      held k true s =
          let at : key ≡ k = (same_iff key k).0 s in
          let (n, was, live, named) = v.owned key id e in
          ap
            (λ (j : Bytes).
              content_at (change idx.nodes id (renew dim id vec meta size)) (lookup j idx.id_map))
            (sym at)
          ∙ ap (content_at (change idx.nodes id (renew dim id vec meta size))) e
          ∙ ap content (get_elem?-change_self idx.nodes id (renew dim id vec meta size) n was)
      held k false s =
          content_at-other idx.nodes (change idx.nodes id (renew dim id vec meta size)) idx.id_map
            idx.reverse_map key k id v e
            (λ i h. get_elem?-change_other idx.nodes id i (renew dim id vec meta size) h)
            (λ (h : key ≡ k). ground (arith, same_iff key k))

module _ (f : Float) (dim : ℕ) (idx : Index) (key : Bytes) (vec : List ℕ) (meta : Dict Bytes)
    (size : length vec ≡ dim) (graph : IsGraph dim idx) (v : IsIndexed idx)
    (fresh : lookup key idx.id_map ≡ none) (level : ℕ) where
  abbrev id : ℕ
  id = length idx.nodes

  abbrev new : Node
  new = new_node id vec meta level

  abbrev registered : Index
  registered = record idx {
    nodes = idx.nodes ++ new ∷ [];
    id_map = insert key id idx.id_map;
    reverse_map = idx.reverse_map ++ key ∷ [];
  }

  born : new.deleted ≡ false
  unfolding new_node
  born = refl

  content-new : content (some new) ≡ some (vec, meta)
  unfolding new_node
  content-new = refl

  registered-IsDim : IsDim dim registered.nodes
  registered-IsDim = IsDim-concat dim idx.nodes new graph.dims (unfold new_node in size)

  registered-AreMapped : IsIndexed registered
  registered-AreMapped = AreMapped-concat idx.nodes idx.id_map idx.reverse_map key new v fresh born

  registered-stored :
      (k : Bytes) → stored registered k ≡ (if same key k then some (vec, meta) else stored idx k)
  registered-stored k =
      content_at-concat idx.nodes idx.id_map idx.reverse_map key new v fresh born k
      ∙ ap (λ o. if same key k then o else stored idx k) content-new

  -- The first node is the entry point.
  first-Inserted :
      length idx.nodes ≡ 0
      → Inserted dim idx key vec meta (record registered {
        entry_point = id;
        current_max_layer = level;
        insert_count = idx.insert_count + 1;
      })
  first-Inserted e = record {
    graph = record {
      dims = registered-IsDim;
      linked = IsLinked-concat id vec meta level idx.nodes graph.linked;
      wide = graph.wide;
      width = graph.width;
      entry = λ h. HasLayer-new id vec meta level idx.nodes level (omega arith);
    };
    indexed = registered-AreMapped;
    grown = omega (arith, length-append idx.nodes (new ∷ []));
    degree = refl;
    contents = registered-stored;
  }

  attached-Inserted : (idx' : Index) → Attached registered idx' → Inserted dim idx key vec meta idx'
  attached-Inserted idx' a =
      let alike = a.relinked.alike in
      record {
        graph = record {
          dims = Alike-IsDim dim registered.nodes idx'.nodes alike registered-IsDim;
          linked = a.relinked.linked;
          wide = omega (arith, a.wide, graph.wide);
          width = omega (arith, a.width, graph.width);
          entry = λ h. a.entry;
        };
        indexed =
            rw (a.id_map, a.reverse_map)
              (Alike-AreMapped registered.nodes idx'.nodes registered.id_map registered.reverse_map
                alike registered-AreMapped);
        grown = omega (
          arith,
          length-Alike registered.nodes idx'.nodes alike,
          length-append idx.nodes (new ∷ []),
        );
        degree = a.degree;
        contents = λ k.
            ap (λ m. content_at idx'.nodes (lookup k m)) a.id_map
            ∙ sym (Alike-content_at registered.nodes idx'.nodes (lookup k registered.id_map) alike)
            ∙ registered-stored k;
      }

  attach-Inserted :
      0 < length idx.nodes
      → Returns (Inserted dim idx key vec meta) (attach f id vec level registered)
  attach-Inserted h =
      Returns-map (Attached registered) (Inserted dim idx key vec meta)
        (attach f id vec level registered)
        (attach-Attached f dim registered id vec level size graph.wide registered-IsDim
          (IsLinked-concat id vec meta level idx.nodes graph.linked)
          (HasLayer-concat idx.nodes new idx.current_max_layer idx.entry_point (graph.entry h))
          (λ l le. HasLayer-new id vec meta level idx.nodes l le))
        attached-Inserted

  insert_new-Inserted :
      Returns (Inserted dim idx key vec meta) (insert_new f id key vec meta level idx)
  unfolding insert_new register
  insert_new-Inserted =
      let grown = length-append idx.nodes (new ∷ []) in
      elim (Bool-cases (length (idx.nodes ++ new ∷ []) == 1)) [
        | inl one ↦ rw one (first-Inserted (ground (arith, grown)))
        | inr more ↦ rw more (attach-Inserted (ground (arith, grown)))
      ]

pub next_id-small : (idx : Index) → length idx.nodes < 2 ^ 32 → next_id idx ≡ length idx.nodes
unfolding next_id
next_id-small idx room = omega arith

module _ (f : Float) (idx : Index) (key : Bytes) (vec : List ℕ) (meta : Dict Bytes)
    (sample : ℕ) where
  random_level-several : idx.m ≢ 1 → random_level idx sample ≡ some (cap_level idx sample)
  unfolding random_level
  random_level-several h = ground arith

  random_level-single : idx.m ≡ 1 → random_level idx sample ≡ none
  unfolding random_level
  random_level-single h = ground arith

  pub insert_vector-new :
      lookup key idx.id_map ≡ none
      → idx.m ≢ 1
      → insert_vector f key vec meta sample idx
        ≡ insert_new f (next_id idx) key vec meta (cap_level idx sample) idx
  unfolding insert_vector
  insert_vector-new e h = rw (e, random_level-several h, insert_vector) refl

  pub insert_vector-single :
      lookup key idx.id_map ≡ none → idx.m ≡ 1 → insert_vector f key vec meta sample idx ≡ panic
  unfolding insert_vector
  insert_vector-single e h = rw (e, random_level-single h, insert_vector) refl

  insert_vector-known :
      (id : ℕ)
      → lookup key idx.id_map ≡ some id
      → insert_vector f key vec meta sample idx ≡ ok (replace id vec meta idx)
  unfolding insert_vector
  insert_vector-known id e = rw (e, insert_vector) refl

-- The bounds on M: above 1, where ML is a number, and such that make accepts the capacity 2 * M.
abbrev pub HasDegree : Index → Type 0
HasDegree idx = (1 < idx.m) × (idx.m ≤ 2 ^ 45)

pub HasDegree-kept : (idx idx' : Index) → idx'.m ≡ idx.m → HasDegree idx → HasDegree idx'
HasDegree-kept idx idx' e h = (omega (arith, e, h.0), omega (arith, e, h.1))

-- Insert returns, if the vector has the length of the index's, the ids do not overflow, and M is at
-- least 2 and at most 2^45: whatever level is drawn, M stays, the graph stays linked, with its entry
-- point on the top layer, the maps stay in step, and the index holds the vector and the metadata for
-- the key and what it held for every other key.
pub insert_vector-Inserted :
    (f : Float) (dim : ℕ) (idx : Index) (key : Bytes) (vec : List ℕ) (meta : Dict Bytes)
    (sample : ℕ)
    → length vec ≡ dim
    → length idx.nodes < 2 ^ 32
    → IsGraph dim idx
    → IsIndexed idx
    → HasDegree idx
    → Returns (Inserted dim idx key vec meta) (insert_vector f key vec meta sample idx)
insert_vector-Inserted f dim idx key vec meta sample size room g v several =
    let degree : idx.m ≢ 1 = omega (arith, several.0) in
    elim (Option-cases (lookup key idx.id_map)) [
      | inl missing ↦
          rw (insert_vector-new f idx key vec meta sample missing degree, next_id-small idx room)
            (insert_new-Inserted f dim idx key vec meta size g v missing (cap_level idx sample))
      | inr (at, found) ↦
          rw (insert_vector-known f idx key vec meta sample at found)
            (replace-Inserted dim at vec meta size idx key g v found)
    ]

-- A new index is sound.
pub new_index-IsGraph : (dim m ef : ℕ) → IsGraph dim (new_index m ef)
unfolding new_index
new_index-IsGraph dim m zero = record {
  dims = λ i n e. cc;
  linked = λ l i n e. cc;
  wide = omega arith;
  width = omega arith;
  entry = λ h. absurd (omega (arith, h));
}
new_index-IsGraph dim m (suc ef) = record {
  dims = λ i n e. cc;
  linked = λ l i n e. cc;
  wide = omega arith;
  width = omega arith;
  entry = λ h. absurd (omega (arith, h));
}

pub new_index-IsIndexed : (m ef : ℕ) → IsIndexed (new_index m ef)
unfolding new_index lookup
new_index-IsIndexed m ef = record {
  same_size = refl;
  owner = λ i n key e. cc;
  owned = λ key i e. cc;
}
