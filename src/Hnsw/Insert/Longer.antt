-- ===== src/Hnsw/Insert/Longer.antt =====
-- Insert of a vector that is longer than the one of the entry point.
use hybrid_vector_cache_hnsw.Common.{
  Bool-cases, inl, inr, ◌≢◌, ℕ, zero, suc, ◌+◌, ◌-◌, ◌^◌, ◌<◌, ◌≡◌, refl, false, none, some, List,
  [], ◌∷◌, ◌++◌, arith, length, length-append, get_elem?, get_elem?-lt, get_elem?-concat_old, ltb,
  ◌==◌, if◌then◌else◌,
}
use hybrid_vector_cache_hnsw.Common.Bytes.{Bytes}
use hybrid_vector_cache_hnsw.Common.Dict.{Dict, lookup}
use hybrid_vector_cache_hnsw.Common.Run.{panic}
use hybrid_vector_cache_hnsw.Similarity.{Float}
use hybrid_vector_cache_hnsw.Hnsw.{
  Node, Index, Sums, zero_sums, add_products, new_node, distance_sums, cosine_distance, cap_level,
}
use hybrid_vector_cache_hnsw.Hnsw.Layer.{enter, enter_new, search_layer}
use hybrid_vector_cache_hnsw.Hnsw.Insert.{
  descend, connect_layer, connect, attach, register, insert_new, insert_vector,
}
use hybrid_vector_cache_hnsw.Hnsw.Insert.Total.{
  insert_vector-new, insert_vector-single, next_id-small,
}

distance_sums-short :
    (f : Float) (a b : List ℕ) (s : Sums) → length b < length a → distance_sums f a b s ≡ none
unfolding distance_sums
distance_sums-short f [] b s h = absurd (omega (arith, h))
distance_sums-short f (x ∷ a) [] s h = refl
distance_sums-short f (x ∷ a) (y ∷ b) s h =
    distance_sums-short f a b (add_products f x y s) (omega (arith, h))

-- CosineDistance reads past the end of a shorter second vector.
cosine_distance-short :
    (f : Float) (a b : List ℕ) → length b < length a → cosine_distance f a b ≡ none
unfolding cosine_distance
cosine_distance-short f a b h = rw (distance_sums-short f a b zero_sums h, cosine_distance) refl

module _ (f : Float) (nodes : List Node) (query : List ℕ) (e : ℕ) (n : Node)
    (at : get_elem? nodes e ≡ some n) (longer : length n.vector < length query) where
  search_layer-longer : (ef l : ℕ) → search_layer f nodes query (e ∷ []) ef l ≡ panic
  unfolding search_layer enter enter_new
  search_layer-longer ef l = rw (at, cosine_distance-short f query n.vector longer) refl

  descend-longer : (rounds bottom : ℕ) → descend f nodes query (suc rounds) bottom (e ∷ []) ≡ panic
  unfolding descend
  descend-longer rounds bottom = rw (search_layer-longer 1 (bottom + suc rounds)) refl

  connect-longer :
      (idx : Index) (id layers : ℕ) → connect f idx id query (layers + 1) (e ∷ [], nodes) ≡ panic
  unfolding connect connect_layer
  connect-longer idx id layers =
      let next : layers + 1 ≡ suc layers = omega arith in
      rw (next, search_layer-longer idx.ef_construction layers) refl

attach-longer :
    (f : Float) (idx : Index) (id level : ℕ) (vec : List ℕ) (n : Node)
    → get_elem? idx.nodes idx.entry_point ≡ some n
    → length n.vector < length vec
    → attach f id vec level idx ≡ panic
unfolding attach
attach-longer f idx id level vec n at longer = descended (idx.current_max_layer - level) refl
  where
    descended : (r : ℕ) → idx.current_max_layer - level ≡ r → attach f id vec level idx ≡ panic
    descended zero e =
        rw
          (
            e,
            connect-longer f idx.nodes vec idx.entry_point n at longer idx id
                (if ltb idx.current_max_layer level then idx.current_max_layer else level),
          )
          refl
    descended (suc r) e =
        rw (e, descend-longer f idx.nodes vec idx.entry_point n at longer r level) refl

insert_vector-longer_several :
    (f : Float) (idx : Index) (key : Bytes) (vec : List ℕ) (meta : Dict Bytes) (sample : ℕ)
    (n : Node)
    → lookup key idx.id_map ≡ none
    → idx.m ≢ 1
    → length idx.nodes < 2 ^ 32
    → get_elem? idx.nodes idx.entry_point ≡ some n
    → length n.vector < length vec
    → insert_vector f key vec meta sample idx ≡ panic
unfolding insert_new register
insert_vector-longer_several f idx key vec meta sample n missing degree few at longer =
    let id = length idx.nodes in
    let level = cap_level idx sample in
    let new = new_node id vec meta level in
    let old : idx.entry_point < id = get_elem?-lt idx.nodes idx.entry_point n at in
    let many : (length (idx.nodes ++ new ∷ []) == 1) ≡ false =
      ground (arith, length-append idx.nodes (new ∷ []), old) in
    rw
      (
        insert_vector-new f idx key vec meta sample missing degree,
        next_id-small idx few,
        many,
        attach-longer f (register id key vec meta level idx) id level vec n
            (get_elem?-concat_old idx.nodes new n idx.entry_point at) longer,
      )
      refl

-- Insert of a new key panics, when its vector is longer than the one of the entry point.
pub insert_vector-longer :
    (f : Float) (idx : Index) (key : Bytes) (vec : List ℕ) (meta : Dict Bytes) (sample : ℕ)
    (n : Node)
    → lookup key idx.id_map ≡ none
    → length idx.nodes < 2 ^ 32
    → get_elem? idx.nodes idx.entry_point ≡ some n
    → length n.vector < length vec
    → insert_vector f key vec meta sample idx ≡ panic
insert_vector-longer f idx key vec meta sample n missing few at longer =
    elim (Bool-cases (idx.m == 1)) [
      | inl single ↦ insert_vector-single f idx key vec meta sample missing (ground (arith, single))
      | inr several ↦
          insert_vector-longer_several f idx key vec meta sample n missing (ground (arith, several))
            few at longer
    ]
