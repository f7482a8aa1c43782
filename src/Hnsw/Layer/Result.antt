-- ===== src/Hnsw/Layer/Result.antt =====
-- What searchLayer returns, and that it does.
use hybrid_vector_cache_hnsw.Common.{
  ℕ, zero, suc, ◌+◌, ◌≤◌, ◌<◌, ◌≡◌, refl, Option, none, some, List, [], ◌∷◌, arith, if◌then◌else◌,
  length, get_elem?,
}
use hybrid_vector_cache_hnsw.Common.Run.{ok, ◌>>=◌, Returns, Returns-bind, Returns-if}
use hybrid_vector_cache_hnsw.Similarity.{Float, float_less}
use hybrid_vector_cache_hnsw.Heap.{pop}
use hybrid_vector_cache_hnsw.Heap.Items.{All, Popped, Popped-pop}
use hybrid_vector_cache_hnsw.Heap.Keeps.{PopsOne, pop-PopsOne}
use hybrid_vector_cache_hnsw.Hnsw.{Node, Item, get_links, min_less}
use hybrid_vector_cache_hnsw.Hnsw.Layer.{
  Frontier, start, peek, enter, expand, explore, search_layer,
}
use hybrid_vector_cache_hnsw.Hnsw.Layer.Visited.{unvisited-le}
use hybrid_vector_cache_hnsw.Hnsw.Layer.Found.{
  IsFound, IsSound, waiting, Keeps, enter-Keeps, expand-Keeps,
}

peek-Returns : (h : List Item) → 0 < length h → Returns (λ x. Unit {0}) (peek h)
peek-Returns [] p = absurd (omega arith)
peek-Returns (x ∷ h) p = tt

module _ (f : Float) (nodes : List Node) (query : List ℕ) (layer : ℕ) (P : ℕ → Type 0)
    (long : (i : ℕ) (n : Node) → get_elem? nodes i ≡ some n → length query ≤ length n.vector)
    (closed : (i : ℕ) (n : Node) → get_elem? nodes i ≡ some n → P i → All P (get_links n layer))
    (ef : ℕ) (pos : 0 < ef) where
  abbrev Found : List Item → Type 0
  Found h = All (IsFound f nodes query P) h

  abbrev Sound : Frontier → Type 0
  Sound = IsSound f nodes query P

  abbrev left_of : Frontier → ℕ
  left_of = waiting f nodes query P

  explored :
      (fuel : ℕ) (s : Frontier)
      → ((t : Frontier)
          → left_of t < fuel
          → Sound t
          → Returns Found (explore f nodes query fuel ef layer t))
      → left_of s < suc fuel
      → Sound s
      → (o : Option (Item × List Item)) → Popped (IsFound f nodes query P) o
      → PopsOne min_less s.candidates o
      → Returns Found (elim o [
        | none ↦ ok s.found
        | some (c, others) ↦ peek s.found >>= λ far.
            if float_less far.dist c.dist
            then ok s.found
            else expand f nodes query ef layer
                (get_elem? nodes c.id)
                (record s { candidates = others })
              >>= explore f nodes query fuel ef layer
      ])
  explored fuel s rec b v none a e = v.found
  explored fuel s rec b v (some (c, others)) a e =
      let t = record s { candidates = others } in
      let some_found : 0 < length s.found = v.some_found (omega (arith, e)) in
      let popped : Sound t = record {
        candidates = a.1;
        found = v.found;
        some_found = λ h. some_found;
      } in
      let next = expand f nodes query ef layer (get_elem? nodes c.id) t in
      Returns-bind (λ far. Unit {0}) Found (peek s.found)
        (λ far.
          if float_less far.dist c.dist
          then ok s.found
          else next >>= explore f nodes query fuel ef layer)
        (peek-Returns s.found some_found)
        (λ far _.
          Returns-if Found (float_less far.dist c.dist) (ok s.found)
            (next >>= explore f nodes query fuel ef layer) (λ far_off. v.found)
            (λ near.
              Returns-bind (Keeps f nodes query P t) Found next
                (explore f nodes query fuel ef layer)
                (expand-Keeps f nodes query layer P long closed ef pos c.id (get_elem? nodes c.id) t
                  refl a.0.1 popped some_found)
                (λ u k. rec u (omega (arith, k.rounds, b, e)) k.sound)))

  explore-Found :
      (fuel : ℕ) (s : Frontier)
      → left_of s < fuel
      → Sound s
      → Returns Found (explore f nodes query fuel ef layer s)
  unfolding explore
  explore-Found zero s b v = absurd (omega arith)
  explore-Found (suc fuel) s b v =
      explored fuel s (explore-Found fuel) b v (pop min_less s.candidates)
        (Popped-pop (IsFound f nodes query P) min_less s.candidates v.candidates)
        (pop-PopsOne min_less s.candidates)

  -- searchLayer returns, on a graph whose vectors are long enough, from entry points in P, which the
  -- links of the layer do not leave: every item that it found is a node in P, with its distance.
  pub search_layer-Found :
      (entries : List ℕ)
      → All P entries
      → Returns Found (search_layer f nodes query entries ef layer)
  unfolding search_layer
  search_layer-Found entries p =
      Returns-bind (Keeps f nodes query P start) Found (enter f nodes query entries start)
        (explore f nodes query (length nodes + 1) ef layer)
        (enter-Keeps f nodes query layer P long closed entries start p
          (record { candidates = tt; found = tt; some_found = λ h. h }))
        (λ s k.
          explore-Found (length nodes + 1) s
            (omega (arith, k.rounds, unvisited-le (length nodes) [])) k.sound)
