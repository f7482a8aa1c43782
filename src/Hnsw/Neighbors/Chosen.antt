-- ===== src/Hnsw/Neighbors/Chosen.antt =====
-- What selectNeighborsHeuristic chooses: candidates, and no more than m.
use hybrid_vector_cache_hnsw.Common.{
  ℕ, zero, suc, ◌≤◌, ◌≡◌, refl, Bool, true, false, Option, none, some, List, [], ◌∷◌, ◌++◌, arith,
  if◌then◌else◌, length, length-append, get_elem?, ltb, ltb→lt, Bool-cases, inl, inr,
}
use hybrid_vector_cache_hnsw.Common.Run.{ok, ◌>>=◌, or_panic, Returns, Returns-bind, Returns-if}
use hybrid_vector_cache_hnsw.Similarity.{Float, float_less}
use hybrid_vector_cache_hnsw.Heap.{push, pop}
use hybrid_vector_cache_hnsw.Heap.Items.{All, All-append, All-push, Popped, Popped-pop}
use hybrid_vector_cache_hnsw.Hnsw.{Node, Item, cosine_distance, min_less}
use hybrid_vector_cache_hnsw.Hnsw.Layer.{has}
use hybrid_vector_cache_hnsw.Hnsw.Layer.Found.{cosine_distance-total}
use hybrid_vector_cache_hnsw.Hnsw.Neighbors.{
  Working, Choice, no_items, add_item, gather, push_all, backfill, is_useful, choose_one, choose,
  select_from, select_neighbors_heuristic,
}

-- All vectors of a graph have one length.
abbrev pub IsDim : ℕ → List Node → Type 0
IsDim dim nodes = (i : ℕ) (n : Node) → get_elem? nodes i ≡ some n → length n.vector ≡ dim

module _ (Q : ℕ → Type 0) where
  abbrev Named : Item → Type 0
  Named x = Q x.id

  gather-All :
      (xs : List Item) (w : Working)
      → All Named xs
      → All Named w.heap
      → All Named (gather xs w).heap
  unfolding gather
  gather-All [] w a b = b
  gather-All (x ∷ xs) w a b =
      gather-All xs (if has w.seen x.id then w else add_item x w) a.1 (added (has w.seen x.id))
    where
      added : (old : Bool) → All Named (if old then w else add_item x w).heap
      added true = b
      added false = All-push Named min_less x w.heap a.0 b

  push_all-All : (xs h : List Item) → All Named xs → All Named h → All Named (push_all xs h)
  unfolding push_all
  push_all-All [] h a b = b
  push_all-All (x ∷ xs) h a b =
      push_all-All xs (push min_less x h) a.1 (All-push Named min_less x h a.0 b)

  module _ (m : ℕ) where
    abbrev pub IsChosen : List ℕ → Type 0
    IsChosen ids = All Q ids × (length ids ≤ m)

    concat-IsChosen :
        (ids : List ℕ) (i : ℕ)
        → IsChosen ids
        → Q i
        → ltb (length ids) m ≡ true
        → IsChosen (ids ++ i ∷ [])
    concat-IsChosen ids i c q r = (
      All-append Q ids (i ∷ []) c.0 (q, tt),
      omega (arith, length-append ids (i ∷ []), ltb→lt (length ids) m r),
    )

    backfill-IsChosen :
        (fuel : ℕ) (h : List Item) (ids : List ℕ)
        → All Named h
        → IsChosen ids
        → IsChosen (backfill fuel m h ids)
    unfolding backfill
    backfill-IsChosen zero h ids a c = c
    backfill-IsChosen (suc fuel) h ids a c = elim (Bool-cases (ltb (length ids) m)) [
      | inr full ↦ rw full c
      | inl room ↦
          rw room
            (filled (backfill-IsChosen fuel) room (pop min_less h) (Popped-pop Named min_less h a))
    ]
      where
        filled :
            ((g : List Item) (js : List ℕ)
              → All Named g
              → IsChosen js
              → IsChosen (backfill fuel m g js))
            → ltb (length ids) m ≡ true
            → (o : Option (Item × List Item)) → Popped Named o
            → IsChosen
                (elim o [ none ↦ ids | some (x, h') ↦ backfill fuel m h' (ids ++ x.id ∷ []) ])
        filled rec room none b = c
        filled rec room (some (x, h')) b =
            rec h' (ids ++ x.id ∷ []) b.1 (concat-IsChosen ids x.id c b.0 room)

    record IsGood (c : Choice) : Type 0 where
      result : IsChosen c.result
      discarded : All Named c.discarded

    module _ (f : Float) (nodes : List Node) (dim : ℕ) (dims : IsDim dim nodes) where
      is_useful-Returns :
          (vec : List ℕ) (d : ℕ) (ids : List ℕ)
          → length vec ≡ dim
          → Returns (λ b. Unit {0}) (is_useful f nodes vec d ids)
      unfolding is_useful
      is_useful-Returns vec d [] e = tt
      is_useful-Returns vec d (i ∷ ids) e =
          tested (get_elem? nodes i) refl (is_useful-Returns vec d ids e)
        where
          tested :
              (o : Option Node)
              → get_elem? nodes i ≡ o
              → Returns (λ b. Unit {0}) (is_useful f nodes vec d ids)
              → Returns
                  (λ b. Unit {0})
                  (elim o [
                    | none ↦ is_useful f nodes vec d ids
                    | some n ↦ or_panic (cosine_distance f vec n.vector) >>= λ e.
                        if float_less e d then ok false else is_useful f nodes vec d ids
                  ])
          tested none at rest = rest
          tested (some n) at rest =
              let (t, te) = cosine_distance-total f vec n.vector (omega (arith, dims i n at, e)) in
              rw te (
                Returns-if (λ b. Unit {0}) (float_less t d) (ok false) (is_useful f nodes vec d ids)
                  (λ far. tt) (λ near. rest))

      choose_one-IsGood :
          (x : Item) (o : Option Node) (c : Choice)
          → get_elem? nodes x.id ≡ o
          → Q x.id
          → ltb (length c.result) m ≡ true
          → IsGood c
          → Returns IsGood (choose_one f nodes x o c)
      unfolding choose_one
      choose_one-IsGood x none c at q room g = g
      choose_one-IsGood x (some n) c at q room g =
          Returns-bind (λ b. Unit {0}) IsGood (is_useful f nodes n.vector x.dist c.result)
            (λ useful. ok (
              if useful
              then record c { result = c.result ++ x.id ∷ [] }
              else record c { discarded = c.discarded ++ x ∷ [] }))
            (is_useful-Returns n.vector x.dist c.result (dims x.id n at))
            (λ useful _. chosen useful)
        where
          chosen :
              (useful : Bool)
              → IsGood (
                  if useful
                  then record c { result = c.result ++ x.id ∷ [] }
                  else record c { discarded = c.discarded ++ x ∷ [] })
          chosen true = record {
            result = concat-IsChosen c.result x.id g.result q room;
            discarded = g.discarded;
          }
          chosen false = record {
            result = g.result;
            discarded = All-append Named c.discarded (x ∷ []) g.discarded (q, tt);
          }

      choose-IsGood :
          (fuel : ℕ) (h : List Item) (c : Choice)
          → All Named h
          → IsGood c
          → Returns IsGood (choose f nodes fuel m h c)
      unfolding choose
      choose-IsGood zero h c a g = g
      choose-IsGood (suc fuel) h c a g = elim (Bool-cases (ltb (length c.result) m)) [
        | inr full ↦ rw full g
        | inl room ↦
            rw room
              (going (choose-IsGood fuel) room (pop min_less h) (Popped-pop Named min_less h a))
      ]
        where
          going :
              ((g : List Item) (d : Choice)
                → All Named g
                → IsGood d
                → Returns IsGood (choose f nodes fuel m g d))
              → ltb (length c.result) m ≡ true
              → (o : Option (Item × List Item)) → Popped Named o
              → Returns IsGood (elim o [
                | none ↦ ok c
                | some (x, h') ↦
                    choose_one f nodes x (get_elem? nodes x.id) c >>= choose f nodes fuel m h'
              ])
          going rec room none b = g
          going rec room (some (x, h')) b =
              Returns-bind IsGood IsGood (choose_one f nodes x (get_elem? nodes x.id) c)
                (choose f nodes fuel m h')
                (choose_one-IsGood x (get_elem? nodes x.id) c refl b.0 room g)
                (λ d e. rec h' d b.1 e)

      -- selectNeighborsHeuristic, as Insert calls it, returns on vectors of one length, and chooses at
      -- most m ids, all of them ids of candidates.
      pub select_neighbors-IsChosen :
          (query : List ℕ) (candidates : List Item) (layer : ℕ)
          → All Named candidates
          → Returns IsChosen
              (select_neighbors_heuristic f nodes query candidates m layer false true)
      unfolding select_neighbors_heuristic select_from
      select_neighbors-IsChosen query [] layer a = (tt, omega arith)
      select_neighbors-IsChosen query (x ∷ xs) layer a =
          let w = gather (x ∷ xs) no_items in
          let none_yet : Choice = record { result = []; discarded = [] } in
          Returns-bind IsGood IsChosen (choose f nodes (length w.heap) m w.heap none_yet)
            (λ c.
              ok (backfill (length (push_all c.discarded [])) m (push_all c.discarded []) c.result))
            (choose-IsGood (length w.heap) w.heap none_yet (gather-All (x ∷ xs) no_items a tt)
              (record { result = (tt, omega arith); discarded = tt }))
            (λ c g.
              backfill-IsChosen (length (push_all c.discarded [])) (push_all c.discarded [])
                c.result (push_all-All c.discarded [] g.discarded tt) g.result)
