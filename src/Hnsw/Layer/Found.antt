-- ===== src/Hnsw/Layer/Found.antt =====
-- One round of searchLayer: every item in its heaps is a node with its distance, and the rounds that
-- are left get fewer.
use hybrid_vector_cache_hnsw.Common.{
  ℕ, ◌+◌, ◌≤◌, ◌<◌, ◌≡◌, refl, Bool, true, false, Option, none, some, List, [], ◌∷◌, arith, ltb→lt,
  if◌then◌else◌, length, get_elem?, get_elem?-lt, ltb, ◌||◌, Bool-cases, inl, inr,
}
use hybrid_vector_cache_hnsw.Common.Run.{ok, ◌>>=◌, Returns, Returns-bind, Returns-map, Returns-if}
use hybrid_vector_cache_hnsw.Similarity.{Float, Sums, zero_sums, add_products, float_less}
use hybrid_vector_cache_hnsw.Heap.{push, pop}
use hybrid_vector_cache_hnsw.Heap.Items.{All, Popped, All-push, Popped-pop}
use hybrid_vector_cache_hnsw.Heap.Keeps.{length-push, PopsOne, pop-PopsOne}
use hybrid_vector_cache_hnsw.Hnsw.{
  Node, Item, get_links, distance_sums, distance_by, cosine_distance, min_less, max_less,
}
use hybrid_vector_cache_hnsw.Hnsw.Layer.{
  Frontier, visit, push_both, rest_of, trim, peek, has, enter_new, enter, reach_new, reach, expand,
}
use hybrid_vector_cache_hnsw.Hnsw.Layer.Visited.{unvisited, unvisited-visit_le, unvisited-visit_lt}

-- A distance from a vector that is long enough is defined.
distance_sums-total :
    (f : Float) (a b : List ℕ) (s : Sums)
    → length a ≤ length b
    → (t : Sums) × (distance_sums f a b s ≡ some t)
unfolding distance_sums
distance_sums-total f [] b s h = (s, refl)
distance_sums-total f (x ∷ a) [] s h = absurd (omega arith)
distance_sums-total f (x ∷ a) (y ∷ b) s h =
    distance_sums-total f a b (add_products f x y s) (omega arith)

pub cosine_distance-total :
    (f : Float) (a b : List ℕ) → length a ≤ length b → (d : ℕ) × (cosine_distance f a b ≡ some d)
unfolding cosine_distance
cosine_distance-total f a b h =
    let (t, e) = distance_sums-total f a b zero_sums h in
    (distance_by f t, rw (e, cosine_distance) refl)

-- An item that is a node, with the distance of the query from the node.
pub record IsMeasured (f : Float) (nodes : List Node) (query : List ℕ) (x : Item) : Type 0 where
  pub node : Node
  pub at : get_elem? nodes x.id ≡ some node
  pub dist : cosine_distance f query node.vector ≡ some x.dist

module _ (f : Float) (nodes : List Node) (query : List ℕ) (P : ℕ → Type 0) where
  -- An item of the search: measured, and its id in P.
  abbrev pub IsFound : Item → Type 0
  IsFound x = IsMeasured f nodes query x × P x.id

  pub record IsSound (s : Frontier) : Type 0 where
    pub candidates : All IsFound s.candidates
    pub found : All IsFound s.found
    pub some_found : 0 < length s.candidates → 0 < length s.found

  -- The rounds that a search can still make.
  abbrev pub waiting : Frontier → ℕ
  waiting s = length s.candidates + unvisited (length nodes) s.visited

  -- What a step keeps: the rounds do not grow, and what was found is not lost altogether.
  pub record Keeps (s s' : Frontier) : Type 0 where
    pub sound : IsSound s'
    pub rounds : waiting s' ≤ waiting s
    pub kept : 0 < length s.found → 0 < length s'.found

module _ (f : Float) (nodes : List Node) (query : List ℕ) (layer : ℕ) (P : ℕ → Type 0)
    (long : (i : ℕ) (n : Node) → get_elem? nodes i ≡ some n → length query ≤ length n.vector)
    (closed : (i : ℕ) (n : Node)
      → get_elem? nodes i ≡ some n
      → P i
      → All P (get_links n layer)) where
  abbrev Found : Item → Type 0
  Found = IsFound f nodes query P

  abbrev Sound : Frontier → Type 0
  Sound = IsSound f nodes query P

  abbrev Kept : Frontier → Frontier → Type 0
  Kept = Keeps f nodes query P

  visit-Keeps : (i : ℕ) (s : Frontier) → Sound s → Kept s (visit i s)
  visit-Keeps i s v = record {
    sound = record { candidates = v.candidates; found = v.found; some_found = v.some_found };
    rounds = omega (arith, unvisited-visit_le (length nodes) i s.visited);
    kept = λ h. h;
  }

  -- A new item in both heaps.
  push_both-Keeps :
      (x : Item) (s : Frontier)
      → Sound s
      → Found x
      → has s.visited x.id ≡ false
      → Kept s (push_both x (visit x.id s)) × (0 < length (push_both x (visit x.id s)).found)
  unfolding push_both
  push_both-Keeps x s v m new =
      let b : x.id < length nodes = get_elem?-lt nodes x.id m.0.node m.0.at in
      let some_found : 0 < length (push max_less x s.found) =
        omega (arith, length-push max_less x s.found) in
      (
        record {
          sound = record {
            candidates = All-push Found min_less x s.candidates m v.candidates;
            found = All-push Found max_less x s.found m v.found;
            some_found = λ h. some_found;
          };
          rounds = omega (
            arith,
            unvisited-visit_lt (length nodes) x.id s.visited b new,
            length-push min_less x s.candidates,
          );
          kept = λ h. some_found;
        },
        some_found,
      )

  trim-Keeps : (ef : ℕ) (s : Frontier) → 0 < ef → Sound s → Kept s (trim ef s)
  unfolding trim
  trim-Keeps ef s pos v = elim (Bool-cases (ltb ef (length s.found))) [
    | inr fits ↦ rw fits (record { sound = v; rounds = omega arith; kept = λ h. h })
    | inl over ↦ rw over (
        trimmed (ltb→lt ef (length s.found) over) (pop max_less s.found)
          (Popped-pop Found max_less s.found v.found) (pop-PopsOne max_less s.found))
  ]
    where
      trimmed :
          ef < length s.found
          → (o : Option (Item × List Item)) → Popped Found o
          → PopsOne max_less s.found o
          → Kept s (record s { found = rest_of o })
      trimmed b none a e = absurd (omega (arith, b, e))
      trimmed b (some (x, h)) a e =
          let left : 0 < length h = omega (arith, b, e, pos) in
          record {
            sound = record { candidates = v.candidates; found = a.1; some_found = λ c. left };
            rounds = omega arith;
            kept = λ c. left;
          }

  Keeps-trans : (s t u : Frontier) → Kept s t → Kept t u → Kept s u
  Keeps-trans s t u k l = record {
    sound = l.sound;
    rounds = omega (arith, k.rounds, l.rounds);
    kept = λ h. l.kept (k.kept h);
  }

  Keeps-refl : (s : Frontier) → Sound s → Kept s s
  Keeps-refl s v = record { sound = v; rounds = omega arith; kept = λ h. h }

  distance_to-total :
      (i : ℕ) (n : Node)
      → get_elem? nodes i ≡ some n
      → (d : ℕ) × (cosine_distance f query n.vector ≡ some d)
  distance_to-total i n e = cosine_distance-total f query n.vector (long i n e)

  enter_new-Keeps :
      (i : ℕ) (o : Option Node) (s : Frontier)
      → get_elem? nodes i ≡ o
      → P i
      → Sound s
      → has s.visited i ≡ false
      → Returns (Kept s) (enter_new f nodes query i o s)
  unfolding enter_new
  enter_new-Keeps i none s e p v new = visit-Keeps i s v
  enter_new-Keeps i (some n) s e p v new =
      let (d, de) = distance_to-total i n e in
      rw de (
        (push_both-Keeps (record { id = i; dist = d }) s v
          (record { node = n; at = e; dist = de }, p) new).0)

  pub enter-Keeps :
      (ids : List ℕ) (s : Frontier)
      → All P ids
      → Sound s
      → Returns (Kept s) (enter f nodes query ids s)
  unfolding enter
  enter-Keeps [] s p v = Keeps-refl s v
  enter-Keeps (i ∷ ids) s p v =
      Returns-bind (Kept s) (Kept s)
        (if has s.visited i then ok s else enter_new f nodes query i (get_elem? nodes i) s)
        (enter f nodes query ids)
        (Returns-if (Kept s) (has s.visited i) (ok s)
          (enter_new f nodes query i (get_elem? nodes i) s) (λ old. Keeps-refl s v)
          (λ new. enter_new-Keeps i (get_elem? nodes i) s refl p.0 v new))
        (λ t k.
          Returns-map (Kept t) (Kept s) (enter f nodes query ids t) (enter-Keeps ids t p.1 k.sound)
            (λ u l. Keeps-trans s t u k l))

  module _ (ef : ℕ) (pos : 0 < ef) where
    -- A neighbour that is kept, or only marked as visited.
    offered-Keeps :
        (x : Item) (s : Frontier) (room : Bool)
        → Found x
        → Sound s
        → has s.visited x.id ≡ false
        → Kept s (if room then trim ef (push_both x (visit x.id s)) else visit x.id s)
    offered-Keeps x s false m v new = visit-Keeps x.id s v
    offered-Keeps x s true m v new =
        let (pushed, h) = push_both-Keeps x s v m new in
        let t = push_both x (visit x.id s) in
        Keeps-trans s t (trim ef t) pushed (trim-Keeps ef t pos pushed.sound)

    reach_found :
        (i d : ℕ) (s : Frontier) (found : List Item)
        → s.found ≡ found
        → 0 < length found
        → ((far : Item)
            → Kept s (
                if ltb (length s.found) ef || float_less d far.dist
                then trim ef (push_both (record { id = i; dist = d }) (visit i s))
                else visit i s))
        → Returns (Kept s) (
            peek found >>= λ far. ok (
              if ltb (length s.found) ef || float_less d far.dist
              then trim ef (push_both (record { id = i; dist = d }) (visit i s))
              else visit i s))
    reach_found i d s [] e h k = absurd (omega arith)
    reach_found i d s (far ∷ rest) e h k = k far

    reach_new-Keeps :
        (i : ℕ) (o : Option Node) (s : Frontier)
        → get_elem? nodes i ≡ o
        → P i
        → Sound s
        → 0 < length s.found
        → has s.visited i ≡ false
        → Returns (Kept s) (reach_new f nodes query ef i o s)
    unfolding reach_new
    reach_new-Keeps i none s e p v h new = visit-Keeps i s v
    reach_new-Keeps i (some n) s e p v h new =
        let (d, de) = distance_to-total i n e in
        rw de (
          reach_found i d s s.found refl h (λ far.
            offered-Keeps (record { id = i; dist = d }) s
              (ltb (length s.found) ef || float_less d far.dist)
              (record { node = n; at = e; dist = de }, p) v new))

    reach-Keeps :
        (ids : List ℕ) (s : Frontier)
        → All P ids
        → Sound s
        → 0 < length s.found
        → Returns (Kept s) (reach f nodes query ef ids s)
    unfolding reach
    reach-Keeps [] s p v h = Keeps-refl s v
    reach-Keeps (i ∷ ids) s p v h =
        Returns-bind (Kept s) (Kept s)
          (if has s.visited i then ok s else reach_new f nodes query ef i (get_elem? nodes i) s)
          (reach f nodes query ef ids)
          (Returns-if (Kept s) (has s.visited i) (ok s)
            (reach_new f nodes query ef i (get_elem? nodes i) s) (λ old. Keeps-refl s v)
            (λ new. reach_new-Keeps i (get_elem? nodes i) s refl p.0 v h new))
          (λ t k.
            Returns-map (Kept t) (Kept s) (reach f nodes query ef ids t)
              (reach-Keeps ids t p.1 k.sound (k.kept h)) (λ u l. Keeps-trans s t u k l))

    pub expand-Keeps :
        (i : ℕ) (o : Option Node) (s : Frontier)
        → get_elem? nodes i ≡ o
        → P i
        → Sound s
        → 0 < length s.found
        → Returns (Kept s) (expand f nodes query ef layer o s)
    unfolding expand
    expand-Keeps i none s e p v h = Keeps-refl s v
    expand-Keeps i (some n) s e p v h = reach-Keeps (get_links n layer) s (closed i n e p) v h
