-- ===== src/Hnsw/Insert/Shape.antt =====
-- What a change of links leaves alone: the nodes, their vectors and their layers.
use mathlib.Core.Path.{subst}
use hybrid_vector_cache_hnsw.Common.{
  ℕ, zero, suc, ◌<◌, ◌≡◌, refl, sym, ap, ◌∙◌, ◌⊎◌, inl, inr, Option, some, List, [], ◌∷◌, arith,
  length, length-set, get_elem?, set,
}
use hybrid_vector_cache_hnsw.Heap.Items.{All, All-map}
use hybrid_vector_cache_hnsw.Hnsw.{Node, or_nil, get_links, set_links}
use hybrid_vector_cache_hnsw.Hnsw.Insert.{change}

-- Two nodes that differ in their links alone, and have the same layers.
pub record Same (n m : Node) : Type 0 where
  pub id : n.id ≡ m.id
  pub vector : n.vector ≡ m.vector
  pub metadata : n.metadata ≡ m.metadata
  pub deleted : n.deleted ≡ m.deleted
  pub layers : length n.links ≡ length m.links

abbrev pub Alike : List Node → List Node → Type 0
Alike [] [] = Unit {0}
Alike [] (m ∷ ms) = ⊥
Alike (n ∷ ns) [] = ⊥
Alike (n ∷ ns) (m ∷ ms) = Same n m × Alike ns ms

pub Same-refl : (n : Node) → Same n n
Same-refl n = record { id = refl; vector = refl; metadata = refl; deleted = refl; layers = refl }

Same-sym : (n m : Node) → Same n m → Same m n
Same-sym n m s = record {
  id = sym s.id;
  vector = sym s.vector;
  metadata = sym s.metadata;
  deleted = sym s.deleted;
  layers = sym s.layers;
}

Same-trans : (n m o : Node) → Same n m → Same m o → Same n o
Same-trans n m o s t = record {
  id = s.id ∙ t.id;
  vector = s.vector ∙ t.vector;
  metadata = s.metadata ∙ t.metadata;
  deleted = s.deleted ∙ t.deleted;
  layers = s.layers ∙ t.layers;
}

pub Alike-refl : (ns : List Node) → Alike ns ns
Alike-refl [] = tt
Alike-refl (n ∷ ns) = (Same-refl n, Alike-refl ns)

pub Alike-sym : (ns ms : List Node) → Alike ns ms → Alike ms ns
Alike-sym [] [] a = tt
Alike-sym [] (m ∷ ms) a = a
Alike-sym (n ∷ ns) [] a = a
Alike-sym (n ∷ ns) (m ∷ ms) a = (Same-sym n m a.0, Alike-sym ns ms a.1)

pub Alike-trans : (ns ms os : List Node) → Alike ns ms → Alike ms os → Alike ns os
Alike-trans [] [] os a b = b
Alike-trans [] (m ∷ ms) os a b = absurd a
Alike-trans (n ∷ ns) [] os a b = absurd a
Alike-trans (n ∷ ns) (m ∷ ms) [] a b = b
Alike-trans (n ∷ ns) (m ∷ ms) (o ∷ os) a b =
    (Same-trans n m o a.0 b.0, Alike-trans ns ms os a.1 b.1)

pub Alike-get :
    (ns ms : List Node) (i : ℕ) (n : Node)
    → Alike ns ms
    → get_elem? ns i ≡ some n
    → (m : Node) × (get_elem? ms i ≡ some m) × Same n m
Alike-get [] ms i n a e = cc
Alike-get (x ∷ ns) [] i n a e = absurd a
Alike-get (x ∷ ns) (m ∷ ms) zero n a e =
    let same : x ≡ n = cc in (m, refl, subst (λ (y : Node). Same y m) same a.0)
Alike-get (x ∷ ns) (m ∷ ms) (suc i) n a e = Alike-get ns ms i n a.1 e

pub length-Alike : (ns ms : List Node) → Alike ns ms → length ns ≡ length ms
length-Alike [] [] a = refl
length-Alike [] (m ∷ ms) a = absurd a
length-Alike (n ∷ ns) [] a = absurd a
length-Alike (n ∷ ns) (m ∷ ms) a = ap suc (length-Alike ns ms a.1)

-- A node with a layer.
pub record HasLayer (nodes : List Node) (l i : ℕ) : Type 0 where
  pub node : Node
  pub at : get_elem? nodes i ≡ some node
  pub deep : l < length node.links

pub Alike-HasLayer : (ns ms : List Node) (l i : ℕ) → Alike ns ms → HasLayer ns l i → HasLayer ms l i
Alike-HasLayer ns ms l i a h =
    let (m, at, same) = Alike-get ns ms i h.node a h.at in
    record { node = m; at = at; deep = omega (arith, h.deep, same.layers) }

-- Every link of a layer leads to a node that has the layer.
abbrev pub IsLinked : List Node → Type 0
IsLinked nodes =
    (l i : ℕ) (n : Node) → get_elem? nodes i ≡ some n → All (HasLayer nodes l) (get_links n l)

pub change-Alike :
    (nodes : List Node) (i : ℕ) (g : Node → Node)
    → ((n : Node) → Same n (g n))
    → Alike nodes (change nodes i g)
unfolding change
change-Alike [] i g s = tt
change-Alike (n ∷ ns) zero g s = (s n, Alike-refl ns)
change-Alike (n ∷ ns) (suc i) g s = (Same-refl n, change-Alike ns i g s)

pub Same-set_links : (l : ℕ) (ids : List ℕ) (n : Node) → Same n (set_links l ids n)
unfolding set_links
Same-set_links l ids n = record {
  id = refl;
  vector = refl;
  metadata = refl;
  deleted = refl;
  layers = sym (length-set n.links l ids);
}

-- A read behind a change gives what was there, or the changed node.
pub get_elem?-change :
    (nodes : List Node) (a i : ℕ) (g : Node → Node)
    → (get_elem? (change nodes a g) i ≡ get_elem? nodes i)
      ⊎ ((n : Node) × (a ≡ i)
          × (get_elem? nodes i ≡ some n)
          × (get_elem? (change nodes a g) i ≡ some (g n)))
unfolding change
get_elem?-change [] a i g = inl refl
get_elem?-change (n ∷ ns) zero zero g = inr (n, refl, refl, refl)
get_elem?-change (n ∷ ns) zero (suc i) g = inl refl
get_elem?-change (n ∷ ns) (suc a) zero g = inl refl
get_elem?-change (n ∷ ns) (suc a) (suc i) g = elim (get_elem?-change ns a i g) [
  | inl e ↦ inl e
  | inr (m, e, at, at') ↦ inr (m, ap suc e, at, at')
]

get_elem?-set {ℓ} :
    {A : Type ℓ} (xs : List A) (i j : ℕ) (v : A)
    → (get_elem? (set xs i v) j ≡ get_elem? xs j) ⊎ ((i ≡ j) × (get_elem? (set xs i v) j ≡ some v))
get_elem?-set [] i j v = inl refl
get_elem?-set (x ∷ xs) zero zero v = inr (refl, refl)
get_elem?-set (x ∷ xs) zero (suc j) v = inl refl
get_elem?-set (x ∷ xs) (suc i) zero v = inl refl
get_elem?-set (x ∷ xs) (suc i) (suc j) v = elim (get_elem?-set xs i j v) [
  | inl e ↦ inl e
  | inr (e, at) ↦ inr (ap suc e, at)
]

get_links-set_links :
    (P : ℕ → Type 0) (l k : ℕ) (ids : List ℕ) (n : Node)
    → (l ≡ k → All P ids)
    → All P (get_links n k)
    → All P (get_links (set_links l ids n) k)
unfolding get_links set_links
get_links-set_links P l k ids n new old = elim (get_elem?-set n.links l k ids) [
  | inl e ↦ subst (λ (o : Option (List ℕ)). All P (or_nil o)) (sym e) old
  | inr (same, e) ↦ subst (λ (o : Option (List ℕ)). All P (or_nil o)) (sym e) (new same)
]

some_inj : {A : Type 0} {x y : A} → ◌≡◌ {A = Option A} (some x) (some y) → x ≡ y
some_inj e = cc

-- New links of a layer, to nodes that have it, keep the graph linked.
pub change-IsLinked :
    (nodes : List Node) (at l : ℕ) (ids : List ℕ)
    → IsLinked nodes
    → All (HasLayer nodes l) ids
    → IsLinked (change nodes at (set_links l ids))
change-IsLinked nodes at l ids linked a k i n e =
    let g = set_links l ids in
    let alike = change-Alike nodes at g (Same-set_links l ids) in
    let old : All (HasLayer nodes k) (get_links n k) = elim (get_elem?-change nodes at i g) [
      | inl same ↦ linked k i n (sym same ∙ e)
      | inr (m, here, was, is) ↦
          let same : g m ≡ n = some_inj (sym is ∙ e) in
          subst (λ (x : Node). All (HasLayer nodes k) (get_links x k)) same
            (get_links-set_links (HasLayer nodes k) l k ids m
              (λ layer. subst (λ j. All (HasLayer nodes j) ids) layer a) (linked k i m was))
    ] in
    All-map (HasLayer nodes k) (HasLayer (change nodes at g) k)
      (λ j. Alike-HasLayer nodes (change nodes at g) k j alike) (get_links n k) old
