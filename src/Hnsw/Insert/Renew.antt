-- ===== src/Hnsw/Insert/Renew.antt =====
-- A new vector and new metadata for a node that is there.
use mathlib.Core.Path.{subst}
use hybrid_vector_cache_hnsw.Common.{
  ℕ, zero, suc, ◌≡◌, ◌≢◌, refl, sym, ap, ◌∙◌, inl, inr, Option, some, List, [], ◌∷◌, arith, length,
  get_elem?,
}
use hybrid_vector_cache_hnsw.Common.Bytes.{Bytes}
use hybrid_vector_cache_hnsw.Common.Dict.{Dict}
use hybrid_vector_cache_hnsw.Heap.Items.{All, All-map}
use hybrid_vector_cache_hnsw.Hnsw.{Node, get_links}
use hybrid_vector_cache_hnsw.Hnsw.Keys.{AreMapped}
use hybrid_vector_cache_hnsw.Hnsw.Neighbors.Chosen.{IsDim}
use hybrid_vector_cache_hnsw.Hnsw.Insert.{change}
use hybrid_vector_cache_hnsw.Hnsw.Insert.Shape.{get_elem?-change, HasLayer, IsLinked}

pub length-change :
    (nodes : List Node) (i : ℕ) (g : Node → Node) → length (change nodes i g) ≡ length nodes
unfolding change
length-change [] i g = refl
length-change (n ∷ ns) zero g = refl
length-change (n ∷ ns) (suc i) g = ap suc (length-change ns i g)

pub get_elem?-change_self :
    (nodes : List Node) (i : ℕ) (g : Node → Node) (n : Node)
    → get_elem? nodes i ≡ some n
    → get_elem? (change nodes i g) i ≡ some (g n)
unfolding change
get_elem?-change_self [] i g n e = cc
get_elem?-change_self (x ∷ ns) zero g n e = cc
get_elem?-change_self (x ∷ ns) (suc i) g n e = get_elem?-change_self ns i g n e

pub get_elem?-change_other :
    (nodes : List Node) (i j : ℕ) (g : Node → Node)
    → i ≢ j
    → get_elem? (change nodes i g) j ≡ get_elem? nodes j
unfolding change
get_elem?-change_other [] i j g h = refl
get_elem?-change_other (x ∷ ns) zero zero g h = absurd (h refl)
get_elem?-change_other (x ∷ ns) zero (suc j) g h = refl
get_elem?-change_other (x ∷ ns) (suc i) zero g h = refl
get_elem?-change_other (x ∷ ns) (suc i) (suc j) g h =
    get_elem?-change_other ns i j g (λ e. h (ap suc e))

same_node : {n m : Node} → ◌≡◌ {A = Option Node} (some n) (some m) → n ≡ m
same_node e = cc

-- A change of a node that leaves its links, and puts a vector of the same length in place.
module _ (dim : ℕ) (id : ℕ) (vec : List ℕ) (meta : Dict Bytes) (size : length vec ≡ dim) where
  abbrev pub renew : Node → Node
  renew n = record n { vector = vec; metadata = meta }

  pub renew-HasLayer :
      (nodes : List Node) (l i : ℕ) → HasLayer nodes l i → HasLayer (change nodes id renew) l i
  renew-HasLayer nodes l i h = elim (get_elem?-change nodes id i renew) [
    | inl e ↦ record { node = h.node; at = e ∙ h.at; deep = h.deep }
    | inr (n, here, was, is) ↦
        let e : n ≡ h.node = same_node (sym was ∙ h.at) in
        record {
          node = renew n;
          at = is;
          deep = omega (arith, h.deep, ap (λ (m : Node). length m.links) e);
        }
  ]

  pub renew-IsDim : (nodes : List Node) → IsDim dim nodes → IsDim dim (change nodes id renew)
  renew-IsDim nodes d i n e = elim (get_elem?-change nodes id i renew) [
    | inl keep ↦ d i n (sym keep ∙ e)
    | inr (m, here, was, is) ↦
        ap (λ (x : Node). length x.vector) (sym (same_node (sym is ∙ e))) ∙ size
  ]

  pub renew-IsLinked : (nodes : List Node) → IsLinked nodes → IsLinked (change nodes id renew)
  renew-IsLinked nodes linked l i n e =
      let old : All (HasLayer nodes l) (get_links n l) = elim (get_elem?-change nodes id i renew) [
        | inl keep ↦ linked l i n (sym keep ∙ e)
        | inr (m, here, was, is) ↦
            subst (λ (x : Node). All (HasLayer nodes l) (get_links x l)) (same_node (sym is ∙ e))
              (unfold get_links in linked l i m was)
      ] in
      All-map (HasLayer nodes l) (HasLayer (change nodes id renew) l) (renew-HasLayer nodes l)
        (get_links n l) old

  pub renew-AreMapped :
      (nodes : List Node) (id_map : Dict ℕ) (names : List Bytes)
      → AreMapped nodes id_map names
      → AreMapped (change nodes id renew) id_map names
  renew-AreMapped nodes id_map names v = record {
    same_size = v.same_size ∙ sym (length-change nodes id renew);
    owner = λ i n key at named live. elim (get_elem?-change nodes id i renew) [
      | inl keep ↦ v.owner i n key (sym keep ∙ at) named live
      | inr (m, here, was, is) ↦
          v.owner i m key was named (ap (λ (x : Node). x.deleted) (same_node (sym is ∙ at)) ∙ live)
    ];
    owned = λ key i found.
        let (n, at, live, named) = v.owned key i found in
        elim (get_elem?-change nodes id i renew) [
          | inl keep ↦ (n, keep ∙ at, live, named)
          | inr (m, here, was, is) ↦
              (renew m, is, ap (λ (x : Node). x.deleted) (same_node (sym was ∙ at)) ∙ live, named)
        ];
  }
