-- ===== src/Hnsw/Snapshot/Nodes.antt =====
-- The nodes of a snapshot: what is written is read back.
use mathlib.Core.Path.{subst}
use hybrid_vector_cache_hnsw.Common.{
  ℕ, suc, ◌+◌, ◌^◌, ◌<◌, ◌≤◌, ◌≡◌, refl, sym, ap, ◌∙◌, false, Option, none, some, List, [], ◌∷◌,
  ◌++◌, map, arith, length, set, length-append,
}
use hybrid_vector_cache_hnsw.Common.Bytes.{Bytes}
use hybrid_vector_cache_hnsw.Common.Run.{ok, Returns, Returns-bind, Returns-map}
use hybrid_vector_cache_hnsw.Heap.Items.{All}
use hybrid_vector_cache_hnsw.Hnsw.{Node, new_node}
use hybrid_vector_cache_hnsw.Hnsw.Snapshot.{
  Json, put_word, put_words, put_text, put_layers, put_node, put_nodes, top_layer,
}
use hybrid_vector_cache_hnsw.Hnsw.Snapshot.Load.{
  got, get_layers, get_node, get_nodes, fill, no_nodes, all_nodes,
}
use hybrid_vector_cache_hnsw.Hnsw.Snapshot.Words.{
  IsWord, IsShort, get_word-put_word, get_words-put_words, get_text-put_text, get_layers-put_layers,
}

-- A node without its tombstone, as it is read back.
abbrev pub revive : Node → Node
revive n = record n { deleted = false }

-- A node that fits the format.
pub record IsSaved (json : Json) (n : Node) : Type 0 where
  pub id : IsWord n.id
  pub layered : 0 < length n.links
  pub layers : length n.links ≤ 2 ^ 32
  pub dim : IsWord (length n.vector)
  pub bits : All IsWord n.vector
  pub described : json.unmarshal (json.marshal n.metadata) ≡ some n.metadata
  pub brief : IsWord (length (json.marshal n.metadata))
  pub linked : All IsShort n.links

-- The ids count up from i.
abbrev pub IsNumbered : ℕ → List Node → Type 0
IsNumbered i [] = Unit {0}
IsNumbered i (n ∷ ns) = (n.id ≡ i) × IsNumbered (i + 1) ns

-- The slots of nodes that are read, before others.
abbrev pub slots_of : List Node → List (Option Node) → List (Option Node)
slots_of [] slots = slots
slots_of (n ∷ ns) slots = some n ∷ slots_of ns slots

slots_of-concat :
    (ns : List Node) (n : Node) (slots : List (Option Node))
    → slots_of (ns ++ n ∷ []) slots ≡ slots_of ns (some n ∷ slots)
slots_of-concat [] n slots = refl
slots_of-concat (m ∷ ns) n slots = ap (λ s. some m ∷ s) (slots_of-concat ns n slots)

set-slots_of :
    (ns : List Node) (n : Node) (slots : List (Option Node))
    → set (slots_of ns (none ∷ slots)) (length ns) (some n) ≡ slots_of ns (some n ∷ slots)
set-slots_of [] n slots = refl
set-slots_of (m ∷ ns) n slots = ap (λ s. some m ∷ s) (set-slots_of ns n slots)

length-slots_of :
    (ns : List Node) (slots : List (Option Node))
    → length (slots_of ns slots) ≡ length ns + length slots
length-slots_of [] slots = omega arith
length-slots_of (m ∷ ns) slots = omega (arith, length-slots_of ns slots)

pub all_nodes-slots_of : (ns : List Node) → all_nodes (slots_of ns []) ≡ some ns
unfolding all_nodes
all_nodes-slots_of [] = refl
all_nodes-slots_of (n ∷ ns) = rw (all_nodes-slots_of ns) refl

fill-slots_of :
    (ns : List Node) (n : Node) (slots : List (Option Node)) (text : Bytes) (i : ℕ)
    → i ≡ length ns
    → fill i n (slots_of ns (none ∷ slots)) text ≡ got (slots_of (ns ++ n ∷ []) slots) text
unfolding fill
fill-slots_of ns n slots text i e = ground (
  arith,
  e,
  length-slots_of ns (none ∷ slots),
  set-slots_of ns n slots,
  slots_of-concat ns n slots,
)

suc-top_layer :
    (n : Node) → 0 < length n.links → length n.links ≤ 2 ^ 32 → suc (top_layer n) ≡ length n.links
unfolding top_layer
suc-top_layer n h le = omega (arith, h, le)

layers_back :
    (n : Node) (rest : Bytes)
    → 0 < length n.links
    → length n.links ≤ 2 ^ 32
    → All IsShort n.links
    → Returns
        (λ text. get_layers (suc (top_layer n)) text ≡ got n.links rest)
        (put_layers (suc (top_layer n)) n.links rest)
layers_back n rest h le a =
    subst (λ k. Returns (λ text. get_layers k text ≡ got n.links rest) (put_layers k n.links rest))
      (sym (suc-top_layer n h le)) (get_layers-put_layers n.links rest a)

module _ (json : Json) where
  get_node-put_node :
      (n : Node) (rest : Bytes)
      → IsSaved json n
      → Returns (λ text. get_node json text ≡ got (revive n) rest) (put_node json n rest)
  unfolding get_node put_node new_node
  get_node-put_node n rest v =
      let text = json.marshal n.metadata in
      let top = top_layer n in
      Returns-bind (λ t. get_layers (suc top) t ≡ got n.links rest)
        (λ t. get_node json t ≡ got (revive n) rest) (put_layers (suc top) n.links rest)
        (λ t. ok (
          put_word n.id
            (put_word top (put_word (length n.vector) (put_words n.vector (put_text text t))))))
        (layers_back n rest v.layered v.layers v.linked)
        (λ t e.
          rw
            (
              get_word-put_word n.id
                  (put_word top (put_word (length n.vector) (put_words n.vector (put_text text t))))
                  v.id,
              get_word-put_word top
                  (put_word (length n.vector) (put_words n.vector (put_text text t)))
                  (unfold top_layer in omega arith),
              get_word-put_word (length n.vector) (put_words n.vector (put_text text t)) v.dim,
              get_words-put_words n.vector (put_text text t) v.bits,
              get_text-put_text text t v.brief,
              v.described,
              e,
            )
            refl)

  pub get_nodes-put_nodes :
      (ns done : List Node) (rest : Bytes)
      → All (IsSaved json) ns
      → IsNumbered (length done) ns
      → Returns
          (λ text.
            get_nodes json (length ns) (slots_of done (no_nodes (length ns))) text
            ≡ got (slots_of done (slots_of (map revive ns) [])) rest)
          (put_nodes json ns rest)
  unfolding get_nodes put_nodes no_nodes
  get_nodes-put_nodes [] done rest a i = refl
  get_nodes-put_nodes (n ∷ ns) done rest a i =
      let grown = done ++ revive n ∷ [] in
      let slots = no_nodes (length ns) in
      let last = slots_of (map revive ns) [] in
      Returns-bind
        (λ text.
          get_nodes json (length ns) (slots_of grown slots) text ≡ got (slots_of grown last) rest)
        (λ text.
          get_nodes json (suc (length ns)) (slots_of done (none ∷ slots)) text
          ≡ got (slots_of done (some (revive n) ∷ last)) rest)
        (put_nodes json ns rest) (put_node json n)
        (get_nodes-put_nodes ns grown rest a.1
          (subst (λ k. IsNumbered k ns) (omega (arith, length-append done (revive n ∷ []))) i.1))
        (λ text e.
          Returns-map (λ t. get_node json t ≡ got (revive n) text)
            (λ t.
              get_nodes json (suc (length ns)) (slots_of done (none ∷ slots)) t
              ≡ got (slots_of done (some (revive n) ∷ last)) rest)
            (put_node json n text) (get_node-put_node n text a.0)
            (λ t read.
              rw (read, fill-slots_of done (revive n) slots text n.id i.0)
                (e ∙ ap (λ l. got l rest) (slots_of-concat done (revive n) last))))
