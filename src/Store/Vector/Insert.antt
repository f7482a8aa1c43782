-- ===== src/Store/Vector/Insert.antt =====
-- VSET and VMSET: the entry that is stored, the errors, and a batch as a row of single calls.
use hybrid_vector_cache_hnsw.Common.{
  ℕ, zero, suc, sym, ◌+◌, ◌≡◌, ◌≢◌, refl, ap, Bool, true, false, not, ◌&&◌, Option, none, some,
  List, [], ◌∷◌, arith, ◌∙◌, if◌then◌else◌, length, inl, inr, Option-cases,
}
use hybrid_vector_cache_hnsw.Common.Int.{ℤ, pos, negsuc, ◌+ℤ◌}
use hybrid_vector_cache_hnsw.Common.Bytes.{Bytes, same, same_iff}
use hybrid_vector_cache_hnsw.Common.Dict.{lookup, insert, lookup-insert, insert-insert}
use hybrid_vector_cache_hnsw.Common.Dict.Sweep.{keep_if}
use hybrid_vector_cache_hnsw.Store.{
  Store, VectorEntry, VectorNamespace, vector_expired, new_namespace,
}
use hybrid_vector_cache_hnsw.Store.Vector.{
  dimension_mismatch, BatchEntry, vset_with_ttl, new_entry, get_or_create_namespace, put_namespace,
  batch_entry, vmset_loop, vmset,
}
use hybrid_vector_cache_hnsw.Store.Vector.View.{vector_view, find_entry}

-- The namespace that a write finds or makes.
abbrev pub or_new : Option VectorNamespace → VectorNamespace
or_new none = new_namespace
or_new (some ns) = ns

-- The namespace after a VSetWithTTL.
abbrev stored : Bytes → BatchEntry → ℤ → ℤ → Store → VectorNamespace
stored namespace b ttl now s =
    let ns = or_new (lookup namespace s.vectors) in
    record ns { entries = insert b.id (new_entry b ttl now ns) ns.entries }

-- A successful VSetWithTTL writes one namespace of the map.
pub vset_with_ttl_lem :
    (namespace : Bytes) (dim : ℕ) (b : BatchEntry) (ttl now : ℤ) (s : Store)
    → length b.vector ≡ dim
    → vset_with_ttl namespace dim b ttl now s
      ≡ (none, put_namespace namespace (stored namespace b ttl now s) s)
unfolding vset_with_ttl
vset_with_ttl_lem namespace dim b ttl now s h = elim (Option-cases (lookup namespace s.vectors)) [
  | inl e ↦
      ground (arith, insert-insert namespace new_namespace (stored namespace b ttl now s) s.vectors)
  | inr (ns, e) ↦ ground arith
]

lookup-new_namespace : (j : Bytes) → lookup j new_namespace.entries ≡ none
unfolding lookup
lookup-new_namespace j = refl

find_entry-stored :
    (namespace n j : Bytes) (b : BatchEntry) (ttl now : ℤ) (s : Store)
    → find_entry (lookup n (insert namespace (stored namespace b ttl now s) s.vectors)) j ≡ (
        if same namespace n && same b.id j
        then some (new_entry b ttl now (or_new (lookup namespace s.vectors)))
        else find_entry (lookup n s.vectors) j)
find_entry-stored namespace n j b ttl now s =
    let ns = or_new (lookup namespace s.vectors) in
    ground (
      arith,
      lookup-insert namespace n (stored namespace b ttl now s) s.vectors,
      lookup-insert b.id j (new_entry b ttl now ns) ns.entries,
      same_iff namespace n,
      lookup-new_namespace j,
    )

keep_if-if :
    {V : Type 0} (p : V → Bool) (b : Bool) (x y : Option V)
    → keep_if p (if b then x else y) ≡ (if b then keep_if p x else keep_if p y)
keep_if-if p true x y = refl
keep_if-if p false x y = refl

-- The deadline of a write: behind its own TTL, if that is positive; for a TTL of 0 behind the default
-- of the namespace, if it has one; none for a negative TTL.
abbrev pub deadline : ℤ → ℤ → VectorNamespace → Option ℤ
deadline (pos zero) now ns = if ns.has_default_ttl then some (now +ℤ ns.default_ttl) else none
deadline (pos (suc n)) now ns = some (now +ℤ pos (suc n))
deadline (negsuc n) now ns = none

-- The entry of a write with a deadline or without one.
abbrev pub entry_until : BatchEntry → Option ℤ → VectorEntry
entry_until b none = record {
  id = b.id;
  vector = b.vector;
  metadata = b.metadata;
  expires_at = pos 0;
  has_ttl = false;
}
entry_until b (some at) = record {
  id = b.id;
  vector = b.vector;
  metadata = b.metadata;
  expires_at = at;
  has_ttl = true;
}

new_entry-deadline :
    (b : BatchEntry) (ttl now : ℤ) (ns : VectorNamespace)
    → new_entry b ttl now ns ≡ entry_until b (deadline ttl now ns)
unfolding new_entry
new_entry-deadline b (pos zero) now ns = ground arith
new_entry-deadline b (pos (suc n)) now ns = ground arith
new_entry-deadline b (negsuc n) now ns = ground arith

pub vector_view-new_entry :
    (namespace n j : Bytes) (dim : ℕ) (b : BatchEntry) (ttl now t : ℤ) (s : Store)
    → length b.vector ≡ dim
    → ((vset_with_ttl namespace dim b ttl now s).0 ≡ none)
      × (vector_view t (vset_with_ttl namespace dim b ttl now s).1 n j ≡ (
          if same namespace n && same b.id j
          then keep_if
              (λ e. not (vector_expired t e))
              (some (new_entry b ttl now (or_new (lookup namespace s.vectors))))
          else vector_view t s n j))
unfolding vector_view put_namespace
vector_view-new_entry namespace n j dim b ttl now t s h =
    rw (vset_with_ttl_lem namespace dim b ttl now s h) (
      refl,
      ap (keep_if (λ e. not (vector_expired t e))) (find_entry-stored namespace n j b ttl now s)
          ∙ keep_if-if _ (same namespace n && same b.id j) _ _,
    )

-- VSetWithTTL with as many floats as it declares answers with no error and stores the entry: under its
-- own TTL, if that is positive, and for a TTL of 0 under the default TTL of the namespace, if that has
-- one. It changes no other entry.
pub vector_view-vset_with_ttl :
    (namespace n j : Bytes) (dim : ℕ) (b : BatchEntry) (ttl now t : ℤ) (s : Store)
    → length b.vector ≡ dim
    → ((vset_with_ttl namespace dim b ttl now s).0 ≡ none)
      × (vector_view t (vset_with_ttl namespace dim b ttl now s).1 n j ≡ (
          if same namespace n && same b.id j
          then keep_if
              (λ e. not (vector_expired t e))
              (some (entry_until b (deadline ttl now (or_new (lookup namespace s.vectors)))))
          else vector_view t s n j))
vector_view-vset_with_ttl namespace n j dim b ttl now t s h =
    rw (sym (new_entry-deadline b ttl now (or_new (lookup namespace s.vectors))))
      (vector_view-new_entry namespace n j dim b ttl now t s h)

-- VSetWithTTL with another number of floats than it declares reports both numbers and changes
-- nothing, not even by making the namespace.
vset_with_ttl-mismatch :
    (namespace : Bytes) (dim : ℕ) (b : BatchEntry) (ttl now : ℤ) (s : Store)
    → length b.vector ≢ dim
    → vset_with_ttl namespace dim b ttl now s ≡ (some (dimension_mismatch dim (length b.vector)), s)
unfolding vset_with_ttl
vset_with_ttl-mismatch namespace dim b ttl now s h = ground arith

-- The vectors of a batch, one VSET after the other, the n-th at the time `clock n`.
unfoldable pub vset_all : Bytes → ℕ → List BatchEntry → (ℕ → ℤ) → ℕ → Store → Store
vset_all namespace dim [] clock n s = s
vset_all namespace dim (b ∷ bs) clock n s =
    vset_all namespace dim bs clock (n + 1) (vset_with_ttl namespace dim b (pos 0) (clock n) s).1

abbrev pub AllOfLength : ℕ → List BatchEntry → Type 0
AllOfLength dim [] = Unit {0}
AllOfLength dim (b ∷ bs) = (length b.vector ≡ dim) × AllOfLength dim bs

batch_entry-eq-new_entry :
    (b : BatchEntry) (now : ℤ) (ns : VectorNamespace)
    → batch_entry b now ns ≡ new_entry b (pos 0) now ns
unfolding batch_entry new_entry
batch_entry-eq-new_entry b now ns = ground arith

-- A single call on a namespace that was just written is one write.
put_namespace-stored :
    (namespace : Bytes) (b : BatchEntry) (now : ℤ) (ns : VectorNamespace) (s : Store)
    → put_namespace namespace
        (stored namespace b (pos 0) now (put_namespace namespace ns s))
        (put_namespace namespace ns s)
      ≡ put_namespace namespace
          (record ns { entries = insert b.id (batch_entry b now ns) ns.entries })
          s
unfolding put_namespace
put_namespace-stored namespace b now ns s =
    let ns' = record ns { entries = insert b.id (new_entry b (pos 0) now ns) ns.entries } in
    rw (batch_entry-eq-new_entry b now ns) (
      ground (
        arith,
        same_iff namespace namespace,
        lookup-insert namespace namespace ns s.vectors,
        insert-insert namespace ns ns' s.vectors,
      ))

-- The loop counts every entry, and its namespace is the one that the single calls leave.
vmset_loop-eq-vset_all :
    (namespace : Bytes) (dim : ℕ) (bs : List BatchEntry) (clock : ℕ → ℤ) (count : ℕ)
    (ns : VectorNamespace) (s : Store)
    → AllOfLength dim bs
    → (vmset_loop dim bs clock count ns
        ≡ (count + length bs, none, (vmset_loop dim bs clock count ns).2))
      × (put_namespace namespace (vmset_loop dim bs clock count ns).2 s
          ≡ vset_all namespace dim bs clock count (put_namespace namespace ns s))
unfolding vmset_loop vset_all
vmset_loop-eq-vset_all namespace dim [] clock count ns s h = (ground arith, refl)
vmset_loop-eq-vset_all namespace dim (b ∷ bs) clock count ns s h =
    let now = clock count in
    let ns' = record ns { entries = insert b.id (batch_entry b now ns) ns.entries } in
    let ih = vmset_loop-eq-vset_all namespace dim bs clock (count + 1) ns' s h.1 in
    let t = put_namespace namespace ns s in
    let step = vset_with_ttl_lem namespace dim b (pos 0) now t h.0 in
    let one = put_namespace-stored namespace b now ns s in
    (ground (arith, h.0, ih.0), rw (step, one) (ground (arith, h.0, ih.1)))

-- A write to a namespace that was just made, or found, is a write to the store before.
put_namespace-made :
    (namespace : Bytes) (b : BatchEntry) (now : ℤ) (s : Store)
    → put_namespace namespace
        (record (get_or_create_namespace namespace s).0 {
          entries =
              insert b.id
                (new_entry b (pos 0) now (get_or_create_namespace namespace s).0)
                (get_or_create_namespace namespace s).0.entries;
        })
        (get_or_create_namespace namespace s).1
      ≡ put_namespace namespace (stored namespace b (pos 0) now s) s
unfolding get_or_create_namespace put_namespace
put_namespace-made namespace b now s = elim (Option-cases (lookup namespace s.vectors)) [
  | inl e ↦
      ground
        (arith, insert-insert namespace new_namespace (stored namespace b (pos 0) now s) s.vectors)
  | inr (ns, e) ↦ ground arith
]

-- Making the namespace first does not change what the first call of a row does.
vset_all-put :
    (namespace : Bytes) (dim : ℕ) (b : BatchEntry) (bs : List BatchEntry) (clock : ℕ → ℤ) (n : ℕ)
    (s : Store)
    → length b.vector ≡ dim
    → vset_all namespace dim (b ∷ bs) clock n (
        put_namespace namespace
          (get_or_create_namespace namespace s).0
          (get_or_create_namespace namespace s).1)
      ≡ vset_all namespace dim (b ∷ bs) clock n s
unfolding vset_all
vset_all-put namespace dim b bs clock n s h =
    let now = clock n in
    let (made, s') = get_or_create_namespace namespace s in
    rw (
      vset_with_ttl_lem namespace dim b (pos 0) now (put_namespace namespace made s') h,
      vset_with_ttl_lem namespace dim b (pos 0) now s h,
      put_namespace-stored namespace b now made s',
      batch_entry-eq-new_entry b now made,
      put_namespace-made namespace b now s,
    )

-- A batch whose vectors all have the declared dimension stores what one VSET after the other would,
-- at the times that the batch reads for its entries, and answers their number.
pub vmset-eq-vset_all :
    (namespace : Bytes) (dim : ℕ) (b : BatchEntry) (bs : List BatchEntry) (clock : ℕ → ℤ)
    (s : Store)
    → AllOfLength dim (b ∷ bs)
    → vmset namespace dim (b ∷ bs) clock s
      ≡ (length (b ∷ bs), none, vset_all namespace dim (b ∷ bs) clock 0 s)
unfolding vmset
vmset-eq-vset_all namespace dim b bs clock s h =
    let run =
      vmset_loop-eq-vset_all namespace dim (b ∷ bs) clock 0 (get_or_create_namespace namespace s).0
        (get_or_create_namespace namespace s).1 h in
    ground (arith, run.0, run.1, vset_all-put namespace dim b bs clock 0 s h.0)
