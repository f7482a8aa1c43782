-- ===== src/Client/Numbers.antt =====
-- strconv.Atoi reads what strconv.Itoa wrote.
use hybrid_vector_cache_hnsw.Common.{
  ℕ, zero, suc, ◌+◌, ◌-◌, ◌*◌, ◌/◌, ◌%◌, ◌^◌, ◌≤◌, ◌<◌, ◌≡◌, refl, ap, ◌∙◌, some, [], ◌∷◌, arith,
  length, ltb, Bool-cases, inl, inr,
}
use hybrid_vector_cache_hnsw.Common.Bytes.{Bytes}
use hybrid_vector_cache_hnsw.Common.Int.{pos}
use hybrid_vector_cache_hnsw.Heap.Items.{All}
use hybrid_vector_cache_hnsw.Protocol.Response.{digits_before, decimal}
use hybrid_vector_cache_hnsw.Server.Kv.{atoi, unsigned, digits_value, in_range}

abbrev pub IsDigit : ℕ → Type 0
IsDigit b = (48 ≤ b) × (b ≤ 57)

digits_before-IsDigit :
    (fuel n : ℕ) (acc : Bytes) → All IsDigit acc → All IsDigit (digits_before fuel n acc)
unfolding digits_before
digits_before-IsDigit zero n acc a = ((omega arith, omega arith), a)
digits_before-IsDigit (suc fuel) n acc a = elim (Bool-cases (ltb n 10)) [
  | inl small ↦ rw small ((omega arith, ground (arith, small)), a)
  | inr large ↦
      rw large
        (digits_before-IsDigit fuel (n / 10) ((48 + n % 10) ∷ acc) ((omega arith, omega arith), a))
]

digits_value-digit :
    (v b : ℕ) (bs : Bytes)
    → IsDigit b
    → digits_value v (b ∷ bs) ≡ digits_value (v * 10 + (b - 48)) bs
unfolding digits_value
digits_value-digit v b bs (lo, hi) = ground (arith, lo, hi)

digits_value-digits_before :
    (fuel n : ℕ) (acc : Bytes)
    → n ≤ fuel
    → digits_value 0 (digits_before fuel n acc) ≡ digits_value n acc
unfolding digits_before
digits_value-digits_before zero n acc h =
    digits_value-digit 0 (48 + n % 10) acc (omega arith, omega arith)
    ∙ ap (λ v. digits_value v acc) (omega (arith, h))
digits_value-digits_before (suc fuel) n acc h = elim (Bool-cases (ltb n 10)) [
  | inl small ↦ rw small (
      let bound : n < 10 = ground (arith, small) in
      digits_value-digit 0 (48 + n) acc (omega arith, omega (arith, bound))
      ∙ ap (λ v. digits_value v acc) (omega arith))
  | inr large ↦ rw large (
      let bound : 10 ≤ n = ground (arith, large) in
      digits_value-digits_before fuel (n / 10) ((48 + n % 10) ∷ acc) (omega (arith, h, bound))
      ∙ digits_value-digit (n / 10) (48 + n % 10) acc (omega arith, omega arith)
      ∙ ap (λ v. digits_value v acc) (omega arith))
]

pub decimal-IsDigit : (n : ℕ) → All IsDigit (decimal n)
unfolding decimal
decimal-IsDigit n = digits_before-IsDigit n n [] tt

digits_value-decimal : (n : ℕ) → digits_value 0 (decimal n) ≡ some n
unfolding decimal
digits_value-decimal n =
    digits_value-digits_before n n [] (omega arith) ∙ unfold digits_value in refl

digits_before-positive : (fuel n : ℕ) (acc : Bytes) → 0 < length (digits_before fuel n acc)
unfolding digits_before
digits_before-positive zero n acc = omega arith
digits_before-positive (suc fuel) n acc =
    ground (arith, digits_before-positive fuel (n / 10) ((48 + n % 10) ∷ acc))

atoi-digits :
    (n : ℕ) (bs : Bytes)
    → All IsDigit bs
    → 0 < length bs
    → digits_value 0 bs ≡ some n
    → n < 2 ^ 63
    → atoi bs ≡ some (pos n)
unfolding atoi unsigned in_range
atoi-digits n [] a p e h = absurd (omega (arith, p))
atoi-digits n (b ∷ bs) a p e h = rw e (ground (arith, a.0.0, h))

pub atoi-decimal : (n : ℕ) → n < 2 ^ 63 → atoi (decimal n) ≡ some (pos n)
atoi-decimal n h =
    atoi-digits n (decimal n) (decimal-IsDigit n) (unfold decimal in digits_before-positive n n [])
      (digits_value-decimal n) h
