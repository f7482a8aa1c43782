-- ===== src/Client/RoundTrip.antt =====
-- The client reads the responses that the server serializes.
use mathlib.Core.Path.{subst}
use hybrid_vector_cache_hnsw.Common.{
  ℕ, suc, ◌+◌, ◌-◌, ◌^◌, ◌≤◌, ◌<◌, ◌≡◌, ◌≢◌, refl, sym, ap, ◌∙◌, some, [], ◌∷◌, ◌++◌, arith, length,
  length-append, append_assoc, take, drop, ltb, false, ◌==◌,
}
use hybrid_vector_cache_hnsw.Common.Bytes.{Bytes, bytes}
use hybrid_vector_cache_hnsw.Common.Int.{ℤ, pos, negsuc}
use hybrid_vector_cache_hnsw.Heap.Items.{All, All-map}
use hybrid_vector_cache_hnsw.Protocol.Parse.{trim_right, is_line_end}
use hybrid_vector_cache_hnsw.Protocol.Parse.Lines.{
  EndsOutside, trim_right-eq_self, trim_right-concat,
}
use hybrid_vector_cache_hnsw.Protocol.Response.{
  Response, Items, simple, error, integer, bulk, nil_bulk, array, nil, cons, count_items, decimal,
  itoa, crlf, serialize, serialize_items,
}
use hybrid_vector_cache_hnsw.Server.Kv.{atoi}
use hybrid_vector_cache_hnsw.Client.{
  RespValue, RespValues, no_values, values, text_value, nil_value, array_value, Decoded, got,
  err_nil, failed, server_error, Collected, collected, item_before, add_value, read_string,
  read_bulk, collect_items, by_prefix, read_at, read_response,
}
use hybrid_vector_cache_hnsw.Client.Numbers.{IsDigit, decimal-IsDigit, atoi-decimal}

-- A byte that ends no line.
abbrev pub IsPlain : ℕ → Type 0
IsPlain b = (b ≢ 10) × (b ≢ 13)

abbrev mutual
  -- What the client is to see.
  pub value_of : Response → RespValue
  value_of (simple v) = text_value v
  value_of (error m) = text_value []
  value_of (integer z) = text_value (itoa z)
  value_of (bulk v) = text_value v
  value_of nil_bulk = nil_value
  value_of (array rs) = array_value (values_of rs)

  pub values_of : Items → RespValues
  values_of nil = no_values
  values_of (cons r rs) = values (value_of r) (values_of rs)

-- The answer to the client's caller, with the bytes behind the response.
abbrev pub answer_of : Response → Bytes → Decoded
answer_of (simple v) rest = got (text_value v) rest
answer_of (error m) rest = failed (server_error (bytes "ERR " ++ m))
answer_of (integer z) rest = got (text_value (itoa z)) rest
answer_of (bulk v) rest = got (text_value v) rest
answer_of nil_bulk rest = err_nil rest
answer_of (array rs) rest = got (array_value (values_of rs)) rest

abbrev pub IsNoError : Response → Type 0
IsNoError (error m) = ⊥
IsNoError (simple v) = Unit {0}
IsNoError (integer z) = Unit {0}
IsNoError (bulk v) = Unit {0}
IsNoError nil_bulk = Unit {0}
IsNoError (array rs) = Unit {0}

abbrev mutual
  -- A response whose lines have no line end inside, whose lengths are ints, without an error in an
  -- array.
  pub IsSent : Response → Type 0
  IsSent (simple v) = All IsPlain v
  IsSent (error m) = All IsPlain m
  IsSent (integer z) = Unit {0}
  IsSent (bulk v) = length v < 2 ^ 63
  IsSent nil_bulk = Unit {0}
  IsSent (array rs) = (count_items rs < 2 ^ 63) × AreSent rs

  pub AreSent : Items → Type 0
  AreSent nil = Unit {0}
  AreSent (cons r rs) = IsNoError r × (IsSent r × AreSent rs)

read_string-line :
    (line rest : Bytes)
    → All IsPlain line
    → read_string (line ++ 13 ∷ 10 ∷ rest) ≡ some (line ++ 13 ∷ 10 ∷ [], rest)
unfolding read_string
read_string-line [] rest a = refl
read_string-line (b ∷ line) rest a =
    let differs : (b == 10) ≡ false = ground (arith, a.0.0) in
    rw (read_string-line line rest a.1, differs) refl

EndsOutside-plain : (line : Bytes) → All IsPlain line → EndsOutside is_line_end line
unfolding is_line_end
EndsOutside-plain [] a = tt
EndsOutside-plain (b ∷ []) a = ground (arith, a.0.0, a.0.1)
EndsOutside-plain (b ∷ c ∷ line) a = EndsOutside-plain (c ∷ line) a.1

trim_right-line :
    (line : Bytes) → All IsPlain line → trim_right is_line_end (line ++ 13 ∷ 10 ∷ []) ≡ line
trim_right-line line a =
    ap (trim_right is_line_end) (sym (append_assoc line (13 ∷ []) (10 ∷ [])))
    ∙ trim_right-concat is_line_end (line ++ 13 ∷ []) 10 (unfold is_line_end in refl)
    ∙ trim_right-concat is_line_end line 13 (unfold is_line_end in refl)
    ∙ trim_right-eq_self is_line_end line (EndsOutside-plain line a)

-- A round on a line.
read_at-line :
    (fuel : ℕ) (line rest : Bytes)
    → All IsPlain line
    → read_at (suc fuel) (line ++ 13 ∷ 10 ∷ rest) ≡ by_prefix (read_at fuel) line rest
unfolding read_at
read_at-line fuel line rest a = rw (read_string-line line rest a, trim_right-line line a) refl

IsDigit-IsPlain : (b : ℕ) → IsDigit b → IsPlain b
IsDigit-IsPlain b (lo, hi) = (λ e. omega (arith, lo, e), λ e. omega (arith, lo, e))

decimal-plain : (n : ℕ) → All IsPlain (decimal n)
decimal-plain n = All-map IsDigit IsPlain IsDigit-IsPlain (decimal n) (decimal-IsDigit n)

itoa-plain : (z : ℤ) → All IsPlain (itoa z)
unfolding itoa
itoa-plain (pos n) = decimal-plain n
itoa-plain (negsuc n) = ((λ e. omega (arith, e), λ e. omega (arith, e)), decimal-plain (n + 1))

take-append : (text rest : Bytes) → take (length text) (text ++ rest) ≡ text
take-append [] rest = refl
take-append (b ∷ text) rest = ap (λ bs. b ∷ bs) (take-append text rest)

drop-append : (text rest : Bytes) → drop (length text + 2) (text ++ 13 ∷ 10 ∷ rest) ≡ rest
drop-append [] rest = refl
drop-append (b ∷ text) rest =
    let next : suc (length text) + 2 ≡ suc (length text + 2) = omega arith in
    rw next (drop-append text rest)

read_bulk-text :
    (v rest : Bytes)
    → read_bulk (some (pos (length v))) (v ++ 13 ∷ 10 ∷ rest) ≡ got (text_value v) rest
read_bulk-text v rest =
    let size = length-append v (13 ∷ 10 ∷ rest) in
    let enough : ltb (length (v ++ 13 ∷ 10 ∷ rest)) (length v + 2) ≡ false = ground (arith, size) in
    rw (enough, take-append v (13 ∷ 10 ∷ rest), drop-append v rest) refl

item_before-answer :
    (r : Response) (text : Bytes) (others : Bytes → Collected)
    → IsNoError r
    → item_before (answer_of r text) others ≡ add_value (value_of r) (others text)
item_before-answer (simple v) text others h = refl
item_before-answer (error m) text others h = absurd h
item_before-answer (integer z) text others h = refl
item_before-answer (bulk v) text others h = refl
item_before-answer nil_bulk text others h = refl
item_before-answer (array rs) text others h = refl

plain : (b : ℕ) → 14 ≤ b → IsPlain b
plain b h = (λ e. omega (arith, h, e), λ e. omega (arith, h, e))

-- The line of a response, of its prefix and a text.
framed :
    (fuel b : ℕ) (t tail rest : Bytes)
    → IsPlain b
    → All IsPlain t
    → read_at (suc fuel) (b ∷ ((t ++ 13 ∷ 10 ∷ tail) ++ rest))
      ≡ by_prefix (read_at fuel) (b ∷ t) (tail ++ rest)
framed fuel b t tail rest p a =
    ap (λ l. read_at (suc fuel) (b ∷ l)) (append_assoc t (13 ∷ 10 ∷ tail) rest)
    ∙ read_at-line fuel (b ∷ t) (tail ++ rest) (p, a)

atoi_nil : atoi (bytes "-1") ≡ some (negsuc 0)
unfolding atoi
atoi_nil = refl

serialize-positive : (r : Response) → 0 < length (serialize r)
unfolding serialize
serialize-positive (simple v) = omega arith
serialize-positive (error m) = omega arith
serialize-positive (integer z) = omega arith
serialize-positive (bulk v) = omega arith
serialize-positive nil_bulk = omega arith
serialize-positive (array rs) = omega arith

mutual
  unfolding serialize collect_items

  read_at-serialize :
      (r : Response) (fuel : ℕ) (rest : Bytes)
      → IsSent r
      → length (serialize r) ≤ suc fuel
      → read_at (suc fuel) (serialize r ++ rest) ≡ answer_of r rest
  read_at-serialize (simple v) fuel rest s h =
      framed fuel b'+' v [] rest (plain b'+' (omega arith)) s
  read_at-serialize (error m) fuel rest s h =
      framed fuel b'-' (bytes "ERR " ++ m) [] rest (plain b'-' (omega arith)) (
        plain b'E' (omega arith),
        (plain b'R' (omega arith), (plain b'R' (omega arith), (plain b' ' (omega arith), s))),
      )
  read_at-serialize (integer z) fuel rest s h =
      framed fuel b':' (itoa z) [] rest (plain b':' (omega arith)) (itoa-plain z)
  read_at-serialize (bulk v) fuel rest s h =
      framed fuel b'$' (decimal (length v)) (v ++ crlf) rest (plain b'$' (omega arith))
        (decimal-plain (length v))
      ∙ rw (atoi-decimal (length v) s, append_assoc v crlf rest) (read_bulk-text v rest)
  read_at-serialize nil_bulk fuel rest s h =
      read_at-line fuel (bytes "$-1") rest
        (plain b'$' (omega arith), (plain b'-' (omega arith), (plain b'1' (omega arith), tt)))
      ∙ rw atoi_nil refl
  read_at-serialize (array rs) fuel rest s h =
      framed fuel b'*' (decimal (count_items rs)) (serialize_items rs) rest
        (plain b'*' (omega arith)) (decimal-plain (count_items rs))
      ∙ rw
          (
            atoi-decimal (count_items rs) s.0,
            collect_items-serialize rs fuel rest s.1 (
                omega (
                  arith,
                  h,
                  length-append (decimal (count_items rs)) (crlf ++ serialize_items rs),
                )),
          )
          refl

  collect_items-serialize :
      (rs : Items) (fuel : ℕ) (rest : Bytes)
      → AreSent rs
      → length (serialize_items rs) ≤ fuel
      → collect_items (read_at fuel) (count_items rs) (serialize_items rs ++ rest)
        ≡ collected (values_of rs) rest
  collect_items-serialize nil fuel rest s h = refl
  collect_items-serialize (cons r rs) fuel rest s h =
      let size = length-append (serialize r) (serialize_items rs) in
      let one_more : fuel ≡ suc (fuel - 1) = omega (arith, h, size, serialize-positive r) in
      let text = serialize_items rs ++ rest in
      let first : read_at fuel (serialize r ++ text) ≡ answer_of r text =
        subst (λ n. read_at n (serialize r ++ text) ≡ answer_of r text) (sym one_more)
          (read_at-serialize r (fuel - 1) text s.1.0 (omega (arith, h, size, one_more))) in
      rw (append_assoc (serialize r) (serialize_items rs) rest, first)
        (item_before-answer r text (collect_items (read_at fuel) (count_items rs)) s.0
          ∙ rw (collect_items-serialize rs fuel rest s.1.1 (omega (arith, h, size))) refl)

-- readResponse reads what Serialize wrote, whatever follows it: the value of a response, ErrNil for a
-- nil, and the message of an error.
pub read_response-serialize :
    (r : Response) (rest : Bytes)
    → IsSent r
    → read_response (serialize r ++ rest) ≡ answer_of r rest
unfolding read_response
read_response-serialize r rest s =
    let next : length (serialize r ++ rest) + 1 ≡ suc (length (serialize r ++ rest)) =
      omega arith in
    rw next (
      read_at-serialize r (length (serialize r ++ rest)) rest s
        (omega (arith, length-append (serialize r) rest)))
