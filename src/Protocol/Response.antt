-- ===== src/Protocol/Response.antt =====
-- internal/protocol/types.go: the responses and their bytes on the wire.
use hybrid_vector_cache_hnsw.Common.{
  ℕ, zero, suc, ◌+◌, ◌/◌, ◌%◌, [], ◌∷◌, ◌++◌, ◌≡◌, refl, if◌then◌else◌, length, ltb,
}
use hybrid_vector_cache_hnsw.Common.Int.{ℤ, pos, negsuc}
use hybrid_vector_cache_hnsw.Common.Bytes.{Bytes, bytes}

mutual
  pub data Response : Type 0 where
    simple : Bytes → Response
    error : Bytes → Response
    integer : ℤ → Response
    bulk : Bytes → Response
    nil_bulk : Response
    array : Items → Response

  pub data Items : Type 0 where
    nil : Items
    cons : Response → Items → Items

abbrev pub count_items : Items → ℕ
count_items nil = 0
count_items (cons r rs) = suc (count_items rs)

-- The decimal digits of a number, before those of `acc`; a number has fewer digits than its value.
unfoldable pub digits_before : ℕ → ℕ → Bytes → Bytes
digits_before zero n acc = (b'0' + n % 10) ∷ acc
digits_before (suc fuel) n acc =
    let rest = digits_before fuel (n / 10) ((b'0' + n % 10) ∷ acc) in
    if ltb n 10 then (b'0' + n) ∷ acc else rest

unfoldable pub decimal : ℕ → Bytes
unfolding digits_before
decimal n = digits_before n n []

-- strconv.Itoa
unfoldable pub itoa : ℤ → Bytes
unfolding decimal
itoa (pos n) = decimal n
itoa (negsuc n) = b'-' ∷ decimal (n + 1)

abbrev pub crlf : Bytes
crlf = 13 ∷ 10 ∷ []

unfoldable mutual
  unfolding itoa decimal

  -- Serialize
  pub serialize : Response → Bytes
  serialize (simple v) = b'+' ∷ (v ++ crlf)
  serialize (error m) = bytes "-ERR " ++ (m ++ crlf)
  serialize (integer v) = b':' ∷ (itoa v ++ crlf)
  serialize (bulk v) = b'$' ∷ (decimal (length v) ++ (crlf ++ (v ++ crlf)))
  serialize nil_bulk = bytes "$-1" ++ crlf
  serialize (array items) = b'*' ∷ (decimal (count_items items) ++ (crlf ++ serialize_items items))

  pub serialize_items : Items → Bytes
  serialize_items nil = []
  serialize_items (cons r rs) = serialize r ++ serialize_items rs

-- RespOK and RespPong
abbrev pub ok_response : Response
ok_response = simple (bytes "OK")

abbrev pub pong_response : Response
pong_response = simple (bytes "PONG")

serialize_example :
    serialize (array (cons (bulk (bytes "a")) (cons (integer (negsuc 11)) nil)))
    ≡ bytes "*2"
      ++ (crlf ++ (bytes "$1" ++ (crlf ++ (bytes "a" ++ (crlf ++ (bytes ":-12" ++ crlf))))))
unfolding serialize
serialize_example = refl
