-- ===== src/Server/Kv.antt =====
-- internal/server/handlers_kv.go: the handlers of SET, GET, DEL, EXPIRE and TTL.
-- `now` and `later` are the clock readings that the store makes while the handler runs.
pub mod Replies
use hybrid_vector_cache_hnsw.Common.{
  ℕ, zero, suc, ◌+◌, ◌-◌, ◌*◌, ◌^◌, Bool, true, false, not, ◌&&◌, ◌||◌, Option, none, some, List,
  [], ◌∷◌, ◌++◌, ◌≡◌, refl, if◌then◌else◌, length, ◌==◌, ltb, leb,
}
use hybrid_vector_cache_hnsw.Common.Int.{ℤ, pos, negsuc, ltb_ℤ, wrap_int64, neg_part, pos_part}
use hybrid_vector_cache_hnsw.Common.Bytes.{Bytes, bytes, same}
use hybrid_vector_cache_hnsw.Protocol.Command.{Command}
use hybrid_vector_cache_hnsw.Protocol.Parse.{to_upper}
use hybrid_vector_cache_hnsw.Protocol.Response.{
  Response, error, integer, bulk, nil_bulk, ok_response,
}
use hybrid_vector_cache_hnsw.Store.{Store}
use hybrid_vector_cache_hnsw.Store.Kv

-- The number of a row of digits, if all are digits.
unfoldable pub digits_value : ℕ → Bytes → Option ℕ
digits_value acc [] = some acc
digits_value acc (b ∷ bs) =
    let rest = digits_value (acc * 10 + (b - b'0')) bs in
    if leb b'0' b && leb b b'9' then rest else none

unfoldable pub unsigned : Bytes → Option ℕ
unfolding digits_value
unsigned [] = none
unsigned (b ∷ bs) = digits_value 0 (b ∷ bs)

unfoldable pub in_range : Bool → Option ℕ → Option ℤ
in_range negative none = none
in_range true (some zero) = some (pos 0)
in_range true (some (suc n)) = if ltb n (2 ^ 63) then some (negsuc n) else none
in_range false (some n) = if ltb n (2 ^ 63) then some (pos n) else none

-- strconv.Atoi of a 64-bit int
unfoldable pub atoi : Bytes → Option ℤ
unfolding unsigned in_range
atoi [] = none
atoi (b ∷ bs) =
    if b == b'-'
    then in_range true (unsigned bs)
    else if b == b'+'
    then in_range false (unsigned bs)
    else in_range false (unsigned (b ∷ bs))

-- `seconds, err := Atoi(s)` and the test `err != nil || seconds <= 0`
unfoldable pub positive_seconds : Bytes → Option ℕ
unfolding atoi
positive_seconds s = elim (atoi s) [
  | none ↦ none
  | some n ↦ if ltb_ℤ (pos 0) n then some (pos_part n) else none
]

-- time.Duration(seconds) * time.Second, an int64 product
unfoldable pub seconds_duration : ℕ → ℤ
unfolding wrap_int64
seconds_duration n = wrap_int64 (n * 1000000000)

abbrev pub wrong_args : Bytes → Response
wrong_args name = error (bytes "wrong number of arguments for '" ++ (name ++ bytes "' command"))

-- handleSet
unfoldable pub handle_set : List Bytes → ℤ → Store → Response × Store
unfolding to_upper
handle_set (key ∷ value ∷ ex ∷ n ∷ args) now s =
    if same (to_upper ex) (bytes "EX")
    then elim (positive_seconds n) [
      | none ↦ (error (bytes "invalid expire time in 'SET' command"), s)
      | some k ↦ (ok_response, Kv.set_with_ttl key value (seconds_duration k) now s)
    ]
    else (ok_response, Kv.set key value s)
handle_set (key ∷ value ∷ args) now s = (ok_response, Kv.set key value s)
handle_set args now s = (wrong_args (bytes "SET"), s)

abbrev pub reply_of : Option Bytes → Response
reply_of none = nil_bulk
reply_of (some v) = bulk v

-- handleGet
unfoldable pub handle_get : List Bytes → ℤ → ℤ → Store → Response × Store
handle_get (key ∷ []) now later s = let (found, s') = Kv.get key now later s in (reply_of found, s')
handle_get args now later s = (wrong_args (bytes "GET"), s)

-- handleDel
unfoldable pub handle_del : List Bytes → Store → Response × Store
handle_del [] s = (wrong_args (bytes "DEL"), s)
handle_del (key ∷ keys) s = let (count, s') = Kv.del (key ∷ keys) s in (integer (pos count), s')

abbrev pub one_or_zero : Bool → Response
one_or_zero true = integer (pos 1)
one_or_zero false = integer (pos 0)

-- handleExpire
unfoldable pub handle_expire : List Bytes → ℤ → ℤ → Store → Response × Store
handle_expire (key ∷ n ∷ []) now later s = elim (positive_seconds n) [
  | none ↦ (error (bytes "invalid expire time"), s)
  | some k ↦
      let (done, s') = Kv.expire key (seconds_duration k) now later s in (one_or_zero done, s')
]
handle_expire args now later s = (wrong_args (bytes "EXPIRE"), s)

-- handleTTL
unfoldable pub handle_ttl : List Bytes → ℤ → ℤ → Store → Response × Store
handle_ttl (key ∷ []) now later s = (integer (Kv.ttl key now later s), s)
handle_ttl args now later s = (wrong_args (bytes "TTL"), s)
