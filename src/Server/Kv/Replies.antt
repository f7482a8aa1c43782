-- ===== src/Server/Kv/Replies.antt =====
-- What a client is answered by the key-value commands.
use hybrid_vector_cache_hnsw.Common.{
  ◌%◌, ℕ, ◌-◌, ◌*◌, ◌^◌, ◌≤◌, ◌<◌, ◌≡◌, refl, ap, ◌∙◌, some, List, [], ◌∷◌, arith, if◌then◌else◌,
}
use hybrid_vector_cache_hnsw.Common.Int.{
  ℤ, pos, negsuc, ◌+ℤ◌, ltb_ℤ, wrap_int64_small, wrap_int64_negative, ◌≤ℤ◌, +ℤ_parts,
}
use hybrid_vector_cache_hnsw.Common.Bytes.{Bytes, bytes, same, same_refl}
use hybrid_vector_cache_hnsw.Protocol.Parse.{to_upper}
use hybrid_vector_cache_hnsw.Protocol.Response.{Response, error, bulk, nil_bulk, ok_response}
use hybrid_vector_cache_hnsw.Store.{Store}
use hybrid_vector_cache_hnsw.Store.Kv.{set, set_with_ttl}
use hybrid_vector_cache_hnsw.Store.Kv.View.{view, value_of, get-eq-view}
use hybrid_vector_cache_hnsw.Store.Kv.Updates.{view-set, view-set_with_ttl}
use hybrid_vector_cache_hnsw.Server.Kv.{
  handle_set, handle_get, handle_del, handle_expire, reply_of, positive_seconds, seconds_duration,
}

-- GET answers with the value of the live entry, and with nil for a key with none.
pub handle_get-eq-view :
    (key : Bytes) (now later : ℤ) (s : Store)
    → (handle_get (key ∷ []) now later s).0 ≡ reply_of (value_of (view now s key))
unfolding handle_get
handle_get-eq-view key now later s = ap reply_of (get-eq-view key now later s)

-- Behind a SET with no EX, a GET of the key at any time answers with the value.
get_after_set :
    (key value : Bytes) (at now later : ℤ) (s : Store)
    → (handle_get (key ∷ []) now later (handle_set (key ∷ value ∷ []) at s).1).0 ≡ bulk value
unfolding handle_set
get_after_set key value at now later s =
    handle_get-eq-view key now later (set key value s)
    ∙ ground (arith, view-set key value key now s, same_refl key)

module _ (key value ex n : Bytes) (k : ℕ) (at now later : ℤ) (s : Store)
    (is_ex : to_upper ex ≡ bytes "EX") (parses : positive_seconds n ≡ some k) where
  handle_set-ex :
      handle_set (key ∷ value ∷ ex ∷ n ∷ []) at s
      ≡ (ok_response, set_with_ttl key value (seconds_duration k) at s)
  unfolding handle_set same
  handle_set-ex = rw (is_ex, parses) refl

  get_after_set_ex_any :
      (handle_get (key ∷ []) now later (handle_set (key ∷ value ∷ ex ∷ n ∷ []) at s).1).0
      ≡ (if ltb_ℤ (at +ℤ seconds_duration k) now then nil_bulk else bulk value)
  get_after_set_ex_any = rw handle_set-ex (
      handle_get-eq-view key now later (set_with_ttl key value (seconds_duration k) at s)
      ∙ ground
          (arith, view-set_with_ttl key value key (seconds_duration k) at now s, same_refl key))

  -- Behind SET key value EX k, where k seconds fit a Duration, a GET answers with the value up to
  -- and at the end of the k seconds, and with nil after it.
  pub get_after_set_ex :
      k * 1000000000 < 2 ^ 63
      → (handle_get (key ∷ []) now later (handle_set (key ∷ value ∷ ex ∷ n ∷ []) at s).1).0
        ≡ (if ltb_ℤ (at +ℤ pos (k * 1000000000)) now then nil_bulk else bulk value)
  get_after_set_ex h =
      get_after_set_ex_any
      ∙ (unfold seconds_duration in
          ap (λ (d : ℤ). if ltb_ℤ (at +ℤ d) now then nil_bulk else bulk value)
            (wrap_int64_small (k * 1000000000) h))

  -- SET key value EX k, where the int64 product of k and a second is a negative Duration, answers OK,
  -- and a GET at that time or later answers nil.
  pub set_ex_overflow :
      2 ^ 63 ≤ k * 1000000000 % 2 ^ 64
      → ◌≤ℤ◌ at now
      → ((handle_set (key ∷ value ∷ ex ∷ n ∷ []) at s).0 ≡ ok_response)
        × ((handle_get (key ∷ []) now later (handle_set (key ∷ value ∷ ex ∷ n ∷ []) at s).1).0
            ≡ nil_bulk)
  set_ex_overflow low order = (
    rw handle_set-ex refl,
    get_after_set_ex_any
        ∙ (unfold seconds_duration in
            ground (
              arith,
              wrap_int64_negative (k * 1000000000) low,
              +ℤ_parts at (negsuc (2 ^ 64 - k * 1000000000 % 2 ^ 64 - 1)),
            )),
  )

handle_set-error :
    (args : List Bytes) (now : ℤ) (s : Store) (m : Bytes)
    → (handle_set args now s).0 ≡ error m
    → (handle_set args now s).1 ≡ s
unfolding handle_set
handle_set-error [] now s m e = refl
handle_set-error (key ∷ []) now s m e = refl
handle_set-error (key ∷ value ∷ []) now s m e = absurd (cc)
handle_set-error (key ∷ value ∷ ex ∷ []) now s m e = absurd (cc)
handle_set-error (key ∷ value ∷ ex ∷ n ∷ args) now s m e = ground arith

handle_expire-error :
    (args : List Bytes) (now later : ℤ) (s : Store) (m : Bytes)
    → (handle_expire args now later s).0 ≡ error m
    → (handle_expire args now later s).1 ≡ s
unfolding handle_expire
handle_expire-error [] now later s m e = refl
handle_expire-error (key ∷ []) now later s m e = refl
handle_expire-error (key ∷ n ∷ []) now later s m e = ground arith
handle_expire-error (key ∷ n ∷ x ∷ args) now later s m e = refl

handle_del-error :
    (args : List Bytes) (s : Store) (m : Bytes)
    → (handle_del args s).0 ≡ error m
    → (handle_del args s).1 ≡ s
unfolding handle_del
handle_del-error [] s m e = refl
handle_del-error (key ∷ keys) s m e = absurd (cc)

-- The handlers of the commands that write.
pub data Write : Type 0 where
  set_command del_command expire_command : Write

abbrev pub run_write : Write → List Bytes → ℤ → ℤ → Store → Response × Store
run_write set_command args now later s = handle_set args now s
run_write del_command args now later s = handle_del args s
run_write expire_command args now later s = handle_expire args now later s

-- A SET, DEL or EXPIRE that answers with an error has changed nothing.
error_changes_nothing :
    (w : Write) (args : List Bytes) (now later : ℤ) (s : Store) (m : Bytes)
    → (run_write w args now later s).0 ≡ error m
    → (run_write w args now later s).1 ≡ s
error_changes_nothing set_command args now later s m e = handle_set-error args now s m e
error_changes_nothing del_command args now later s m e = handle_del-error args s m e
error_changes_nothing expire_command args now later s m e = handle_expire-error args now later s m e
