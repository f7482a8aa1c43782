-- ===== src/Hnsw/Snapshot/Words.antt =====
-- The parts of a snapshot: what is written is read back.
use hybrid_vector_cache_hnsw.Common.{
  ℕ, suc, ◌+◌, ◌^◌, ◌<◌, ◌≡◌, refl, ap, List, [], ◌∷◌, ◌++◌, arith, length, take, drop,
}
use hybrid_vector_cache_hnsw.Common.Bytes.{Bytes}
use hybrid_vector_cache_hnsw.Common.Run.{ok, Returns, Returns-bind}
use hybrid_vector_cache_hnsw.Heap.Items.{All}
use hybrid_vector_cache_hnsw.Hnsw.Snapshot.{put_word, put_words, put_text, put_keys, put_layers}
use hybrid_vector_cache_hnsw.Hnsw.Snapshot.Load.{
  got, get_word, get_words, get_bytes, get_text, get_link_list, get_layers, get_keys,
}

-- A number that a uint32 can hold.
abbrev pub IsWord : ℕ → Type 0
IsWord n = n < 2 ^ 32

-- A list of them, not too long for its length to be one.
abbrev pub IsShort : List ℕ → Type 0
IsShort ns = IsWord (length ns) × All IsWord ns

pub get_word-put_word : (n : ℕ) (rest : Bytes) → IsWord n → get_word (put_word n rest) ≡ got n rest
unfolding get_word put_word
get_word-put_word n rest h = ap (λ k. got k rest) (omega (arith, h))

pub get_words-put_words :
    (ns : List ℕ) (rest : Bytes)
    → All IsWord ns
    → get_words (length ns) (put_words ns rest) ≡ got ns rest
unfolding get_words put_words
get_words-put_words [] rest a = refl
get_words-put_words (n ∷ ns) rest a =
    rw (get_word-put_word n (put_words ns rest) a.0, get_words-put_words ns rest a.1) refl

get_bytes-append : (text rest : Bytes) → get_bytes (length text) (text ++ rest) ≡ got text rest
unfolding get_bytes
get_bytes-append [] rest = refl
get_bytes-append (b ∷ text) rest = rw (get_bytes-append text rest) refl

pub get_text-put_text :
    (text rest : Bytes) → IsWord (length text) → get_text (put_text text rest) ≡ got text rest
unfolding get_text put_text
get_text-put_text text rest h =
    rw (get_word-put_word (length text) (text ++ rest) h, get_bytes-append text rest) refl

pub get_keys-put_keys :
    (keys : List Bytes) (rest : Bytes)
    → All (λ key. IsWord (length key)) keys
    → get_keys (length keys) (put_keys keys rest) ≡ got keys rest
unfolding get_keys put_keys
get_keys-put_keys [] rest a = refl
get_keys-put_keys (key ∷ keys) rest a =
    rw (get_text-put_text key (put_keys keys rest) a.0, get_keys-put_keys keys rest a.1) refl

pub get_layers-put_layers :
    (layers : List (List ℕ)) (rest : Bytes)
    → All IsShort layers
    → Returns
        (λ text. get_layers (length layers) text ≡ got layers rest)
        (put_layers (length layers) layers rest)
unfolding get_layers put_layers
get_layers-put_layers [] rest a = refl
get_layers-put_layers (links ∷ layers) rest a =
    Returns-bind (λ text. get_layers (length layers) text ≡ got layers rest)
      (λ text. get_layers (suc (length layers)) text ≡ got (links ∷ layers) rest)
      (put_layers (length layers) layers rest)
      (λ after. ok (put_word (length links) (put_words links after)))
      (get_layers-put_layers layers rest a.1)
      (λ after e.
        unfold get_link_list in
        rw
          (
            get_word-put_word (length links) (put_words links after) a.0.0,
            get_words-put_words links after a.0.1,
            e,
          )
          refl)

pub take-append : (text rest : Bytes) → take (length text) (text ++ rest) ≡ text
take-append [] rest = refl
take-append (b ∷ text) rest = ap (λ bs. b ∷ bs) (take-append text rest)

pub drop-append : (text rest : Bytes) → drop (length text) (text ++ rest) ≡ rest
drop-append [] rest = refl
drop-append (b ∷ text) rest = drop-append text rest

pub length-put_word : (n : ℕ) (rest : Bytes) → length (put_word n rest) ≡ 4 + length rest
unfolding put_word
length-put_word n rest = omega arith
