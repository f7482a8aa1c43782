-- ===== src/Server/Words/Printed.antt =====
-- Words that were printed and are read again.
use hybrid_vector_cache_hnsw.Common.{
  ℕ, suc, ◌+◌, ◌%◌, ◌≡◌, refl, sym, ap, ◌∙◌, true, false, Option, none, some, List, [], ◌∷◌, ◌++◌,
  map, append-nil, append_assoc, arith, length, take, drop,
}
use hybrid_vector_cache_hnsw.Common.Bytes.{Bytes, bytes, same, same_iff}
use hybrid_vector_cache_hnsw.Common.Dict.{Dict, lookup, insert, IsDistinct, lookup-insert}
use hybrid_vector_cache_hnsw.Heap.Items.{All}
use hybrid_vector_cache_hnsw.Protocol.Parse.{to_upper}
use hybrid_vector_cache_hnsw.Client.Commands.{flatten}
use hybrid_vector_cache_hnsw.Server.Words.{accepted, find_word, read_floats, read_pairs}

-- A word that is not read as the keyword.
abbrev pub IsOther : Bytes → Bytes → Type 0
IsOther word x = same (to_upper x) word ≡ false

pub find_word-absent :
    (word : Bytes) (xs : List Bytes) → All (IsOther word) xs → find_word word xs ≡ none
unfolding find_word
find_word-absent word [] a = refl
find_word-absent word (x ∷ xs) a = rw (a.0, find_word-absent word xs a.1) refl

pub find_word-append :
    (word x : Bytes) (xs ys : List Bytes)
    → All (IsOther word) xs
    → same (to_upper x) word ≡ true
    → find_word word (xs ++ x ∷ ys) ≡ some (length xs)
unfolding find_word
find_word-append word x [] ys a e = rw e refl
find_word-append word x (z ∷ xs) ys a e = rw (a.0, find_word-append word x xs ys a.1 e) refl

pub take-append {ℓ} : {A : Type ℓ} (xs ys : List A) → take (length xs) (xs ++ ys) ≡ xs
take-append [] ys = refl
take-append (x ∷ xs) ys = ap (λ zs. x ∷ zs) (take-append xs ys)

pub take-length {ℓ} : {A : Type ℓ} (xs : List A) → take (length xs) xs ≡ xs
take-length [] = refl
take-length (x ∷ xs) = ap (λ zs. x ∷ zs) (take-length xs)

pub drop-append_one {ℓ} :
    {A : Type ℓ} (xs : List A) (x : A) (ys : List A) → drop (length xs + 1) (xs ++ x ∷ ys) ≡ ys
drop-append_one [] x ys = refl
drop-append_one (z ∷ xs) x ys =
    let next : suc (length xs) + 1 ≡ suc (length xs + 1) = omega arith in
    rw next (drop-append_one xs x ys)

-- A text that ParseFloat reads as the number that was printed.
pub record IsText (parse : Bytes → Option ℕ) (print : ℕ → Bytes) (x : ℕ) : Type 0 where
  pub parsed : parse (print x) ≡ some x
  pub not_meta : IsOther (bytes "META") (print x)
  pub not_ex : IsOther (bytes "EX") (print x)

pub read_floats-print :
    (parse : Bytes → Option ℕ) (print : ℕ → Bytes) (i : ℕ) (vec : List ℕ)
    → All (IsText parse print) vec
    → read_floats parse i (map print vec) ≡ accepted vec
unfolding read_floats
read_floats-print parse print i [] a = refl
read_floats-print parse print i (x ∷ xs) a =
    let h = a.0 in rw (h.parsed, read_floats-print parse print (i + 1) xs a.1) refl

pub length-map {ℓ} : {A B : Type ℓ} (g : A → B) (xs : List A) → length (map g xs) ≡ length xs
length-map g [] = refl
length-map g (x ∷ xs) = ap suc (length-map g xs)

-- A new key goes to the end of a map.
pub insert-new :
    (k v : Bytes) (m : Dict Bytes) → lookup k m ≡ none → insert k v m ≡ m ++ (k, v) ∷ []
unfolding lookup insert
insert-new k v [] e = refl
insert-new k v ((j, w) ∷ m) e =
    let differs : same j k ≡ false = ground (arith, e) in
    let rest : lookup k m ≡ none = ground (arith, e) in rw (differs, insert-new k v m rest) refl

-- No key of the second map is in the first.
abbrev pub AreNew : Dict Bytes → Dict Bytes → Type 0
AreNew m [] = Unit {0}
AreNew m ((k, v) ∷ more) = (lookup k m ≡ none) × AreNew m more

pub every_new : (n : Dict Bytes) → AreNew [] n
unfolding lookup
every_new [] = tt
every_new ((k, v) ∷ n) = (refl, every_new n)

pub AreNew-insert :
    (k v : Bytes) (m more : Dict Bytes)
    → lookup k more ≡ none
    → AreNew m more
    → AreNew (insert k v m) more
unfolding lookup
AreNew-insert k v m [] e a = tt
AreNew-insert k v m ((j, w) ∷ more) e a =
    let differs : same j k ≡ false = ground (arith, e) in
    let back : same k j ≡ false = ground (arith, differs, same_iff j k, same_iff k j) in
    let rest : lookup k more ≡ none = ground (arith, e) in
    (lookup-insert k j v m ∙ rw (back, a.0) refl, AreNew-insert k v m more rest a.1)

pub read_pairs-flatten :
    (m more : Dict Bytes)
    → IsDistinct more
    → AreNew m more
    → read_pairs (flatten more) m ≡ m ++ more
unfolding read_pairs flatten
read_pairs-flatten m [] d a = sym (append-nil m)
read_pairs-flatten m ((k, v) ∷ more) d a =
    read_pairs-flatten (insert k v m) more d.1 (AreNew-insert k v m more d.0 a.1)
    ∙ ap (λ n. n ++ more) (insert-new k v m a.0)
    ∙ append_assoc m ((k, v) ∷ []) more

pub even-flatten : (m : Dict Bytes) → length (flatten m) % 2 ≡ 0
unfolding flatten
even-flatten [] = refl
even-flatten ((k, v) ∷ m) = omega (arith, even-flatten m)

pub All-prints :
    (parse : Bytes → Option ℕ) (print : ℕ → Bytes) (word : Bytes) (vec : List ℕ)
    → ((x : ℕ) → IsText parse print x → IsOther word (print x))
    → All (IsText parse print) vec
    → All (IsOther word) (map print vec)
All-prints parse print word [] g a = tt
All-prints parse print word (x ∷ vec) g a = (g x a.0, All-prints parse print word vec g a.1)

pub All-append :
    (word : Bytes) (xs ys : List Bytes)
    → All (IsOther word) xs
    → All (IsOther word) ys
    → All (IsOther word) (xs ++ ys)
All-append word [] ys a b = b
All-append word (x ∷ xs) ys a b = (a.0, All-append word xs ys a.1 b)
