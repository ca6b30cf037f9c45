-- ===== src/Common/Names.antt =====
-- common.hpp: the name of an object in shared memory determines its bucket, key and session.
use pheromone.Base.{
  ℕ, suc, ◌-◌, ◌<◌, ◌≡◌, refl, Bytes, false, some, [], ◌∷◌, ◌++◌, nat_eq, arith, length, drop,
  length-append, lt→ltb, take-append_length, drop-append_length,
}
use pheromone.Base.Sets.{contains}
use pheromone.Common.{
  BucketKey, delimiter, delimiter_char, find, before, after, of_session_key, shm_key_name,
  get_bucket_key_from_string,
}

pub find_here :
    (c : ℕ) (v rest : Bytes) → contains v c ≡ false → find c (v ++ (c ∷ rest)) ≡ some (length v)
unfolding find contains
find_here c [] rest h = ground arith
find_here c (x ∷ v) rest h = ground (arith, find_here c v rest)

of_session_key-append :
    (b k s : Bytes)
    → length s ≡ 16
    → 0 < length k
    → of_session_key b (k ++ s) ≡ record { bucket = b; key = k; session = s }
unfolding of_session_key
of_session_key-append b k s h p =
    let n : length (k ++ s) - 16 ≡ length k = omega (arith, length-append k s) in
    let big : 16 < length (k ++ s) = omega (arith, length-append k s) in
    rw (n, lt→ltb _ _ big, take-append_length k s, drop-append_length k s)

drop_behind : (v rest : Bytes) (x : ℕ) → drop (suc (length v)) (v ++ (x ∷ rest)) ≡ rest
drop_behind [] rest x = refl
drop_behind (y ∷ v) rest x = drop_behind v rest x

-- An object's name is parsed back to its bucket, key and session if the bucket has no delimiter,
-- the key is not empty and the session has 16 bytes.
pub get_bucket_key_from_string-shm_key_name :
    (k : BucketKey)
    → contains k.bucket delimiter_char ≡ false
    → 0 < length k.key
    → length k.session ≡ 16
    → get_bucket_key_from_string (shm_key_name k) ≡ k
unfolding get_bucket_key_from_string before after shm_key_name
get_bucket_key_from_string-shm_key_name k nb nk ns =
    rw
      (
        find_here delimiter_char k.bucket (k.key ++ k.session) nb,
        take-append_length k.bucket (delimiter ++ (k.key ++ k.session)),
        drop_behind k.bucket (k.key ++ k.session) delimiter_char,
      )
      (of_session_key-append k.bucket k.key k.session ns nk)
