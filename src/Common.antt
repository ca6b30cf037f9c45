-- ===== src/Common.antt =====
-- common/include/common.hpp: the names of objects and buckets. Strings are lists of byte values.
pub mod Split
pub mod Names
pub mod Decimal
pub mod Addresses
pub mod Random
mod Tests
pub mod Stoi
use pheromone.Base.{
  ℕ, zero, suc, ◌-◌, Bytes, Bucket, Key, Session, bytes, Bool, Option, none, some, List, [], ◌∷◌,
  ◌++◌, nat_beq, ltb, if◌then◌else◌, length, take, drop,
}

-- kDelimiter and kDelimiterChar
abbrev pub delimiter_char : ℕ
delimiter_char = b'|'

abbrev pub delimiter : Bytes
delimiter = delimiter_char ∷ []

abbrev pub bucket_name_direct_invoc : Bucket
bucket_name_direct_invoc = bytes "direct_invoc"

abbrev pub kvs_key_prefix : Bytes
kvs_key_prefix = bytes "KVS"

unfoldable pub get_key_session_name : Key → Session → Bytes
get_key_session_name key session = key ++ session

unfoldable pub get_local_object_name : Bucket → Key → Session → Bytes
unfolding get_key_session_name
get_local_object_name bucket key session = bucket ++ (delimiter ++ get_key_session_name key session)

pub record BucketKey : Type 0 where
  pub bucket : Bucket
  pub key : Key
  pub session : Session

-- BucketKey(Bucket &bucket, string &session_key): the last 16 bytes are the session. A shorter
-- text leaves both the key and the session empty.
unfoldable pub of_session_key : Bucket → Bytes → BucketKey
of_session_key bucket session_key =
    let key_size = length session_key in
    if ltb 16 key_size
    then record {
      bucket = bucket;
      key = take (key_size - 16) session_key;
      session = drop (key_size - 16) session_key;
    }
    else record { bucket = bucket; key = []; session = [] }

unfoldable pub shm_key_name : BucketKey → Bytes
unfolding get_local_object_name
shm_key_name k = get_local_object_name k.bucket k.key k.session

abbrev shift : Option ℕ → Option ℕ
shift none = none
shift (some i) = some (suc i)

-- s.find(c) for a text of one character; `none` is npos.
unfoldable pub find : ℕ → Bytes → Option ℕ
find c [] = none
find c (x ∷ xs) = if nat_beq x c then some 0 else shift (find c xs)

-- s.substr(0, n) and s.substr(n + 1), where npos takes everything and npos + 1 is 0.
unfoldable pub before : Option ℕ → Bytes → Bytes
before none s = s
before (some i) s = take i s

unfoldable pub after : Option ℕ → Bytes → Bytes
after none s = s
after (some i) s = drop (suc i) s

unfoldable pub get_bucket_key_from_string : Bytes → BucketKey
unfolding find before after of_session_key
get_bucket_key_from_string key_name =
    let splitter_index = find delimiter_char key_name in
    of_session_key (before splitter_index key_name) (after splitter_index key_name)
