-- ===== src/Common/Tests.antt =====
-- common.hpp on concrete names, lists and numbers.
use pheromone.Base.{◌+◌, ℕ, ◌≡◌, refl, Bytes, bytes, List, [], ◌∷◌, some, arith, length}
use pheromone.Base.Sets.{contains}
use pheromone.Common.{BucketKey, get_bucket_key_from_string, shm_key_name}
use pheromone.Common.Split.{split, implode, split-implode}
use pheromone.Common.Names.{get_bucket_key_from_string-shm_key_name}
use pheromone.Common.Addresses.{endpoint, ip_of_address, ip_of_address-endpoint}
use pheromone.Common.Decimal.{to_string, value_from, value-to_string}
use pheromone.Common.Random.{gen_random, length-gen_random}

abbrev object : BucketKey
object = record { bucket = bytes "b_sum"; key = bytes "k_map"; session = bytes "0123456789abcdef" }

get_bucket_key_from_string-shm_key_name_example :
    get_bucket_key_from_string (shm_key_name object) ≡ object
unfolding contains
get_bucket_key_from_string-shm_key_name_example =
    get_bucket_key_from_string-shm_key_name object refl (omega arith) refl

abbrev parts : List Bytes
parts = bytes "ab" ∷ [] ∷ bytes "c" ∷ []

split-implode_example : split (implode 44 parts) 44 ≡ parts
unfolding contains
split-implode_example = split-implode 44 parts (refl, (refl, (refl, tt)))

ip_of_address-endpoint_example :
    ip_of_address (endpoint (bytes "10.0.0.7") 5050) ≡ some (bytes "10.0.0.7")
unfolding contains
ip_of_address-endpoint_example = ip_of_address-endpoint (bytes "10.0.0.7") 5050 refl

value-to_string_example : value_from 0 (to_string 4090) ≡ 4090
value-to_string_example = value-to_string 4090

-- A generator that counts.
abbrev counter : ℕ → ℕ × ℕ
counter seed = (seed, 1 + seed)

length-gen_random_example : length (gen_random counter 7 16).0 ≡ 16
length-gen_random_example = length-gen_random counter 7 16

printed : to_string 4090 ≡ bytes "4090"
unfolding to_string
printed = refl
