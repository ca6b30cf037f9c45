-- ===== src/Coordinator/Directory.antt =====
-- coordinator.cpp, update_address and get_address, and query_handler.cpp: where the objects are.
pub mod Lookups
use pheromone.Base.{
  ℕ, Bytes, Address, Bucket, Key, Bool, true, false, List, [], ◌∷◌, ◌++◌, map, Option, none, some,
  bytes_eq, if◌then◌else◌,
}
use pheromone.Base.Sets.{insert}
use pheromone.Base.Maps.{Map, get, put, has, get_or}
use pheromone.Common.{BucketKey}
use pheromone.Coordinator.Types.{
  KvsError, success, key_ne, bucket_ne, GetAddressResult, BucketKeyAddress, KeyQueryRequest,
  KeyQueryResponse, Send, key_query_response, get_bucket_key_from_addr, get_addr_from_bucket_key,
}

abbrev pub AddressMap : Type 0
AddressMap = Map Bucket (Map Key (List Address))

-- m[bucket][key].insert(addr)
unfoldable pub update_address : BucketKey → Address → AddressMap → AddressMap
update_address k addr m =
    let keys = get_or (get m k.bucket) [] in
    put m k.bucket (put keys k.key (insert (get_or (get keys k.key) []) addr))

unfoldable pub get_address : BucketKey → AddressMap → GetAddressResult
get_address k m = elim (get m k.bucket) [
  | none ↦ record { error = key_ne; addr = [] }
  | some keys ↦ elim (get keys k.key) [
    | none ↦ record { error = key_ne; addr = [] }
    | some addrs ↦ record { error = success; addr = addrs }
  ]
]

abbrev pub Results : Type 0
Results = List (BucketKey × GetAddressResult)

-- The loop over the addresses; an error ends it.
unfoldable pub query_all : AddressMap → List BucketKeyAddress → Results × KvsError
unfolding get_address get_bucket_key_from_addr
query_all m [] = ([], success)
query_all m (a ∷ rest) =
    let k = get_bucket_key_from_addr a in
    let found = get_address k m in
    let (results, error) = query_all m rest in
    if has m k.bucket
    then elim found.error [ success ↦ ((k, found) ∷ results, error) | e ↦ ((k, found) ∷ [], e) ]
    else ((k, record { error = bucket_ne; addr = [] }) ∷ [], bucket_ne)

abbrev pub answer : KvsError → BucketKey × GetAddressResult → BucketKeyAddress
answer success (k, found) = record (get_addr_from_bucket_key k) { ips = found.addr }
answer _ (k, found) = get_addr_from_bucket_key k

unfoldable pub query_handler : KeyQueryRequest → AddressMap → List Send
unfolding query_all get_addr_from_bucket_key
query_handler request m =
    let (results, error) = query_all m request.addresses in
    record {
      address = request.response_address;
      message = key_query_response (record {
        addresses = map (answer error) results;
        error = error;
        response_id = request.request_id;
      });
    }
    ∷ []
