-- ===== src/Coordinator/Directory/Lookups.antt =====
-- What the directory of addresses answers.
use pheromone.Base.{
  ◌≡◌, refl, ap, Address, Key, Bool, true, false, List, [], ◌∷◌, map, All, Option, none, some,
  arith, bytes_eq, ◌==◌, ==_iff, ◌&&◌, if◌then◌else◌, Bool-cases, inl, inr,
}
use pheromone.Base.Sets.{insert}
use pheromone.Base.Maps.{Map, get, put, has, get_or, get-put}
use pheromone.Common.{BucketKey}
use pheromone.Coordinator.Types.{
  success, key_ne, GetAddressResult, BucketKeyAddress, KeyQueryRequest, key_query_response,
  get_bucket_key_from_addr, get_addr_from_bucket_key,
}
use pheromone.Coordinator.Directory.{
  AddressMap, update_address, get_address, query_all, answer, query_handler,
}

abbrev result : Option (List Address) → GetAddressResult
result none = record { error = key_ne; addr = [] }
result (some addrs) = record { error = success; addr = addrs }

-- A bucket that is not there is as one without keys.
get_address_flat :
    (k : BucketKey) (m : AddressMap)
    → get_address k m ≡ result (get (get_or (get m k.bucket) []) k.key)
unfolding get_address get
get_address_flat k m = go (get m k.bucket) refl
  where
    go :
        (o : Option (Map Key (List Address)))
        → get m k.bucket ≡ o
        → get_address k m ≡ result (get (get_or o []) k.key)
    go none e = rw (get_address, e) refl
    go (some keys) e = rw (get_address, e) (either (get keys k.key))
      where
        either :
            (o : Option (List Address))
            → elim o [
              | none ↦ record { error = key_ne; addr = [] }
              | some addrs ↦ record { error = success; addr = addrs }
            ]
              ≡ result o
        either none = refl
        either (some addrs) = refl

-- After an address is noted for an object, a lookup of the object's bucket and key finds the
-- addresses known before with the new one, once; every other lookup finds what it did.
pub get_address-update_address :
    (k j : BucketKey) (addr : Address) (m : AddressMap)
    → get_address j (update_address k addr m) ≡ (
        if k.bucket == j.bucket && k.key == j.key
        then record { error = success; addr = insert (get_address k m).addr addr }
        else get_address j m)
unfolding update_address
get_address-update_address k j addr m =
    rw
      (
        get_address_flat j (update_address k addr m),
        get_address_flat k m,
        get_address_flat j m,
        get-put m k.bucket j.bucket,
      )
      (elim (Bool-cases (k.bucket == j.bucket)) [
        | inl hit ↦ rw (hit, ← ((==_iff k.bucket j.bucket).0 hit)) (key_case (k.key == j.key) refl)
        | inr miss ↦ rw miss refl
      ])
  where
    keys : Map Key (List Address)
    keys = get_or (get m k.bucket) []

    addrs : List Address
    addrs = insert (get_or (get keys k.key) []) addr

    addr_of : (o : Option (List Address)) → (result o).addr ≡ get_or o []
    addr_of none = refl
    addr_of (some a) = refl

    key_case :
        (b : Bool)
        → (k.key == j.key) ≡ b
        → result (get (put keys k.key addrs) j.key) ≡ (
            if b
            then record { error = success; addr = insert (result (get keys k.key)).addr addr }
            else result (get keys j.key))
    key_case true e = rw (get-put, e, addr_of (get keys k.key)) refl
    key_case false e = rw (get-put, e) refl

abbrev pub IsKnown : AddressMap → BucketKeyAddress → Type 0
IsKnown m a = (get_address (get_bucket_key_from_addr a) m).error ≡ success

abbrev pub located : AddressMap → BucketKeyAddress → BucketKey × GetAddressResult
located m a = (get_bucket_key_from_addr a, get_address (get_bucket_key_from_addr a) m)

bucket_of_known :
    (m : AddressMap) (k : BucketKey) → (get_address k m).error ≡ success → has m k.bucket ≡ true
unfolding get_address
bucket_of_known m k h = ground arith

query_all-known :
    (m : AddressMap) (objects : List BucketKeyAddress)
    → All (IsKnown m) objects
    → query_all m objects ≡ (map (located m) objects, success)
unfolding query_all
query_all-known m [] known = refl
query_all-known m (a ∷ rest) known =
    rw
      (
        known.0,
        bucket_of_known m (get_bucket_key_from_addr a) known.0,
        query_all-known m rest known.1,
      )
      refl

-- A query without an error has found addresses for every one of its objects.
pub query_all-IsKnown :
    (m : AddressMap) (objects : List BucketKeyAddress)
    → (query_all m objects).1 ≡ success
    → All (IsKnown m) objects
unfolding query_all
query_all-IsKnown m [] h = tt
query_all-IsKnown m (a ∷ rest) h = ground (arith, query_all-IsKnown m rest)

abbrev pub located_reply : AddressMap → BucketKeyAddress → BucketKeyAddress
located_reply m a =
    let k = get_bucket_key_from_addr a in
    record (get_addr_from_bucket_key k) { ips = (get_address k m).addr }

map-located :
    (m : AddressMap) (objects : List BucketKeyAddress)
    → map (answer success) (map (located m) objects) ≡ map (located_reply m) objects
map-located m [] = refl
map-located m (a ∷ rest) = ap (λ x. located_reply m a ∷ x) (map-located m rest)

-- The answer to a query of which every object has known addresses is one message to the response
-- address, with no error, the id of the request and, in the order of the query, every object with
-- its known addresses.
pub query_handler-located :
    (request : KeyQueryRequest) (m : AddressMap)
    → All (IsKnown m) request.addresses
    → query_handler request m
      ≡ record {
        address = request.response_address;
        message = key_query_response (record {
          addresses = map (located_reply m) request.addresses;
          error = success;
          response_id = request.request_id;
        });
      }
        ∷ []
unfolding query_handler
query_handler-located request m known =
    rw (query_all-known m request.addresses known, map-located m request.addresses) refl
