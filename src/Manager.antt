-- ===== src/Manager.antt =====
-- src/manager/manager_server.cpp: the manager gives every app a coordinator.
pub mod Sticky
pub mod Answers
mod Tests
use pheromone.Base.{
  ℕ, ◌%◌, Bytes, Address, Bool, true, false, ◌&&◌, List, [], ◌∷◌, ◌++◌, Option, some, none,
  bytes_eq, bytes_beq, nat_beq, if◌then◌else◌, ◌>>=◌, get_elem?, length, ◌||◌,
}
use pheromone.Base.Maps.{Map, get, put, has}

pub record CoordIp : Type 0 where
  pub public_ip : Address
  pub private_ip : Address
  pub thread_id : ℕ

-- CoordIp::operator==
abbrev pub same_coord : CoordIp → CoordIp → Bool
same_coord a b =
    bytes_beq a.public_ip b.public_ip
    && bytes_beq a.private_ip b.private_ip
    && nat_beq a.thread_id b.thread_id

-- The variables of run(): the coordinator of every app, and the coordinators, in some order.
pub record Manager : Type 0 where
  pub app_coord_map : Map Bytes (Address × ℕ)
  pub coord_ips : List CoordIp
  pub seed : ℕ

pub record CoordResponse : Type 0 where
  pub coord_ip : Address
  pub thread_id : ℕ
  pub request_id : Bytes

-- CoordSync and CoordQuery.
pub data Event : Type 0 where
  coord_sync : CoordIp → Event
  coord_query : Bytes → Bytes → Event

abbrev pub init : ℕ → Manager
init seed = record { app_coord_map = []; coord_ips = []; seed = seed }

unfoldable pub insert_coord : List CoordIp → CoordIp → List CoordIp
insert_coord [] c = c ∷ []
insert_coord (x ∷ xs) c = if same_coord x c then x ∷ xs else x ∷ insert_coord xs c

abbrev pub response : Address × ℕ → Bytes → CoordResponse
response (ip, tid) request_id = record { coord_ip = ip; thread_id = tid; request_id = request_id }

module _ (rand_r : ℕ → ℕ × ℕ) (external_user : Bool) where
  abbrev pub ip_to_send : CoordIp → Address × ℕ
  ip_to_send c = (if external_user then c.public_ip else c.private_ip, c.thread_id)

  -- A random coordinator for a new app. Without coordinators the remainder by 0 is a crash.
  unfoldable pub assign_coord : Bytes → Manager → Option ((Address × ℕ) × Manager)
  assign_coord app_name m = do
    let (r, seed) = rand_r m.seed
    c ← get_elem? m.coord_ips (r % length m.coord_ips)
    let chosen = ip_to_send c
    some (chosen, record m { seed = seed; app_coord_map = put m.app_coord_map app_name chosen })

  abbrev pub answer : Bytes → Manager → Option (Address × ℕ) → Option ((Address × ℕ) × Manager)
  answer app_name m (some coord) = some (coord, m)
  answer app_name m none = assign_coord app_name m

  unfoldable pub handle : Manager → Event → Option (Manager × List CoordResponse)
  unfolding insert_coord assign_coord
  handle m (coord_sync c) = some (record m { coord_ips = insert_coord m.coord_ips c }, [])
  handle m (coord_query app_name request_id) =
      answer app_name m (get m.app_coord_map app_name) >>= λ r.
      some (r.1, response r.0 request_id ∷ [])

  unfoldable pub serve : Manager → List Event → Option (Manager × List CoordResponse)
  unfolding handle
  serve m [] = some (m, [])
  serve m (e ∷ es) = do
    (m', responses) ← handle m e
    (m'', more) ← serve m' es
    some (m'', responses ++ more)
