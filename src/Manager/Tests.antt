-- ===== src/Manager/Tests.antt =====
-- The manager on concrete messages.
use pheromone.Base.{
  ℕ, suc, ◌≡◌, refl, bytes, true, false, List, [], ◌∷◌, some, length, arith, bytes_eq,
}
use pheromone.Base.Maps.{get, put, get_or}
use pheromone.Manager.{
  Manager, CoordIp, CoordResponse, Event, coord_sync, coord_query, init, handle, serve,
}
use pheromone.Manager.Sticky.{handle-serve}
use pheromone.Manager.Answers.{queries, serve-answers}

abbrev coord : ℕ → CoordIp
coord n = record { public_ip = bytes "1.2.3.4"; private_ip = bytes "10.0.0.2"; thread_id = n }

abbrev ready : Manager
ready = record (init 1) { coord_ips = coord 0 ∷ coord 1 ∷ [] }

abbrev events : List Event
events =
    coord_sync (coord 2)
    ∷ coord_query (bytes "other") (bytes "7")
    ∷ coord_query (bytes "app") (bytes "8")
    ∷ []

abbrev queried : Manager × List CoordResponse
unfolding handle
queried =
    get_or (handle (λ n. (n, suc n)) false ready (coord_query (bytes "app") (bytes "6")))
      (ready, [])

abbrev served : Manager × List CoordResponse
unfolding queried serve
served = get_or (serve (λ n. (n, suc n)) false queried.0 events) (ready, [])

handle-serve_example :
    handle (λ n. (n, suc n)) false served.0 (coord_query (bytes "app") (bytes "9"))
    ≡ some (
      served.0,
      record { coord_ip = bytes "10.0.0.2"; thread_id = 1; request_id = bytes "9" } ∷ [],
    )
unfolding handle serve get put
handle-serve_example =
    handle-serve (λ n. (n, suc n)) false ready queried.0 served.0 (bytes "app") (bytes "6")
      (bytes "9") events
      (record { coord_ip = bytes "10.0.0.2"; thread_id = 1; request_id = bytes "6" }) served.1 refl
      refl

serve-answers_example :
    (m' : Manager) × (responses : List CoordResponse) × (serve (λ n. (n, suc n)) true ready events
      ≡ some (m', responses))
    × (length responses ≡ queries events)
serve-answers_example = serve-answers (λ n. (n, suc n)) true events ready (omega arith)
