-- ===== src/Scheduler/Step.antt =====
-- scheduler_server.cpp, run(): one pass of the loop, with one reading of the clock.
use pheromone.Base.{ℕ, Bytes, List, [], ◌∷◌, Option, some, none, ◌≡◌, ◌++◌, ◌>>=◌}
use pheromone.Base.Runs.{Run, skip, ◌▷◌, each}
use pheromone.Scheduler.Types.{Scheduler, Settings, Effect, RecvMsg, init}
use pheromone.Trigger.Primitives.{Wires}
use pheromone.Coordinator.Types.{UpdateCoordMsg}
use pheromone.Helper.Types.{CommHelper}
use pheromone.Helper.Updates.{update_coord_msg}
use pheromone.Scheduler.Executors.{executor_message}
use pheromone.Scheduler.Responses.{receive}
use pheromone.Scheduler.Queues.{delay_forwarding, periodic}

-- What a pass finds: the time, a message of an executor or none, an update of a coordinator or none,
-- and what the communication helper returns.
pub record Input : Type 0 where
  pub now : ℕ
  pub message : Option Bytes
  pub update : Option UpdateCoordMsg
  pub received : List RecvMsg

-- A helper that knows nothing yet.
abbrev no_helper : CommHelper
no_helper = record {
  key_address_cache = [];
  app_coord_map = [];
  bucket_coord_map = [];
  routing_threads = [];
  rid = 0;
  io_thread_count = 1;
  io_thread_id = 0;
  ut = record { ip = []; tid = 0 };
  ip = [];
}

module _ (w : Wires) (st : Settings) where
  -- What try_recv_msg does to the scheduler's maps; the helper's own have no part in it.
  unfoldable pub from_coordinator : ℕ → Option UpdateCoordMsg → Run Scheduler Effect
  unfolding update_coord_msg
  from_coordinator now none s = skip s
  from_coordinator now (some msg) s =
      update_coord_msg w now msg (no_helper, s) >>= λ r. some (r.1, [])

  abbrev pub from_executor : ℕ → Option Bytes → Run Scheduler Effect
  from_executor now none = skip
  from_executor now (some message) = executor_message st now message

  unfoldable pub pass : Input → Run Scheduler Effect
  unfolding executor_message from_coordinator receive delay_forwarding periodic
  pass input =
      from_executor input.now input.message
      ▷ from_coordinator input.now input.update
      ▷ each (receive st input.now) input.received
      ▷ delay_forwarding st input.now
      ▷ periodic st input.now

  -- The passes that a scheduler makes while it does not crash, with their effects.
  pub data Runs (time seed : ℕ) : List Input → Scheduler → List Effect → Type 0 where
    start : Runs time seed [] (init st.executor_num time seed) []
    after :
        (inputs : List Input) (input : Input) (s s' : Scheduler) (effects more : List Effect)
        → Runs time seed inputs s effects
        → pass input s ≡ some (s', more)
        → Runs time seed (inputs ++ input ∷ []) s' (effects ++ more)
