-- ===== src/Coordinator/Triggers.antt =====
-- src/coordinator/trigger_op_handler.cpp.
pub mod Changes
use pheromone.Base.{
  ℕ, Bytes, Bucket, Address, List, [], ◌∷◌, ◌++◌, map, Bool, true, false, Option, none, some,
  bytes_eq, ◌==◌, ◌||◌, if◌then◌else◌,
}
use pheromone.Base.Maps.{Map, get, put, has, get_or}
use pheromone.Common.Addresses.{endpoint, trigger_update_port}
use pheromone.Trigger.Types.{PrimitiveType, by_time, immediate}
use pheromone.Trigger.Dispatch.{Trigger, set_trigger_option, get_type}
use pheromone.Trigger.Primitives.{Wires, dump_pritimive, gen_trigger_pointer}
use pheromone.Coordinator.Types.{
  Coordinator, NodeStatus, KvsError, success, bucket_ne, TriggerOperationType, add_trigger,
  delete_trigger, unknown_trigger_operation, TriggerOperationRequest, TriggerEntity, UpdateCoordMsg,
  Send, trigger_operation_response, update_coord,
}

-- A message with only some fields set.
abbrev pub empty_entity : TriggerEntity
empty_entity = record {
  bucket_name = [];
  trigger_name = [];
  trigger_option = 0;
  primitive_type = immediate;
  primitive = [];
  session = [];
  hints = [];
}

abbrev pub empty_update : UpdateCoordMsg
empty_update = record {
  ip = [];
  thread_id = 0;
  app_name = [];
  functions = [];
  dependencies = [];
  triggers = [];
  msg_type = 0;
}

-- The message goes to the trigger port of every node.
unfoldable pub to_nodes : UpdateCoordMsg → Map Address NodeStatus → List Send
to_nodes msg [] = []
to_nodes msg ((ip, status) ∷ nodes) =
    record { address = endpoint ip trigger_update_port; message = update_coord msg }
    ∷ to_nodes msg nodes

-- The triggers of a bucket without those of one name.
unfoldable pub without : Bytes → List Trigger → List Trigger
without name [] = []
without name (t ∷ ts) = if t.trigger_name == name then without name ts else t ∷ without name ts

unfoldable pub has_trigger : Bytes → List Trigger → Bool
has_trigger name [] = false
has_trigger name (t ∷ ts) = t.trigger_name == name || has_trigger name ts

abbrev pub is_by_time : PrimitiveType → Bool
is_by_time by_time = true
is_by_time _ = false

module _ (w : Wires) (private_ip : Address) (thread_id : ℕ) where
  abbrev update_for : TriggerOperationRequest → UpdateCoordMsg
  update_for r = record empty_update {
    ip = private_ip;
    thread_id = thread_id;
    app_name = r.app_name;
  }

  -- What the handler puts into the entity of a new trigger; a time trigger stays at the coordinator.
  abbrev added_entities : TriggerOperationRequest → Trigger → List TriggerEntity
  added_entities r t =
      if is_by_time (get_type t)
      then []
      else record {
        bucket_name = r.bucket_name;
        trigger_name = r.trigger_name;
        trigger_option = r.trigger_option;
        primitive_type = r.primitive_type;
        primitive = dump_pritimive w t;
        session = [];
        hints = r.hints;
      }
        ∷ []

  abbrev pub Outcome : Type 0
  Outcome = Coordinator × KvsError × UpdateCoordMsg

  -- `none`: the handler reads the type of the null pointer that it has just reported.
  unfoldable pub add : ℕ → Coordinator → TriggerOperationRequest → Option Outcome
  unfolding set_trigger_option
  add now c r =
      if has c.bucket_app_map r.bucket_name
      then elim (gen_trigger_pointer w now r.primitive_type r.trigger_name r.primitive) [
        | none ↦ none
        | some t ↦
            let t' = set_trigger_option t r.trigger_option in
            some (
              record c {
                bucket_triggers_map =
                    put c.bucket_triggers_map r.bucket_name
                      (get_or (get c.bucket_triggers_map r.bucket_name) [] ++ t' ∷ []);
              },
              success,
              record (update_for r) { triggers = added_entities r t' },
            )
      ]
      else some (c, bucket_ne, update_for r)

  -- Where no trigger has the name, the error of the response stays unset.
  unfoldable pub delete : Coordinator → TriggerOperationRequest → Outcome
  unfolding without has_trigger
  delete c r =
      let ts = get_or (get c.bucket_triggers_map r.bucket_name) [] in
      let c' = record c {
        bucket_triggers_map = put c.bucket_triggers_map r.bucket_name (without r.trigger_name ts);
      } in
      if has c.bucket_app_map r.bucket_name
      then if has_trigger r.trigger_name ts
        then (
          c',
          success,
          record (update_for r) {
            msg_type = 2;
            triggers =
                record empty_entity { bucket_name = r.bucket_name; trigger_name = r.trigger_name }
                ∷ [];
          },
        )
        else (c', success, update_for r)
      else (c, bucket_ne, update_for r)

  unfoldable pub operate :
      ℕ → Coordinator → TriggerOperationType → TriggerOperationRequest → Option Outcome
  unfolding add delete
  operate now c add_trigger r = add now c r
  operate now c delete_trigger r = some (delete c r)
  operate now c (unknown_trigger_operation code) r = some (c, success, update_for r)

  abbrev pub respond : TriggerOperationRequest → Option Outcome → Option (Coordinator × List Send)
  respond r none = none
  respond r (some (c, error, msg)) = some (
    c,
    record {
      address = r.response_address;
      message = trigger_operation_response (record {
        bucket_name = r.bucket_name;
        trigger_name = r.trigger_name;
        response_id = r.request_id;
        error = error;
      });
    }
        ∷ to_nodes msg c.node_status_map,
  )

  -- `now` is the time of the system clock; `none` is a crash.
  unfoldable pub trigger_op_handler :
      ℕ → Coordinator → TriggerOperationRequest → Option (Coordinator × List Send)
  unfolding operate to_nodes
  trigger_op_handler now c r = respond r (operate now c r.operation_type r)
