-- ===== src/Trigger/DynamicGroup.antt =====
-- trigger.hpp, class DynamicGroupTrigger: data objects gather in groups, named by what stands
-- before the colon, until all control objects have arrived.
pub mod Groups
use pheromone.Base.{
  ℕ, Bytes, Key, Session, Bool, List, [], ◌∷◌, map, bytes, bytes_eq, ◌==◌, nat_beq, length,
  if◌then◌else◌,
}
use pheromone.Base.Sets.{contains, insert}
use pheromone.Base.Maps.{Map, get, put, get_or}
use pheromone.Common.{BucketKey, find, before}
use pheromone.Trigger.Types.{TriggerAction}

abbrev pub group_delimiter : ℕ
group_delimiter = b':'

abbrev pub control_group_prefix : Bytes
control_group_prefix = bytes "ctrl"

pub record DynamicGroupTrigger : Type 0 where
  pub data_group_keys_map : Map Bytes (List Key)
  pub control_group : List Key
  pub cur_control_keys : List Key

abbrev pub init : List Key → DynamicGroupTrigger
init control_group = record {
  data_group_keys_map = [];
  control_group = control_group;
  cur_control_keys = [];
}

-- bucket_key.key_.substr(0, bucket_key.key_.find(group_delimiter))
unfoldable pub group_of : Key → Bytes
unfolding find before
group_of key = before (find group_delimiter key) key

abbrev pub group_action : Bytes → Session → Bytes × List Key → TriggerAction
group_action target session (group, keys) = record {
  function = target;
  session_keys = map (λ key. (session, key)) keys;
}

unfoldable pub action_for_new_object :
    Bytes → DynamicGroupTrigger → BucketKey → DynamicGroupTrigger × List TriggerAction
action_for_new_object target t k =
    let group = group_of k.key in
    let control_keys =
      if contains t.control_group k.key
      then insert t.cur_control_keys k.key
      else t.cur_control_keys in
    if group == control_group_prefix
    then if nat_beq (length control_keys) (length t.control_group)
      then (
        record t { data_group_keys_map = []; cur_control_keys = [] },
        map (group_action target k.session) t.data_group_keys_map,
      )
      else (record t { cur_control_keys = control_keys }, [])
    else (
      record t {
        data_group_keys_map =
            put t.data_group_keys_map group
              (insert (get_or (get t.data_group_keys_map group) []) k.key);
      },
      [],
    )

unfoldable pub clear : DynamicGroupTrigger → DynamicGroupTrigger
clear t = record t { data_group_keys_map = []; cur_control_keys = [] }
