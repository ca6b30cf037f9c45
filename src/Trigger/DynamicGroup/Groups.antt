-- ===== src/Trigger/DynamicGroup/Groups.antt =====
-- What the groups hold, and what the last control object makes of them.
use pheromone.Base.{
  ◌≡◌, refl, Bytes, Key, Bool, false, List, [], ◌∷◌, ◌||◌, ◌&&◌, map, arith, All, length, bytes_eq,
  nat_beq, if◌then◌else◌, ◌==◌, ==_iff, Bool-cases, inl, inr,
}
use pheromone.Base.Sets
use pheromone.Base.Sets.{contains, insert, covers, IsSubset, contains-insert}
use pheromone.Base.Maps.{get, put, get_or, get-put}
use pheromone.Common.{BucketKey}
use pheromone.Trigger.Types.{feed}
use pheromone.Trigger.DynamicGroup.{
  DynamicGroupTrigger, group_of, group_action, control_group_prefix, action_for_new_object, init,
}

-- The keys of one data group.
abbrev pub group_keys : DynamicGroupTrigger → Bytes → List Key
group_keys t group = get_or (get t.data_group_keys_map group) []

-- Whether one of the objects has the key.
abbrev pub arrived : List BucketKey → Key → Bool
arrived [] key = false
arrived (k ∷ ks) key = k.key == key || arrived ks key

abbrev IsData : BucketKey → Type 0
IsData k = (group_of k.key == control_group_prefix) ≡ false

module _ (target : Bytes) where
  data_one :
      (t : DynamicGroupTrigger) (k : BucketKey)
      → IsData k
      → action_for_new_object target t k ≡ (
        record t {
          data_group_keys_map =
              put t.data_group_keys_map
                (group_of k.key)
                (insert (group_keys t (group_of k.key)) k.key);
        },
        [],
      )
  unfolding action_for_new_object
  data_one t k h = rw h

  -- After any data objects, a key stands in a group exactly when it stood there before, or when
  -- it is of this group and one of the objects has it. No data object leads to an action, and the
  -- control keys stay as they were.
  pub feed-groups :
      (t : DynamicGroupTrigger) (ks : List BucketKey) (group : Bytes) (key : Key)
      → All IsData ks
      → (contains (group_keys (feed (action_for_new_object target) t ks).0 group) key
          ≡ (contains (group_keys t group) key || (arrived ks key && group_of key == group)))
        × ((feed (action_for_new_object target) t ks).1 ≡ [])
        × ((feed (action_for_new_object target) t ks).0.cur_control_keys ≡ t.cur_control_keys)
  unfolding feed
  feed-groups t [] group key h = (ground arith, refl, refl)
  feed-groups t (k ∷ ks) group key h =
      let t' : DynamicGroupTrigger = record t {
        data_group_keys_map =
            put t.data_group_keys_map (group_of k.key)
              (insert (group_keys t (group_of k.key)) k.key);
      } in
      let r = feed-groups t' ks group key h.1 in
      rw (data_one t k h.0) (
        ground (
          arith,
          r,
          get-put t.data_group_keys_map (group_of k.key) group
              (insert (group_keys t (group_of k.key)) k.key),
          contains-insert (group_keys t (group_of k.key)) k.key key,
          ==_iff (group_of k.key) group,
          ==_iff k.key key,
          ==_iff (group_of key) group,
        ),
        r.1,
        r.2,
      )

-- The control keys that have arrived are some of the control group, each once.
pub record IsValidGroup (t : DynamicGroupTrigger) : Type 0 where
  pub group_distinct : Sets.Distinct t.control_group
  pub distinct : Sets.Distinct t.cur_control_keys
  pub subset : IsSubset t.cur_control_keys t.control_group

-- The control keys with that of an object, if it is one of the control group.
abbrev pub control_keys : DynamicGroupTrigger → Key → List Key
control_keys t key =
    if contains t.control_group key then insert t.cur_control_keys key else t.cur_control_keys

module _ (target : Bytes) (t : DynamicGroupTrigger) (k : BucketKey) (v : IsValidGroup t) where
  control_keys-IsValid :
      Sets.Distinct (control_keys t k.key) × IsSubset (control_keys t k.key) t.control_group
  control_keys-IsValid = elim (Bool-cases (contains t.control_group k.key)) [
    | inl e ↦
        rw e (Sets.Distinct-insert _ k.key v.distinct, Sets.IsSubset-insert _ _ k.key v.subset e)
    | inr e ↦ rw e (v.distinct, v.subset)
  ]

  -- On a valid trigger, an object of the control group's prefix leads to one action for each data
  -- group, over the group's keys in that object's session, exactly when with it every key of the
  -- control group has arrived; then no data and no control keys are left. Otherwise it leads to no
  -- action, and the data groups stay as they are.
  pub action_for_new_object-control :
      group_of k.key ≡ control_group_prefix
      → action_for_new_object target t k ≡ (
          if covers t.control_group (control_keys t k.key)
          then (init t.control_group, map (group_action target k.session) t.data_group_keys_map)
          else (record t { cur_control_keys = control_keys t k.key }, []))
  unfolding action_for_new_object
  action_for_new_object-control h =
      let c = control_keys-IsValid in
      rw (h, Sets.length-eq-covers (control_keys t k.key) t.control_group c.0 v.group_distinct c.1)

  -- A valid trigger stays valid, whatever object arrives.
  pub action_for_new_object-IsValidGroup : IsValidGroup (action_for_new_object target t k).0
  unfolding action_for_new_object
  action_for_new_object-IsValidGroup =
      let c = control_keys-IsValid in
      elim (Bool-cases (group_of k.key == control_group_prefix)) [
        | inr other ↦
            rw (other, action_for_new_object)
              (record {
                group_distinct = v.group_distinct;
                distinct = v.distinct;
                subset = v.subset;
              })
        | inl control ↦
            elim (Bool-cases (nat_beq (length (control_keys t k.key)) (length t.control_group))) [
              | inl full ↦
                  rw (control, action_for_new_object)
                    (rw (full, action_for_new_object)
                      (record { group_distinct = v.group_distinct; distinct = tt; subset = tt }))
              | inr more ↦
                  rw (control, action_for_new_object)
                    (rw (more, action_for_new_object)
                      (record { group_distinct = v.group_distinct; distinct = c.0; subset = c.1 }))
            ]
      ]
