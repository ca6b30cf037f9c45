-- ===== src/Coordinator/Notify/Conservation.antt =====
-- notify_handler.cpp: every call that is sent takes one free executor.
use mathlib.Core.Path.{subst}
use pheromone.Base.{
  ◌>>=◌, ℕ, zero, suc, ◌+◌, ◌%◌, ◌<◌, ◌≡◌, refl, ap, Bytes, Address, Key, List, [], ◌∷◌, ◌++◌, some,
  Holds, Holds-bind, Holds-if, get_elem?, Holds-trivial, arith, bytes_eq, not, ◌&&◌, ◌⊎◌, inl, inr,
  length,
}
use pheromone.Base.Int.{ℤ, pos, negsuc, pos_part, decrement}
use pheromone.Base.Sets
use pheromone.Base.Maps.{Map, get, has, get_or, is_empty, Distinct, Distinct-put}
use pheromone.Common.{BucketKey}
use pheromone.Common.Addresses.{ip_of_address, get_func_exec_address}
use pheromone.Trigger.Types.{TriggerAction}
use pheromone.Trigger.Dispatch.{Trigger, action_for_new_object}
use pheromone.Coordinator.Types.{
  Coordinator, NodeStatus, empty_status, BucketKeyAddress, KeyNotifyRequest, FunctionCall, Send,
  Message, UpdateCoordMsg, function_call, get_bucket_key_from_addr,
}
use pheromone.Coordinator.Notify.{
  Dispatched, take_executor, Context, send_call, run_action, run_actions, dispatch, react,
  run_triggers, sync_nodes, sync_triggers, note_object, handle_object, handle_objects,
  notify_handler,
}
use pheromone.Coordinator.Notify.Routing.{free_of, choose_worker}
use pheromone.Coordinator.Notify.Arguments.{arguments_for}
use pheromone.Coordinator.Notify.Capacity.{free_total, free_total-put, choose_worker-IsFree}

-- The function calls among the messages.
abbrev pub is_call : Message → ℕ
is_call (function_call call) = 1
is_call _ = 0

abbrev pub calls_in : List Send → ℕ
calls_in [] = 0
calls_in (s ∷ sends) = is_call s.message + calls_in sends

pub calls_in-append : (xs ys : List Send) → calls_in (xs ++ ys) ≡ calls_in xs + calls_in ys
calls_in-append [] ys = omega arith
calls_in-append (s ∷ xs) ys = omega (arith, calls_in-append xs ys)

calls_in-call :
    (xs : List Send) (to : Address) (call : FunctionCall)
    → calls_in (xs ++ record { address = to; message = function_call call } ∷ [])
      ≡ suc (calls_in xs)
calls_in-call [] to call = omega arith
calls_in-call (s ∷ xs) to call = omega (arith, calls_in-call xs to call)

-- The free executors and the calls that took one add up to the same.
abbrev pub Balanced : Dispatched → Dispatched → Type 0
Balanced before after =
    Distinct after.nodes
    × (calls_in after.sends + free_total after.nodes
        ≡ calls_in before.sends + free_total before.nodes)

abbrev BalancedRun : Dispatched → List Trigger × List Bytes × Dispatched → Type 0
BalancedRun before (triggers, names, after) = Balanced before after

pos_part-decrement : (n : ℤ) → 0 < pos_part n → suc (pos_part (decrement n)) ≡ pos_part n
pos_part-decrement (pos zero) p = absurd (omega arith)
pos_part-decrement (pos (suc n)) p = refl
pos_part-decrement (negsuc n) p = absurd (omega arith)

free_total-take_executor :
    (node : Address) (nodes : Map Address NodeStatus)
    → 0 < free_of node nodes
    → suc (free_total (take_executor node nodes)) ≡ free_total nodes
unfolding take_executor
free_total-take_executor node nodes p =
    let status = get_or (get nodes node) empty_status in
    let status' = record status { avail_executors = decrement status.avail_executors } in
    omega (arith, free_total-put nodes node status', pos_part-decrement status.avail_executors p)

module _ (rand_r : ℕ → ℕ × ℕ) (io_thread_num : ℕ) where
  send_call-Balanced :
      (worker : Address) (call : FunctionCall) (before d : Dispatched)
      → (worker ≡ []) ⊎ (0 < free_of worker d.nodes)
      → Balanced before d
      → Balanced before (send_call rand_r io_thread_num worker call d)
  unfolding send_call take_executor
  send_call-Balanced [] call before d f b = b
  send_call-Balanced (x ∷ w) call before d f b = (
    Distinct-put d.nodes (x ∷ w) _ b.0,
    elim f [
      | inl e ↦ absurd (omega (arith, ap length e))
      | inr p ↦ omega (
        arith,
        b.1,
        free_total-take_executor (x ∷ w) d.nodes p,
        calls_in-call d.sends (get_func_exec_address (x ∷ w) ((rand_r d.seed).0 % io_thread_num))
            call,
      )
    ],
  )

  run_action-Balanced :
      (values : Map Bytes Bytes) (addresses : Map Key (List Address)) (x : Context)
      (action : TriggerAction) (before d : Dispatched)
      → Balanced before d
      → Holds (Balanced before) (run_action rand_r io_thread_num values addresses x action d)
  unfolding run_action
  run_action-Balanced values addresses x action before d b =
      let found = arguments_for values addresses x.bucket x.arg_flag action.session_keys in
      Holds-bind (λ a. Unit) (Balanced before) found _ (Holds-trivial found)
        λ a u.
          let f = choose_worker-IsFree a.1 d.nodes b.0 in
          let (worker, nodes) = choose_worker a.1 d.nodes in
          send_call-Balanced worker _ before (record d { nodes = nodes; apps = _ }) f.0
            (f.1, omega (arith, f.2, b.1))

  run_actions-Balanced :
      (values : Map Bytes Bytes) (addresses : Map Key (List Address)) (x : Context)
      (actions : List TriggerAction) (before d : Dispatched)
      → Balanced before d
      → Holds (Balanced before) (run_actions rand_r io_thread_num values addresses x actions d)
  unfolding run_actions
  run_actions-Balanced values addresses x [] before d b = b
  run_actions-Balanced values addresses x (action ∷ actions) before d b =
      Holds-bind (Balanced before) (Balanced before) _ _
        (run_action-Balanced values addresses x action before d b)
        (λ d'. run_actions-Balanced values addresses x actions before d')

  dispatch-Balanced :
      (active : List Bytes) (values : Map Bytes Bytes) (addresses : Map Key (List Address))
      (k : BucketKey) (resp : Bytes) (t : Trigger) (actions : List TriggerAction)
      (before d : Dispatched)
      → Balanced before d
      → Holds
          (Balanced before)
          (dispatch rand_r io_thread_num active values addresses k resp t actions d)
  dispatch-Balanced active values addresses k resp t actions before d b =
      Holds-if (Balanced before) (Sets.contains active t.trigger_name) (some d) _ b
        (run_actions-Balanced values addresses _ actions before d b)

  run_triggers-Balanced :
      (now : ℕ) (active : List Bytes) (values : Map Bytes Bytes)
      (addresses : Map Key (List Address)) (k : BucketKey) (resp : Bytes) (ts : List Trigger)
      (before d : Dispatched)
      → Balanced before d
      → Holds
          (BalancedRun before)
          (run_triggers rand_r io_thread_num now active values addresses k resp ts d)
  unfolding run_triggers
  run_triggers-Balanced now active values addresses k resp [] before d b = b
  run_triggers-Balanced now active values addresses k resp (t ∷ ts) before d b =
      let actions = (action_for_new_object now t k).1 in
      Holds-bind (Balanced before) (BalancedRun before)
        (dispatch rand_r io_thread_num active values addresses k resp t actions d) _
        (dispatch-Balanced active values addresses k resp t actions before d b)
        (λ d' b'.
          Holds-bind (BalancedRun before) (BalancedRun before)
            (run_triggers rand_r io_thread_num now active values addresses k resp ts d') _
            (run_triggers-Balanced now active values addresses k resp ts before d' b')
            (λ r b''. b''))

  calls_in-sync_nodes :
      (msg : UpdateCoordMsg) (ips : List Address) → calls_in (sync_nodes msg ips) ≡ 0
  unfolding sync_nodes
  calls_in-sync_nodes msg [] = refl
  calls_in-sync_nodes msg (ip ∷ ips) = omega (arith, calls_in-sync_nodes msg ips)

  calls_in-sync_triggers :
      (k : BucketKey) (names : List Bytes) (ips : List Address)
      → calls_in (sync_triggers k names ips) ≡ 0
  unfolding sync_triggers
  calls_in-sync_triggers k [] ips = refl
  calls_in-sync_triggers k (name ∷ names) ips = calls_in-sync_nodes _ ips

  note_object-nodes :
      (a : BucketKeyAddress) (addr ip : Address) (c : Coordinator)
      → (note_object a addr ip c).node_status_map ≡ c.node_status_map
  unfolding note_object
  note_object-nodes a addr ip c = ground arith

  -- The same for the state and the messages of a handler.
  abbrev pub Conserves : Coordinator → Coordinator × List Send → Type 0
  Conserves before (after, sends) =
      Distinct after.node_status_map
      × (calls_in sends + free_total after.node_status_map ≡ free_total before.node_status_map)

  handle_object-Conserves :
      (now : ℕ) (request : KeyNotifyRequest) (a : BucketKeyAddress) (c : Coordinator)
      → Distinct c.node_status_map
      → Holds (Conserves c) (handle_object rand_r io_thread_num now request a c)
  unfolding handle_object
  handle_object-Conserves now request a c distinct =
      let k = get_bucket_key_from_addr a in
      Holds-bind (λ x. Unit) (Conserves c) (get_elem? a.ips 0) _ (Holds-trivial _)
        λ addr u.
          Holds-bind (λ x. Unit) (Conserves c) (ip_of_address addr) _ (Holds-trivial _)
            λ ip v.
              let same = note_object-nodes a addr ip c in
              let before : Dispatched = record {
                nodes = c.node_status_map;
                apps = [];
                seed = 0;
                sends = [];
              } in
              Holds-bind (BalancedRun before) (Conserves c)
                (react rand_r io_thread_num now request k (note_object a addr ip c)) _
                (run_triggers-Balanced now request.active_trigger_names _ _ _ _ _ before _
                  (rw same distinct, rw same refl))
                λ r b. (
                  b.0,
                  omega (arith, b.1, calls_in-append r.2.sends _, calls_in-sync_triggers k r.1 _),
                )

  pub handle_objects-Conserves :
      (now : ℕ) (request : KeyNotifyRequest) (objects : List BucketKeyAddress) (c : Coordinator)
      → Distinct c.node_status_map
      → Holds (Conserves c) (handle_objects rand_r io_thread_num now request objects c)
  unfolding handle_objects
  handle_objects-Conserves now request [] c distinct = (distinct, omega arith)
  handle_objects-Conserves now request (a ∷ rest) c distinct =
      Holds-if (Conserves c) (is_empty a.payload && not (has c.bucket_app_map a.bucket))
        (get_elem? a.ips 0 >>= λ addr. some (c, [])) _
        (Holds-bind (λ x. Unit) (Conserves c) (get_elem? a.ips 0) _ (Holds-trivial _)
          (λ addr u. (distinct, omega arith)))
        (Holds-bind (Conserves c) (Conserves c) (handle_object rand_r io_thread_num now request a c)
          _ (handle_object-Conserves now request a c distinct)
          λ r h.
            Holds-bind (Conserves r.0) (Conserves c)
              (handle_objects rand_r io_thread_num now request rest r.0) _
              (handle_objects-Conserves now request rest r.0 h.0)
              λ q g. (g.0, omega (arith, h.1, g.1, calls_in-append r.1 q.1)))

  -- Where every node has one status and the handler does not crash, the calls that it sends and the
  -- free executors that the coordinator counts after it add up to the free executors before it: no
  -- call is sent without an executor for it.
  pub notify_handler-conserves :
      (now : ℕ) (c c' : Coordinator) (request : KeyNotifyRequest) (sends : List Send)
      → Distinct c.node_status_map
      → notify_handler rand_r io_thread_num now c request ≡ some (c', sends)
      → calls_in sends + free_total c'.node_status_map ≡ free_total c.node_status_map
  unfolding notify_handler
  notify_handler-conserves now c c' request sends distinct done =
      (subst (Holds (Conserves c)) done
        (handle_objects-Conserves now request request.addresses c distinct)).1
