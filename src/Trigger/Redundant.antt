-- ===== src/Trigger/Redundant.antt =====
-- trigger.hpp, class RedundantTrigger: the first `k` of `n` objects trigger the function.
pub mod Windows
use pheromone.Base.{
  ℕ, suc, ◌+◌, ◌%◌, Bytes, Key, Session, List, [], ◌∷◌, ◌++◌, leb, nat_beq, if◌then◌else◌,
}
use pheromone.Common.{BucketKey}
use pheromone.Trigger.Types.{TriggerAction, session_key}

-- `unsigned` numbers, 32 bits wide.
pub record RedundantTrigger : Type 0 where
  pub k : ℕ
  pub n : ℕ
  pub count : ℕ
  pub buffer : List (Session × Key)

abbrev pub init : ℕ → ℕ → RedundantTrigger
init k n = record { k = k; n = n; count = 0; buffer = [] }

abbrev pub unsigned : ℕ → ℕ
unsigned a = a % 4294967296

unfoldable pub action_for_new_object :
    Bytes → RedundantTrigger → BucketKey → RedundantTrigger × List TriggerAction
action_for_new_object target t key =
    let count = unsigned (t.count + 1) in
    let buffer = t.buffer ++ session_key key ∷ [] in
    if leb count t.k
    then (if nat_beq count t.k
        then (
          record t { count = count; buffer = [] },
          record { function = target; session_keys = buffer } ∷ [],
        )
        else (record t { count = count; buffer = buffer }, []))
    else if leb t.n count
    then (record t { count = 0 }, [])
    else (record t { count = count }, [])

unfoldable pub clear : RedundantTrigger → RedundantTrigger
clear t = record t { count = unsigned (t.count + t.k); buffer = [] }
