-- ===== src/RunState/Entries.antt =====
-- The entries of the tasks in state.json when one of them is replaced, and their order as the loops of
-- `_validate_state_shape` in benchhandoff/engine.py check it.
use benchhandoff.Prelude.{
  ◌≡◌, refl, ap, String, Bool, true, false, not, ◌&&◌, List, [], ◌∷◌, map, ◌==◌, string_eq,
  contains, is_nil, arith, &&-parts, ||-parts, Bool-cases, inl, inr, if◌then◌else◌,
}
use benchhandoff.Errors.{ok}
use benchhandoff.Plan.{TaskSpec}
use benchhandoff.RunState.{TaskState, TaskStatus, task_state, set_task}
use benchhandoff.RunState.ValidState.{
  is_task_completed, is_task_pending, prefix_ordered, states_in_order,
}

abbrev pub ids_of : List TaskSpec → List String
ids_of specs = map (λ (task : TaskSpec). task.task_id) specs

abbrev pub keys_of : List (String × TaskState) → List String
keys_of tasks = map (λ ((id, _) : String × TaskState). id) tasks

pub set_task-keys :
    (tasks : List (String × TaskState)) (id : String) (new : TaskState)
    → keys_of (set_task tasks id new) ≡ keys_of tasks
unfolding set_task
set_task-keys [] id new = refl
set_task-keys ((key, ts) ∷ tasks) id new = ground (arith, set_task-keys tasks id new)

pub same_key :
    (tasks : List (String × TaskState)) (id : String) (new : TaskState) {ts : TaskState}
    → task_state tasks id ≡ ok ts
    → task_state (set_task tasks id new) id ≡ ok new
unfolding set_task task_state
same_key [] id new h = cc
same_key ((key, old) ∷ tasks) id new h = elim (Bool-cases (key == id)) [
  | inl same ↦ rw (same, same) refl
  | inr differs ↦ rw (differs, differs) (same_key tasks id new (rw differs at h))
]

pub other_key :
    (tasks : List (String × TaskState)) (id other : String) (new : TaskState)
    → (id == other) ≡ false
    → task_state (set_task tasks id new) other ≡ task_state tasks other
unfolding set_task task_state
other_key [] id other new h = refl
other_key ((key, old) ∷ tasks) id other new h = elim (Bool-cases (key == id)) [
  | inl same ↦
      let key_is = (string_eq.same_iff key id).0 same in
      let apart : (key == other) ≡ false = rw key_is h in rw (same, apart) refl
  | inr differs ↦
      rw differs (ap (λ r. if key == other then ok old else r) (other_key tasks id other new h))
]

-- Tasks that are not the one of the entry.
pub other_states :
    (specs : List TaskSpec) (tasks : List (String × TaskState)) (id : String) (new : TaskState)
    → contains (ids_of specs) id ≡ false
    → states_in_order specs (set_task tasks id new) ≡ states_in_order specs tasks
unfolding states_in_order
other_states [] tasks id new h = refl
other_states (task ∷ specs) tasks id new h =
    let (differs, absent) = ||-parts (id == task.task_id) (contains (ids_of specs) id) h in
    rw (other_key tasks id task.task_id new differs, other_states specs tasks id new absent) refl

pending_first :
    (ts : TaskState) (states : List TaskState)
    → prefix_ordered true (ts ∷ states) ≡ true
    → prefix_ordered (not (is_task_completed ts.status)) states ≡ true
unfolding prefix_ordered
pending_first ts states h =
    elim ts.status
        as (λ status.
          (is_task_pending status && is_nil ts.attempts && prefix_ordered true states) ≡ true
          → prefix_ordered (not (is_task_completed status)) states ≡ true) [
            | TaskStatus.pending ↦ λ k. (&&-parts _ _ (k)).1
            | _ ↦ λ k. cc
          ]
      h

-- Where no task is complete any more, every task may be.
still_ordered :
    (states : List TaskState)
    → prefix_ordered true states ≡ true
    → prefix_ordered false states ≡ true
unfolding prefix_ordered
still_ordered [] h = refl
still_ordered (ts ∷ states) h = pending_first ts states h

pub either_ordered :
    (b : Bool) (states : List TaskState)
    → prefix_ordered true states ≡ true
    → prefix_ordered b states ≡ true
either_ordered true states h = h
either_ordered false states h = still_ordered states h

pub not_first :
    (ts : TaskState) (states : List TaskState)
    → prefix_ordered false (ts ∷ states) ≡ true
    → prefix_ordered (not (is_task_completed ts.status)) states ≡ true
unfolding prefix_ordered
not_first ts states h = h

pub listed_apart :
    (ids : List String) (id other : String)
    → contains ids id ≡ true
    → contains ids other ≡ false
    → (id == other) ≡ false
listed_apart ids id other there absent = elim (Bool-cases (id == other)) [
  | inl same ↦
      let other_there : contains ids other ≡ true =
        rw ((string_eq.same_iff id other).0 same) at there in
      cc
  | inr differs ↦ differs
]
