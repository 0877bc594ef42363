-- ===== src/RunState/Replaced.antt =====
-- The tasks of state.json with the entry of the first incomplete task replaced, under the checks of
-- `_validate_state_shape` in benchhandoff/engine.py.
use benchhandoff.Prelude.{
  ℕ, ◌+◌, ◌≡◌, refl, sym, ap, ◌∙◌, String, true, false, not, ◌&&◌, List, [], ◌∷◌, leb, ◌==◌,
  string_eq, contains, distinct, beq_refl, length, is_nil, arith, &&-parts, ||-parts, not-eq_true,
}
use benchhandoff.Errors.{ok, evidence_error, require-eq-ok, >>=-eq-ok, ok-injective}
use benchhandoff.Codec.{Codec}
use benchhandoff.Portable.{Unicode}
use benchhandoff.Plan.{TaskSpec, Plan, max_total_attempts}
use benchhandoff.RunState.{Attempt, TaskState, task_state, set_task}
use benchhandoff.RunState.ValidState.{
  is_task_completed, is_task_pending, prefix_ordered, states_in_order, validate_task,
  validate_tasks,
}
use benchhandoff.RunState.Entries.{
  ids_of, same_key, other_key, other_states, either_ordered, not_first, listed_apart,
}

pub none_added :
    (n limit : ℕ) (attempts : List Attempt)
    → is_nil attempts ≡ true
    → leb n limit ≡ true
    → leb (n + length attempts) limit ≡ true
none_added n limit [] empty h = ground (arith, h)
none_added n limit (a ∷ rest) empty h = cc

module _ (c : Codec) (u : Unicode) (plan : Plan) where
  -- What the loop over the tasks found of the first of them, and of the others.
  record FirstTask (task : TaskSpec) (specs : List TaskSpec) (total : ℕ)
      (tasks : List (String × TaskState)) (states : List TaskState) : Type 0 where
    ts : TaskState
    known : task_state tasks task.task_id ≡ ok ts
    fits : leb (total + length ts.attempts) max_total_attempts ≡ true
    valid : validate_task c u plan task ts ≡ ok tt
    rest_valid : validate_tasks c u plan specs (total + length ts.attempts) tasks ≡ ok tt
    others : List TaskState
    others_are : states_in_order specs tasks ≡ ok others
    states_are : ts ∷ others ≡ states

  split_first :
      (task : TaskSpec) (specs : List TaskSpec) (total : ℕ) (tasks : List (String × TaskState))
      {states : List TaskState}
      → validate_tasks c u plan (task ∷ specs) total tasks ≡ ok tt
      → states_in_order (task ∷ specs) tasks ≡ ok states
      → FirstTask task specs total tasks states
  unfolding validate_tasks states_in_order
  split_first task specs total tasks valid states_are =
      let (ts, known, h) = >>=-eq-ok (task_state tasks task.task_id) _ valid in
      let (fits, h) =
        require-eq-ok (leb (total + length ts.attempts) max_total_attempts) evidence_error _ h in
      let (_, task_valid, h) = >>=-eq-ok (validate_task c u plan task ts) _ h in
      let (ts', known', k) = >>=-eq-ok (task_state tasks task.task_id) _ states_are in
      let (others, others_are, k) = >>=-eq-ok (states_in_order specs tasks) _ k in
      record {
        ts = ts;
        known = known;
        fits = fits;
        valid = task_valid;
        rest_valid = h;
        others = others;
        others_are = others_are;
        states_are = ap (λ t. t ∷ others) (ok-injective (sym known ∙ known')) ∙ ok-injective k;
      }

  pub accept :
      (task : TaskSpec) (specs : List TaskSpec) (total : ℕ) (tasks : List (String × TaskState))
      {ts : TaskState}
      → task_state tasks task.task_id ≡ ok ts
      → leb (total + length ts.attempts) max_total_attempts ≡ true
      → validate_task c u plan task ts ≡ ok tt
      → validate_tasks c u plan specs (total + length ts.attempts) tasks ≡ ok tt
      → validate_tasks c u plan (task ∷ specs) total tasks ≡ ok tt
  unfolding validate_tasks
  accept task specs total tasks known fits valid rest = rw (known, fits, valid) rest

  -- Untouched tasks are accepted, whatever the total is.
  untouched :
      (specs : List TaskSpec) (tasks : List (String × TaskState)) (id : String) (new : TaskState)
      (total larger : ℕ) {states : List TaskState}
      → contains (ids_of specs) id ≡ false
      → validate_tasks c u plan specs total tasks ≡ ok tt
      → states_in_order specs tasks ≡ ok states
      → prefix_ordered true states ≡ true
      → leb larger max_total_attempts ≡ true
      → validate_tasks c u plan specs larger (set_task tasks id new) ≡ ok tt
  unfolding validate_tasks prefix_ordered
  untouched [] tasks id new total larger absent valid states_are ordered fits = refl
  untouched (task ∷ specs) tasks id new total larger absent valid states_are ordered fits =
      let (differs, absent) = ||-parts (id == task.task_id) (contains (ids_of specs) id) absent in
      let first_of = split_first task specs total tasks valid states_are in
      let ordered : prefix_ordered true (first_of.ts ∷ first_of.others) ≡ true =
        rw (sym first_of.states_are) at ordered in
      let (untouched_task, after) =
        &&-parts (is_task_pending first_of.ts.status && is_nil first_of.ts.attempts)
          (prefix_ordered true first_of.others) ordered in
      let (_, empty) =
        &&-parts (is_task_pending first_of.ts.status) (is_nil first_of.ts.attempts)
          untouched_task in
      let fits = none_added larger max_total_attempts first_of.ts.attempts empty fits in
      accept task specs larger (set_task tasks id new)
        (other_key tasks id task.task_id new differs ∙ first_of.known) fits first_of.valid
        (untouched specs tasks id new _ _ absent first_of.rest_valid first_of.others_are after fits)

-- Past completed tasks, the first incomplete one, whose entry is to be replaced. The total counts the
-- attempts before it, and has room for those of the new entry.
pub data IsNext (tasks : List (String × TaskState)) (task : TaskSpec) (ts new : TaskState)
    : List TaskSpec → ℕ → Type 0 where
  comes_here :
      {rest : List TaskSpec} {total : ℕ}
      → task_state tasks task.task_id ≡ ok ts
      → is_task_completed ts.status ≡ false
      → leb (total + length new.attempts) max_total_attempts ≡ true
      → IsNext tasks task ts new (task ∷ rest) total
  comes_past :
      {other : TaskSpec} {rest : List TaskSpec} {total : ℕ} (done : TaskState)
      → task_state tasks other.task_id ≡ ok done
      → is_task_completed done.status ≡ true
      → IsNext tasks task ts new rest (total + length done.attempts)
      → IsNext tasks task ts new (other ∷ rest) total

module _ (tasks : List (String × TaskState)) (task : TaskSpec) (ts new : TaskState) where
  is_listed :
      {specs : List TaskSpec} {total : ℕ}
      → IsNext tasks task ts new specs total
      → contains (ids_of specs) task.task_id ≡ true
  is_listed (comes_here known open' fits) = ground (arith, beq_refl {A = String} task.task_id)
  is_listed (comes_past done known completed later) = ground (arith, is_listed later)

  module _ (c : Codec) (u : Unicode) (plan : Plan) where
    -- The task was accepted before.
    pub next_valid :
        {specs : List TaskSpec} {total : ℕ} {states : List TaskState}
        → IsNext tasks task ts new specs total
        → validate_tasks c u plan specs total tasks ≡ ok tt
        → states_in_order specs tasks ≡ ok states
        → validate_task c u plan task ts ≡ ok tt
    next_valid (comes_here {rest} {total} known open' fits) valid states_are =
        let first_of = split_first c u plan task rest total tasks valid states_are in
        rw (ok-injective (sym first_of.known ∙ known)) at first_of.valid
    next_valid (comes_past {other} {rest} {total} done known completed later) valid states_are =
        let first_of = split_first c u plan other rest total tasks valid states_are in
        let rest_valid : validate_tasks c u plan rest (total + length done.attempts) tasks ≡ ok tt =
          rw (ok-injective (sym first_of.known ∙ known)) at first_of.rest_valid in
        next_valid later rest_valid first_of.others_are

  module _ (c : Codec) (u : Unicode) (plan : Plan)
      (new_valid : validate_task c u plan task new ≡ ok tt) where
    -- The tasks with the new entry, and their states.
    pub record Accepts (specs : List TaskSpec) (total : ℕ) : Type 0 where
      pub valid : validate_tasks c u plan specs total (set_task tasks task.task_id new) ≡ ok tt
      pub states : List TaskState
      pub in_order : states_in_order specs (set_task tasks task.task_id new) ≡ ok states
      pub ordered : prefix_ordered false states ≡ true

    pub replaced-Accepts :
        {specs : List TaskSpec} {total : ℕ} {states : List TaskState}
        → IsNext tasks task ts new specs total
        → distinct (ids_of specs) ≡ true
        → validate_tasks c u plan specs total tasks ≡ ok tt
        → states_in_order specs tasks ≡ ok states
        → prefix_ordered false states ≡ true
        → Accepts specs total
    unfolding states_in_order prefix_ordered
    replaced-Accepts (comes_here {rest} {total} known open' fits) once valid states_are ordered =
        let id = task.task_id in
        let first_of = split_first c u plan task rest total tasks valid states_are in
        let same = ok-injective (sym first_of.known ∙ known) in
        let ordered : prefix_ordered (not (is_task_completed first_of.ts.status)) first_of.others
            ≡ true =
          not_first first_of.ts first_of.others (rw (sym first_of.states_are) at ordered) in
        let ordered : prefix_ordered true first_of.others ≡ true = rw (same, open') at ordered in
        let (absent, _) =
          &&-parts (not (contains (ids_of rest) id)) (distinct (ids_of rest)) once in
        let absent = not-eq_true (contains (ids_of rest) id) absent in
        let first = same_key tasks id new known in
        let others = other_states rest tasks id new absent ∙ first_of.others_are in
        record {
          valid = accept c u plan task rest total (set_task tasks id new) first fits new_valid (
              untouched c u plan rest tasks id new _ _ absent first_of.rest_valid
                first_of.others_are ordered fits);
          states = new ∷ first_of.others;
          in_order = rw (first, others) refl;
          ordered = either_ordered (not (is_task_completed new.status)) first_of.others ordered;
        }
    replaced-Accepts (comes_past {other} {rest} {total} done known completed later) once valid
          states_are ordered =
        let id = task.task_id in
        let first_of = split_first c u plan other rest total tasks valid states_are in
        let same = ok-injective (sym first_of.known ∙ known) in
        let ordered : prefix_ordered (not (is_task_completed first_of.ts.status)) first_of.others
            ≡ true =
          not_first first_of.ts first_of.others (rw (sym first_of.states_are) at ordered) in
        let ordered : prefix_ordered false first_of.others ≡ true =
          rw (same, completed) at ordered in
        let (absent, once) =
          &&-parts (not (contains (ids_of rest) other.task_id)) (distinct (ids_of rest)) once in
        let apart =
          listed_apart (ids_of rest) id other.task_id (is_listed later)
            (not-eq_true (contains (ids_of rest) other.task_id) absent) in
        let first = other_key tasks id other.task_id new apart ∙ known in
        let done_valid : validate_task c u plan other done ≡ ok tt = rw same at first_of.valid in
        let fits : leb (total + length done.attempts) max_total_attempts ≡ true =
          rw same at first_of.fits in
        let rest_valid : validate_tasks c u plan rest (total + length done.attempts) tasks ≡ ok tt =
          rw same at first_of.rest_valid in
        let after = replaced-Accepts later once rest_valid first_of.others_are ordered in
        record {
          valid =
              accept c u plan other rest total (set_task tasks id new) first fits done_valid
                after.valid;
          states = done ∷ after.states;
          in_order = rw (first, after.in_order) refl;
          ordered = rw completed after.ordered;
        }
