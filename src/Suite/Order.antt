-- ===== src/Suite/Order.antt =====
-- Plans that can run in their order: what a task reads is a seed or an earlier output, and what it
-- writes is neither. The two loops of `load_suite` over the paths of a task, against that.
use benchhandoff.Prelude.{
  ◌≡◌, refl, sym, ap, ◌∙◌, inl, inr, String, Bool, true, false, ◌||◌, List, [], ◌∷◌, ◌++◌,
  if◌then◌else◌, string_eq, contains, distinct, contains-append, beq_sym, beq_refl, All, arith,
  Bool-cases,
}
use benchhandoff.Errors.{ok, configuration_error, refuse-eq-ok, ok-injective}
use benchhandoff.Plan.{TaskSpec}
use benchhandoff.RunState.{is_some}
use benchhandoff.Suite.Descriptors.{dict_get}
use benchhandoff.Suite.Tasks.{Seen, declare_inputs, declare_outputs}

abbrev pub outputs_of : List TaskSpec → List String
outputs_of [] = []
outputs_of (task ∷ tasks) = task.outputs ++ outputs_of tasks

-- A path that is there before a task runs.
abbrev pub is_there : List String → List String → String → Bool
is_there seeds made path = contains seeds path || contains made path

pub record Runs (seeds made : List String) (task : TaskSpec) : Type 0 where
  pub reads : All (λ path. is_there seeds made path ≡ true) task.inputs
  pub writes : All (λ path. is_there seeds made path ≡ false) task.outputs
  pub writes_once : distinct task.outputs ≡ true

-- Every task runs from the seeds and the outputs made before it.
abbrev pub RunInOrder : List String → List String → List TaskSpec → Type 0
RunInOrder seeds made [] = Unit
RunInOrder seeds made (task ∷ tasks) =
    Runs seeds made task × RunInOrder seeds (made ++ task.outputs) tasks

There-more :
    (seeds made more : List String) (paths : List String)
    → All (λ path. is_there seeds made path ≡ true) paths
    → All (λ path. is_there (seeds ++ more) made path ≡ true) paths
There-more seeds made more [] h = tt
There-more seeds made more (path ∷ paths) h =
    (ground (arith, contains-append seeds more path), There-more seeds made more paths h.1)

Fresh-more :
    (seeds made : List String) (seed : String) (paths : List String)
    → contains paths seed ≡ false
    → All (λ path. is_there seeds made path ≡ false) paths
    → All (λ path. is_there (seeds ++ seed ∷ []) made path ≡ false) paths
Fresh-more seeds made seed [] other h = tt
Fresh-more seeds made seed (path ∷ paths) other h = (
  ground (arith, contains-append seeds (seed ∷ []) path, beq_sym {A = String} path seed),
  Fresh-more seeds made seed paths (ground arith) h.1,
)

-- A new seed that no task makes changes nothing.
pub RunInOrder-seed :
    (seeds made : List String) (seed : String) (tasks : List TaskSpec)
    → contains (outputs_of tasks) seed ≡ false
    → RunInOrder seeds made tasks
    → RunInOrder (seeds ++ seed ∷ []) made tasks
RunInOrder-seed seeds made seed [] other h = tt
RunInOrder-seed seeds made seed (task ∷ tasks) other (runs, h) =
    let parts = contains-append task.outputs (outputs_of tasks) seed in
    (
      record {
        reads = There-more seeds made (seed ∷ []) task.inputs runs.reads;
        writes = Fresh-more seeds made seed task.outputs (ground arith) runs.writes;
        writes_once = runs.writes_once;
      },
      RunInOrder-seed seeds (made ++ task.outputs) seed tasks (ground arith) h,
    )

-- The dict of the produced paths, as the list of its keys.
pub record Produces (seen : Seen) (made : List String) : Type 0 where
  pub agrees : (path : String) → is_some (dict_get seen.produced path) ≡ contains made path

-- What the loop over the inputs does: only seeds come, and every input is there.
pub record InputsDeclared (paths made : List String) (seen done : Seen) : Type 0 where
  pub produced_same : done.produced ≡ seen.produced
  pub tasks_same : done.tasks ≡ seen.tasks
  pub in_order :
      (tasks : List TaskSpec)
      → ((path : String) → contains (outputs_of tasks) path ≡ contains made path)
      → RunInOrder seen.seed_order [] tasks
      → RunInOrder done.seed_order [] tasks
  pub seeds_stay :
      (path : String) → contains seen.seed_order path ≡ true → contains done.seed_order path ≡ true
  pub all_there : All (λ path. is_there done.seed_order made path ≡ true) paths

declare_input_lem :
    (path : String) (made : List String) (seen : Seen)
    → Produces seen made
    → InputsDeclared (path ∷ []) made seen (
        if is_some (dict_get seen.produced path) || contains seen.seed_order path
        then seen
        else record seen { seed_order = seen.seed_order ++ path ∷ [] })
declare_input_lem path made seen p = elim (Bool-cases (is_some (dict_get seen.produced path))) [
  | inl was_made ↦ rw was_made (known (ground (arith, p.agrees path)))
  | inr unmade ↦ elim (Bool-cases (contains seen.seed_order path)) [
    | inl was_seed ↦ rw (unmade, was_seed) (known (ground arith))
    | inr unknown ↦
        rw (unmade, unknown)
          (record {
            produced_same = refl;
            tasks_same = refl;
            in_order = λ tasks same ordered.
                RunInOrder-seed seen.seed_order [] path tasks
                  (same path ∙ sym (p.agrees path) ∙ unmade) ordered;
            seeds_stay = λ q h. ground (arith, contains-append seen.seed_order (path ∷ []) q);
            all_there = (
              ground (
                arith,
                contains-append seen.seed_order (path ∷ []) path,
                beq_refl {A = String} path,
              ),
              tt,
            );
          })
  ]
]
  where
    known : is_there seen.seed_order made path ≡ true → InputsDeclared (path ∷ []) made seen seen
    known h = record {
      produced_same = refl;
      tasks_same = refl;
      in_order = λ tasks same ordered. ordered;
      seeds_stay = λ q h. h;
      all_there = (h, tt);
    }

pub Produces-same :
    (seen done : Seen) (made : List String)
    → done.produced ≡ seen.produced
    → Produces seen made
    → Produces done made
Produces-same seen done made same p = record { agrees = λ path. rw same (p.agrees path) }

There-stays :
    (before after made : List String) (paths : List String)
    → ((path : String) → contains before path ≡ true → contains after path ≡ true)
    → All (λ path. is_there before made path ≡ true) paths
    → All (λ path. is_there after made path ≡ true) paths
There-stays before after made [] stay h = tt
There-stays before after made (path ∷ paths) stay h =
    (ground (arith, stay path), There-stays before after made paths stay h.1)

then_declared :
    {path : String} {paths made : List String} {seen step done : Seen}
    → InputsDeclared (path ∷ []) made seen step
    → InputsDeclared paths made step done
    → InputsDeclared (path ∷ paths) made seen done
then_declared {path} {paths} {made} {seen} {step} {done} one rest = record {
  produced_same = rest.produced_same ∙ one.produced_same;
  tasks_same = rest.tasks_same ∙ one.tasks_same;
  in_order = λ tasks same ordered. rest.in_order tasks same (one.in_order tasks same ordered);
  seeds_stay = λ q h. rest.seeds_stay q (one.seeds_stay q h);
  all_there = (
    (There-stays step.seed_order done.seed_order made (path ∷ []) rest.seeds_stay one.all_there).0,
    rest.all_there,
  );
}

pub declare_inputs_lem :
    (paths made : List String) (seen : Seen)
    → Produces seen made
    → InputsDeclared paths made seen (declare_inputs paths seen)
unfolding declare_inputs
declare_inputs_lem [] made seen p = record {
  produced_same = refl;
  tasks_same = refl;
  in_order = λ tasks same ordered. ordered;
  seeds_stay = λ q h. h;
  all_there = tt;
}
declare_inputs_lem (path ∷ paths) made seen p =
    let one = declare_input_lem path made seen p in
    then_declared one
      (declare_inputs_lem paths made _ (Produces-same seen _ made one.produced_same p))

-- What the loop over the outputs does: each was neither a seed nor made, and is made now.
pub record OutputsDeclared (paths made : List String) (seen done : Seen) : Type 0 where
  pub tasks_kept : done.tasks ≡ seen.tasks
  pub seeds_kept : done.seed_order ≡ seen.seed_order
  pub now_produced :
      (path : String)
      → is_some (dict_get done.produced path) ≡ (contains made path || contains paths path)
  pub all_fresh : All (λ path. is_there seen.seed_order made path ≡ false) paths
  pub all_once : distinct paths ≡ true

-- Freshness after one more path is made.
Fresh-cons :
    (seeds made : List String) (path : String) (paths : List String)
    → All (λ q. is_there seeds (path ∷ made) q ≡ false) paths
    → All (λ q. is_there seeds made q ≡ false) paths × (contains paths path ≡ false)
Fresh-cons seeds made path [] h = (tt, refl)
Fresh-cons seeds made path (q ∷ paths) h =
    let (fresh, other) = Fresh-cons seeds made path paths h.1 in
    ((ground arith, fresh), ground (arith, beq_sym {A = String} path q))

produce : String → String → Seen → Seen
produce path task_id seen = record seen { produced = (path, task_id) ∷ seen.produced }

Produces-produce :
    (path task_id : String) (made : List String) (seen : Seen)
    → Produces seen made
    → Produces (produce path task_id seen) (path ∷ made)
unfolding produce
Produces-produce path task_id made seen p = record {
  agrees = λ q. ground (arith, p.agrees q, beq_sym {A = String} path q);
}

pub declare_outputs_lem :
    (task_id : String) (paths made : List String) (seen : Seen) {done : Seen}
    → Produces seen made
    → declare_outputs task_id paths seen ≡ ok done
    → OutputsDeclared paths made seen done
unfolding declare_outputs produce
declare_outputs_lem task_id [] made seen {done} p h =
    let same : seen ≡ done = ok-injective h in
    record {
      tasks_kept = ap (λ (s : Seen). s.tasks) (sym same);
      seeds_kept = ap (λ (s : Seen). s.seed_order) (sym same);
      now_produced = λ path. rw (← same) (ground (arith, p.agrees path));
      all_fresh = tt;
      all_once = refl;
    }
declare_outputs_lem task_id (path ∷ paths) made seen {done} p h =
    let (unmade, h) =
      refuse-eq-ok (is_some (dict_get seen.produced path)) configuration_error _ h in
    let (no_seed, h) = refuse-eq-ok (contains seen.seed_order path) configuration_error _ h in
    let rest =
      declare_outputs_lem task_id paths (path ∷ made) (produce path task_id seen)
        (Produces-produce path task_id made seen p) h in
    let same = p.agrees path in
    let (fresh, once) = Fresh-cons seen.seed_order made path paths rest.all_fresh in
    record {
      tasks_kept = rest.tasks_kept;
      seeds_kept = rest.seeds_kept;
      now_produced = λ q. ground (arith, rest.now_produced q);
      all_fresh = (ground arith, fresh);
      all_once = ground arith;
    }
