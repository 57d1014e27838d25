-- ===== src/Examples/Depending.antt =====
-- The theorems on dependency updates, at a checklist of three tasks.
use native.Mathlib.Decide.{ℕ_discrete}
use coordinate.Base.{
  String, ◌≡◌, refl, ok, err, some, true, false, not, ◌&&◌, ◌||◌, [], ◌∷◌, string_dec_eq,
  nat_dec_eq, string_discrete,
}
use coordinate.Json.{end}
use coordinate.Text.{is_space, strip}
use coordinate.Dependencies.Checklist.{
  Item, Checklist, Disk, written, find_item, set_dependencies, mutate_checklist,
}
use coordinate.Dependencies.Update.{
  mem, dedupe, DependencyMutationResult, report, Action, remove_all, add_all, update_item,
  validate_dependency_inputs, self_dependency,
}
use coordinate.Dependencies.Combined.{
  Pathlib, UpdateRequest, admit_update, apply_dependency_mutation, update_task_dependencies,
  recovery_required, TaskDependenciesRecovery,
}
use coordinate.Dependencies.Outcome.{apply-desired, apply-converges}
use coordinate.Dependencies.Recovery.{update-recovers}
use coordinate.Dependencies.Refusal.{apply-refused}
use coordinate.Examples.World.{world}

abbrev task : String → Item
task id = record { id = id; dependencies = []; fields = end }

abbrev plan : Checklist
plan = record {
  items = record (task "a") { dependencies = "b" ∷ [] } ∷ task "b" ∷ task "c" ∷ [];
  updated_at = "monday";
  fields = end;
}

abbrev revised : Checklist
revised = record {
  items = record (task "a") { dependencies = "c" ∷ [] } ∷ task "b" ∷ task "c" ∷ [];
  updated_at = "today";
  fields = end;
}

abbrev disk : Checklist → Disk
disk c = record { current = some c; today = "today"; accepts = λ _. true; write = written }

abbrev print : Item → String → String
print item id = id

abbrev paths : Pathlib
paths = record { is_absolute = λ _. true; path_text = λ p. p }

abbrev ask : UpdateRequest
ask = record {
  workspace_id = "w";
  task_id = "a";
  to_add = "c" ∷ [];
  to_remove = "b" ∷ [];
  allow_runtime_copy = false;
}

abbrev answer : DependencyMutationResult
answer = record {
  workspace_id = "w";
  task_id = "a";
  before_fingerprint = "a";
  after_fingerprint = "a";
  changed = true;
  outcomes = report "b" Action.remove true ∷ report "c" Action.add true ∷ [];
  dependencies = "c" ∷ [];
}

revises :
    apply_dependency_mutation print paths (disk plan) "/work" "/work" ask
    ≡ (ok answer, some revised)
unfolding apply_dependency_mutation admit_update validate_dependency_inputs dedupe mutate_checklist
    update_item find_item set_dependencies remove_all add_all strip is_space string_discrete
    ℕ_discrete
revises = refl

apply-desired_example :
    (before : Item) × (later : Checklist) × (find_item plan "a" ≡ some before)
    × (some revised ≡ some later)
    × (find_item later "a" ≡ some (record before { dependencies = "c" ∷ [] }))
    × ((x : String)
        → mem x ("c" ∷ [])
          ≡ ((mem x before.dependencies && not (mem x ("b" ∷ []))) || mem x ("c" ∷ [])))
apply-desired_example =
    apply-desired print paths (disk plan) "/work" "/work" ask plan answer (some revised) refl
      revises

apply-converges_example :
    (r : DependencyMutationResult) × (apply_dependency_mutation print paths
        (disk revised)
        "/work"
        "/work"
        ask
      ≡ (ok r, some revised))
    × (r.changed ≡ false)
    × (r.dependencies ≡ "c" ∷ [])
apply-converges_example =
    apply-converges print paths (disk plan) (disk revised) "/work" "/work" ask plan answer
      (some revised) refl revises refl

abbrev recovery : TaskDependenciesRecovery
recovery = record {
  workspace_id = "w";
  task_id = "a";
  adds = "c" ∷ [];
  removes = "b" ∷ [];
  allow_runtime_copy = false;
  error_message = "no state";
}

interrupts :
    update_task_dependencies print paths world (disk plan) true (err "no state") ask
    ≡ (err (recovery_required recovery), some revised)
unfolding update_task_dependencies apply_dependency_mutation admit_update validate_dependency_inputs
    dedupe mutate_checklist update_item find_item set_dependencies remove_all add_all strip is_space
    string_discrete ℕ_discrete
interrupts = refl

update-recovers_example :
    (r : DependencyMutationResult) × (update_task_dependencies print paths world
        (disk revised)
        true
        (ok end)
        ask
      ≡ (ok (r, end), some revised))
    × (r.changed ≡ false)
update-recovers_example =
    update-recovers print paths world (disk plan) (disk revised) true "no state" end ask plan
      recovery (some revised) refl interrupts refl

abbrev circle : UpdateRequest
circle = record ask { to_add = "a" ∷ []; to_remove = [] }

refuses :
    apply_dependency_mutation print paths (disk plan) "/work" "/work" circle
    ≡ (err self_dependency, some plan)
unfolding apply_dependency_mutation admit_update validate_dependency_inputs dedupe mutate_checklist
    update_item find_item set_dependencies remove_all add_all strip is_space string_discrete
    ℕ_discrete
refuses = refl

apply-refused_example : some plan ≡ some plan
apply-refused_example =
    apply-refused print paths (disk plan) "/work" "/work" circle self_dependency (some plan) refuses
      (λ e. cc e)
