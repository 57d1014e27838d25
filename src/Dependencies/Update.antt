-- ===== src/Dependencies/Update.antt =====
-- `apply_dependency_mutation` of task_dependencies.py. `fingerprint` stands for
-- `compute_task_item_fingerprint` of split_operations.py, `is_absolute` for that of pathlib.
use coordinate.Base.{
  String, Bool, true, false, not, ◌&&◌, List, [], ◌∷◌, ◌++◌, ◌==◌, string_dec_eq, if◌then◌else◌,
  Result, ok, ◌>>=◌, ◌>>◌, guard, require,
}
use coordinate.Text.{is_empty, strip}
use coordinate.Table.{select, exists}
use coordinate.Dependencies.Checklist.{Item, Checklist, ChecklistError, find_item, set_dependencies}

pub data DependencyReason : Type 0 where
  invalid_input overlap target_not_found dependency_not_found self_dependency : DependencyReason
  harnessctl_unavailable runtime_copy relative_path : DependencyReason
  checklist_failed : ChecklistError → DependencyReason

abbrev pub R : Type 0 → Type 0
R A = Result DependencyReason A

pub data Action : Type 0 where
  add remove : Action

pub record DependencyRequestOutcome : Type 0 where
  pub dependency : String
  pub action : Action
  -- `applied`, otherwise `already_satisfied`
  pub applied : Bool

-- d in ds
abbrev pub mem : String → List String → Bool
mem d ds = exists (λ x. x == d) ds

-- list(dict.fromkeys(ds))
unfoldable pub dedupe : List String → List String
dedupe [] = []
dedupe (d ∷ ds) = d ∷ select (λ x. not (x == d)) (dedupe ds)

abbrev pub is_filled : String → Bool
is_filled d = not (is_empty (strip d))

abbrev pub all_filled : List String → Bool
all_filled ds = not (exists (λ d. not (is_filled d)) ds)

abbrev pub is_none : List String → Bool
is_none [] = true
is_none (d ∷ ds) = false

-- sorted(set(adds) & set(removes))
abbrev pub meets : List String → List String → Bool
meets adds removes = exists (λ d. mem d removes) adds

pub record Inputs : Type 0 where
  pub adds : List String
  pub removes : List String

unfoldable pub validate_dependency_inputs : String → List String → List String → R Inputs
unfolding dedupe
validate_dependency_inputs task_id to_add to_remove = do
  guard (is_filled task_id) invalid_input
  guard (all_filled (to_add ++ to_remove)) invalid_input
  guard (not (is_none to_add && is_none to_remove)) invalid_input
  guard (not (meets (dedupe to_add) (dedupe to_remove))) overlap
  ok (record { adds = dedupe to_add; removes = dedupe to_remove })

-- The list that the loops build, and what they report.
pub record Progress : Type 0 where
  pub updated : List String
  pub outcomes : List DependencyRequestOutcome

abbrev pub report : String → Action → Bool → DependencyRequestOutcome
report d action applied = record { dependency = d; action = action; applied = applied }

abbrev pub remove_one : String → Progress → Progress
remove_one d p =
    if mem d p.updated
    then record {
      updated = select (λ x. not (x == d)) p.updated;
      outcomes = p.outcomes ++ report d remove true ∷ [];
    }
    else record p { outcomes = p.outcomes ++ report d remove false ∷ [] }

unfoldable pub remove_all : List String → Progress → Progress
remove_all [] p = p
remove_all (d ∷ removes) p = remove_all removes (remove_one d p)

abbrev pub add_one : String → Progress → Progress
add_one d p =
    if mem d p.updated
    then record p { outcomes = p.outcomes ++ report d add false ∷ [] }
    else record { updated = p.updated ++ d ∷ []; outcomes = p.outcomes ++ report d add true ∷ [] }

-- d in item_ids, where an empty id is left out
abbrev pub has_item : Checklist → String → Bool
has_item checklist d =
    exists (λ (item : Item). not (is_empty item.id) && item.id == d) checklist.items

unfoldable pub add_all : Checklist → String → List String → Progress → R Progress
add_all checklist task_id [] p = ok p
add_all checklist task_id (d ∷ adds) p = do
  guard (not (d == task_id)) self_dependency
  guard (has_item checklist d) dependency_not_found
  add_all checklist task_id adds (add_one d p)

abbrev pub any_applied : List DependencyRequestOutcome → Bool
any_applied outcomes = exists (λ (o : DependencyRequestOutcome). o.applied) outcomes

pub record DependencyMutationResult : Type 0 where
  pub workspace_id : String
  pub task_id : String
  pub before_fingerprint : String
  pub after_fingerprint : String
  pub changed : Bool
  pub outcomes : List DependencyRequestOutcome
  pub dependencies : List String

module _ (fingerprint : Item → String → String) where
  abbrev pub changed_item : Bool → List String → Item → Item
  changed_item false updated target = target
  changed_item true updated target = record target { dependencies = updated }

  abbrev pub changed_checklist : Bool → String → List String → Checklist → Checklist
  unfolding set_dependencies
  changed_checklist false task_id updated candidate = candidate
  changed_checklist true task_id updated candidate = record candidate {
    items = set_dependencies task_id updated candidate.items;
  }

  abbrev pub mutation_result : String → String → Item → Progress → DependencyMutationResult
  mutation_result workspace_id task_id target p =
      let changed = any_applied p.outcomes in
      record {
        workspace_id = workspace_id;
        task_id = task_id;
        before_fingerprint = fingerprint target task_id;
        after_fingerprint = fingerprint (changed_item changed p.updated target) task_id;
        changed = changed;
        outcomes = p.outcomes;
        dependencies = p.updated;
      }

  abbrev pub begin : Item → Progress
  begin target = record { updated = target.dependencies; outcomes = [] }

  abbrev pub with_progress :
      String → String → Checklist → Item → Progress → Bool × DependencyMutationResult × Checklist
  with_progress workspace_id task_id candidate target p = (
    any_applied p.outcomes,
    mutation_result workspace_id task_id target p,
    changed_checklist (any_applied p.outcomes) task_id p.updated candidate,
  )

  -- The callback under the lock.
  unfoldable pub update_item :
      String → String → Inputs → Checklist → R (Bool × DependencyMutationResult × Checklist)
  unfolding remove_all add_all find_item
  update_item workspace_id task_id inputs candidate = do
    target ← require (find_item candidate task_id) target_not_found
    p ← add_all candidate task_id inputs.adds (remove_all inputs.removes (begin target))
    ok (with_progress workspace_id task_id candidate target p)
