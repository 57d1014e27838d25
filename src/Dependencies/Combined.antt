-- ===== src/Dependencies/Combined.antt =====
-- `apply_dependency_mutation` and `update_task_dependencies` of task_dependencies.py. `is_absolute` and
-- `path_text` stand for pathlib, `mirror` for what `refresh_state` and `reconcile_workspace`
-- answer.
use Prim.Native.Char.{code}
use coordinate.Base.{
  String, Bool, true, false, not, ◌&&◌, ◌||◌, Option, none, some, List, ◌==◌, nat_dec_eq,
  string_dec_eq, if◌then◌else◌, Result, ok, err, ◌>>=◌, ◌>>◌, guard,
}
use coordinate.Json.{Fields}
use coordinate.Table.{find?}
use coordinate.Schema.{Db, Workspace}
use coordinate.Dependencies.Checklist.{Item, Disk, Answer, mutate_checklist}
use coordinate.Dependencies.Update.{
  R, DependencyReason, invalid_input, harnessctl_unavailable, runtime_copy, relative_path,
  checklist_failed, Inputs, validate_dependency_inputs, DependencyMutationResult, update_item,
  dedupe,
}

-- s.startswith(prefix)
abbrev pub starts_with : String → String → Bool
starts_with String.[] s = true
starts_with (String.◌∷◌ c p) String.[] = false
starts_with (String.◌∷◌ c p) (String.◌∷◌ d s) = code c == code d && starts_with p s

pub record Pathlib : Type 0 where
  pub is_absolute : String → Bool
  pub path_text : String → String

pub record UpdateRequest : Type 0 where
  pub workspace_id : String
  pub task_id : String
  pub to_add : List String
  pub to_remove : List String
  pub allow_runtime_copy : Bool

abbrev pub in_opt : Pathlib → String → Bool
in_opt paths p = starts_with "/opt/" (paths.path_text p) || paths.path_text p == "/opt"

-- The guards before any mutation.
unfoldable pub admit_update : Pathlib → String → String → UpdateRequest → R Inputs
admit_update paths workspace_path harness_root q = do
  inputs ← validate_dependency_inputs q.task_id q.to_add q.to_remove
  guard (paths.is_absolute workspace_path) relative_path
  guard (paths.is_absolute harness_root) relative_path
  guard (q.allow_runtime_copy || not (in_opt paths workspace_path || in_opt paths harness_root))
      runtime_copy
  ok inputs

pub record TaskDependenciesRecovery : Type 0 where
  pub workspace_id : String
  pub task_id : String
  pub adds : List String
  pub removes : List String
  pub allow_runtime_copy : Bool
  pub error_message : String

pub data UpdateError : Type 0 where
  refused : DependencyReason → UpdateError
  recovery_required : TaskDependenciesRecovery → UpdateError

abbrev pub recovery_of : UpdateRequest → String → TaskDependenciesRecovery
unfolding dedupe
recovery_of q message = record {
  workspace_id = q.workspace_id;
  task_id = q.task_id;
  adds = dedupe q.to_add;
  removes = dedupe q.to_remove;
  allow_runtime_copy = q.allow_runtime_copy;
  error_message = message;
}

-- The mirror comes after the file, which keeps what was committed whatever the mirror answers.
abbrev pub mirrored :
    UpdateRequest
    → Result String Fields
    → Answer DependencyReason DependencyMutationResult
    → Answer UpdateError (DependencyMutationResult × Fields)
mirrored q mirror (err e, file) = (err (refused e), file)
mirrored q (ok reconciliation) (ok files, file) = (ok (files, reconciliation), file)
mirrored q (err message) (ok files, file) = (err (recovery_required (recovery_of q message)), file)

module _ (fingerprint : Item → String → String) where
  abbrev pub mutate_admitted :
      Disk → UpdateRequest → R Inputs → Answer DependencyReason DependencyMutationResult
  mutate_admitted disk q (err e) = (err e, disk.current)
  mutate_admitted disk q (ok inputs) =
      mutate_checklist checklist_failed disk
        (update_item fingerprint q.workspace_id q.task_id inputs)

  unfoldable pub apply_dependency_mutation :
      Pathlib
      → Disk
      → String
      → String
      → UpdateRequest
      → Answer DependencyReason DependencyMutationResult
  unfolding admit_update
  apply_dependency_mutation paths disk workspace_path harness_root q =
      mutate_admitted disk q (admit_update paths workspace_path harness_root q)

  abbrev pub update_admitted :
      Pathlib
      → Disk
      → Workspace
      → Bool
      → Result String Fields
      → UpdateRequest
      → R Inputs
      → Answer UpdateError (DependencyMutationResult × Fields)
  unfolding apply_dependency_mutation
  update_admitted paths disk w harnessctl mirror q (err e) = (err (refused e), disk.current)
  update_admitted paths disk w harnessctl mirror q (ok _) =
      if harnessctl
      then mirrored q mirror (apply_dependency_mutation paths disk w.path w.harness_root q)
      else (err (refused harnessctl_unavailable), disk.current)

  abbrev pub update_in :
      Pathlib
      → Disk
      → Bool
      → Result String Fields
      → UpdateRequest
      → Option Workspace
      → Answer UpdateError (DependencyMutationResult × Fields)
  unfolding admit_update
  update_in paths disk harnessctl mirror q none = (err (refused invalid_input), disk.current)
  update_in paths disk harnessctl mirror q (some w) =
      update_admitted paths disk w harnessctl mirror q (admit_update paths w.path w.harness_root q)

  unfoldable pub update_task_dependencies :
      Pathlib
      → Db
      → Disk
      → Bool
      → Result String Fields
      → UpdateRequest
      → Answer UpdateError (DependencyMutationResult × Fields)
  update_task_dependencies paths db disk harnessctl mirror q =
      update_in paths disk harnessctl mirror q
        (find? (λ (w : Workspace). w.id == q.workspace_id) db.workspaces)
