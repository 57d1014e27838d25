-- ===== src/Dependencies/Recovery.antt =====
-- A dependency update whose mirror failed, and the same command again.
use coordinate.Base.{
  String, ◌≡◌, refl, ap, ◌∙◌, Bool, true, false, Option, none, some, ◌==◌, string_dec_eq, arith, ok,
  err,
}
use coordinate.Json.{Fields}
use coordinate.Table.{find?}
use coordinate.Schema.{Db, Workspace}
use coordinate.Dependencies.Checklist.{Item, Checklist, Disk, Answer}
use coordinate.Dependencies.Update.{R, DependencyReason, Inputs, DependencyMutationResult}
use coordinate.Dependencies.Combined.{
  Pathlib, UpdateRequest, admit_update, apply_dependency_mutation, recovery_required,
  TaskDependenciesRecovery, mirrored, update_admitted, update_in, update_task_dependencies,
}
use coordinate.Dependencies.Outcome.{apply-converges}

mirrored-failed :
    (q : UpdateRequest) (message : String) (m : Answer DependencyReason DependencyMutationResult)
    (c : TaskDependenciesRecovery) (file : Option Checklist)
    → mirrored q (err message) m ≡ (err (recovery_required c), file)
    → (r : DependencyMutationResult) × (m ≡ (ok r, file))
mirrored-failed q message (ok r, f) c file h = (r, ground arith)
mirrored-failed q message (err e, f) c file h = absurd (ground arith)

module _ (fingerprint : Item → String → String) (paths : Pathlib) where
  -- The file half of an update that asks for recovery.
  record Interrupted (disk : Disk) (q : UpdateRequest) (file : Option Checklist) (w : Workspace)
      : Type 0 where
    inputs : Inputs
    admitted : admit_update paths w.path w.harness_root q ≡ ok inputs
    result : DependencyMutationResult
    committed :
        apply_dependency_mutation fingerprint paths disk w.path w.harness_root q ≡ (ok result, file)

  admitted-Interrupted :
      (disk : Disk) (w : Workspace) (harnessctl : Bool) (message : String) (q : UpdateRequest)
      (m : R Inputs) (c : TaskDependenciesRecovery) (file : Option Checklist)
      → admit_update paths w.path w.harness_root q ≡ m
      → update_admitted fingerprint paths disk w harnessctl (err message) q m
        ≡ (err (recovery_required c), file)
      → Interrupted disk q file w
  unfolding apply_dependency_mutation
  admitted-Interrupted disk w harnessctl message q (err e) c file admitted h = absurd (ground arith)
  admitted-Interrupted disk w true message q (ok inputs) c file admitted h =
      let (r, is) =
        mirrored-failed q message
          (apply_dependency_mutation fingerprint paths disk w.path w.harness_root q) c file h in
      record { inputs = inputs; admitted = admitted; result = r; committed = is }
  admitted-Interrupted disk w false message q (ok inputs) c file admitted h = absurd (ground arith)

  update_in-Interrupted :
      (disk : Disk) (harnessctl : Bool) (message : String) (q : UpdateRequest)
      (o : Option Workspace) (c : TaskDependenciesRecovery) (file : Option Checklist)
      → update_in fingerprint paths disk harnessctl (err message) q o
        ≡ (err (recovery_required c), file)
      → (w : Workspace) × (o ≡ some w) × Interrupted disk q file w
  unfolding admit_update
  update_in-Interrupted disk harnessctl message q none c file h = absurd (ground arith)
  update_in-Interrupted disk harnessctl message q (some w) c file h = (
    w,
    refl,
    admitted-Interrupted disk w harnessctl message q (admit_update paths w.path w.harness_root q) c
        file refl h,
  )

  update_in_again :
      (disk : Disk) (report : Fields) (q : UpdateRequest) (w : Workspace) (inputs : Inputs)
      (r : DependencyMutationResult) (file : Option Checklist)
      → admit_update paths w.path w.harness_root q ≡ ok inputs
      → apply_dependency_mutation fingerprint paths disk w.path w.harness_root q ≡ (ok r, file)
      → update_in fingerprint paths disk true (ok report) q (some w) ≡ (ok (r, report), file)
  unfolding apply_dependency_mutation admit_update
  update_in_again disk report q w inputs r file admitted again =
      ap (update_admitted fingerprint paths disk w true (ok report) q) admitted
      ∙ ap (mirrored q (ok report)) again

  -- When an update on a readable checklist fails with a recovery because its mirror failed, the same
  -- command, on the file that it left and once the mirror works and harnessctl is there, succeeds with
  -- the mirror's report, reports that nothing changed, and leaves the file as it is.
  pub update-recovers :
      (db : Db) (disk disk' : Disk) (harnessctl : Bool) (message : String) (report : Fields)
      (q : UpdateRequest) (current : Checklist) (c : TaskDependenciesRecovery)
      (file : Option Checklist)
      → disk.current ≡ some current
      → update_task_dependencies fingerprint paths db disk harnessctl (err message) q
        ≡ (err (recovery_required c), file)
      → disk'.current ≡ file
      → (r : DependencyMutationResult) × (update_task_dependencies fingerprint paths db disk' true
            (ok report)
            q
          ≡ (ok (r, report), file))
        × (r.changed ≡ false)
  unfolding update_task_dependencies
  update-recovers db disk disk' harnessctl message report q current c file on_disk h there =
      let (w, known, half) =
        update_in-Interrupted disk harnessctl message q
          (find? (λ (w : Workspace). w.id == q.workspace_id) db.workspaces) c file h in
      let (r, again, idle, _) =
        apply-converges fingerprint paths disk disk' w.path w.harness_root q current half.result
          file on_disk half.committed there in
      (
        r,
        ap (update_in fingerprint paths disk' true (ok report) q) known
            ∙ update_in_again disk' report q w half.inputs r file half.admitted again,
        idle,
      )
