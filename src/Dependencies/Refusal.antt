-- ===== src/Dependencies/Refusal.antt =====
-- A refused dependency update writes nothing (`apply_dependency_mutation` of task_dependencies.py).
use coordinate.Base.{
  String, ◌≡◌, Bool, true, false, Option, none, some, arith, Bool-cases, inl, inr, ok, err,
}
use coordinate.Dependencies.Checklist.{
  Item, Checklist, Disk, WriteOutcome, written, refused_write, unsure_write, os_error, commit,
  finish_mutation, mutate_from, mutate_checklist,
}
use coordinate.Dependencies.Update.{
  R, DependencyReason, checklist_failed, Inputs, DependencyMutationResult, update_item,
}
use coordinate.Dependencies.Combined.{
  Pathlib, UpdateRequest, admit_update, mutate_admitted, apply_dependency_mutation,
}

abbrev IsDefinite : DependencyReason → Type 0
IsDefinite e = e ≡ checklist_failed os_error → ⊥

commit-kept :
    (disk : Disk) (a : DependencyMutationResult) (c : Checklist) (w : WriteOutcome)
    (e : DependencyReason) (file : Option Checklist)
    → commit checklist_failed disk a c w ≡ (err e, file)
    → IsDefinite e
    → file ≡ disk.current
commit-kept disk a c written e file h definite = absurd (ground arith)
commit-kept disk a c refused_write e file h definite = ground arith
commit-kept disk a c unsure_write e file h definite = absurd (definite (ground arith))

finish-kept :
    (disk : Disk) (m : R (Bool × DependencyMutationResult × Checklist)) (e : DependencyReason)
    (file : Option Checklist)
    → finish_mutation checklist_failed disk m ≡ (err e, file)
    → IsDefinite e
    → file ≡ disk.current
finish-kept disk (err x) e file h definite = ground arith
finish-kept disk (ok (false, a, c)) e file h definite = absurd (ground arith)
finish-kept disk (ok (true, a, c)) e file h definite =
    let dated : Checklist = record c { updated_at = disk.today } in
    elim (Bool-cases (disk.accepts dated)) [
      | inl t ↦ commit-kept disk a dated disk.write e file (ground (arith, t)) definite
      | inr t ↦ ground (arith, t)
    ]

mutate-kept :
    (disk : Disk) (callback : Checklist → R (Bool × DependencyMutationResult × Checklist))
    (o : Option Checklist) (e : DependencyReason) (file : Option Checklist)
    → mutate_from checklist_failed disk callback o ≡ (err e, file)
    → IsDefinite e
    → file ≡ disk.current
mutate-kept disk callback none e file h definite = ground arith
mutate-kept disk callback (some c) e file h definite =
    finish-kept disk (callback c) e file h definite

module _ (fingerprint : Item → String → String) (paths : Pathlib) where
  admitted-kept :
      (disk : Disk) (q : UpdateRequest) (m : R Inputs) (e : DependencyReason)
      (file : Option Checklist)
      → mutate_admitted fingerprint disk q m ≡ (err e, file)
      → IsDefinite e
      → file ≡ disk.current
  unfolding mutate_checklist
  admitted-kept disk q (err x) e file h definite = ground arith
  admitted-kept disk q (ok inputs) e file h definite =
      mutate-kept disk (update_item fingerprint q.workspace_id q.task_id inputs) disk.current e file
        h definite

  -- A mutation that fails for any reason but an error of the write itself leaves the file as it was.
  pub apply-refused :
      (disk : Disk) (workspace_path harness_root : String) (q : UpdateRequest)
      (e : DependencyReason) (file : Option Checklist)
      → apply_dependency_mutation fingerprint paths disk workspace_path harness_root q
        ≡ (err e, file)
      → (e ≡ checklist_failed os_error → ⊥)
      → file ≡ disk.current
  unfolding apply_dependency_mutation
  apply-refused disk workspace_path harness_root q e file h definite =
      admitted-kept disk q (admit_update paths workspace_path harness_root q) e file h definite
