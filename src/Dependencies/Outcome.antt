-- ===== src/Dependencies/Outcome.antt =====
-- The outcome of a dependency update, and its recovery (task_dependencies.py).
use coordinate.Base.{
  String, ◌≡◌, refl, sym, ap, ◌∙◌, false, not, ◌&&◌, ◌||◌, Option, some, ◌==◌, string_dec_eq, ok,
}
use coordinate.Table.{find?}
use coordinate.Dependencies.Checklist.{Item, Checklist, Disk, mutate_checklist, find_item}
use coordinate.Dependencies.Update.{Inputs, mem, dedupe, any_applied, DependencyMutationResult}
use coordinate.Dependencies.Combined.{
  Pathlib, UpdateRequest, admit_update, apply_dependency_mutation,
}
use coordinate.Dependencies.Member.{mem-dedupe}
use coordinate.Dependencies.Desired.{progress-members, found-changed}
use coordinate.Dependencies.Converge.{update_again}
use coordinate.Dependencies.Applied.{Admitted, meets-apart, admit_update-Admitted, Applied, applied}

module _ (fingerprint : Item → String → String) (paths : Pathlib) where
  wanted :
      (q : UpdateRequest) (inputs : Inputs) (current : Checklist) (r : DependencyMutationResult)
      (file : Option Checklist) (a : Applied fingerprint q inputs current r file)
      → Admitted q inputs
      → (x : String)
      → mem x r.dependencies
        ≡ ((mem x a.target.dependencies && not (mem x q.to_remove)) || mem x q.to_add)
  wanted q inputs current r file a g x =
      ap (λ (y : DependencyMutationResult). mem x y.dependencies) a.answer
      ∙ progress-members fingerprint q.workspace_id q.task_id inputs current a.target a.p a.found
          a.added x
      ∙ ap (λ ds. (mem x a.target.dependencies && not (mem x ds)) || mem x inputs.adds) g.removes
      ∙ ap (λ ds. (mem x a.target.dependencies && not (mem x (dedupe q.to_remove))) || mem x ds)
          g.adds
      ∙ rw (mem-dedupe x q.to_remove, mem-dedupe x q.to_add) refl

  left_item :
      (q : UpdateRequest) (inputs : Inputs) (current : Checklist) (r : DependencyMutationResult)
      (file : Option Checklist) (a : Applied fingerprint q inputs current r file)
      → find_item a.later q.task_id ≡ some (record a.target { dependencies = r.dependencies })
  unfolding find_item
  left_item q inputs current r file a =
      ap (find? (λ (item : Item). item.id == q.task_id)) a.items
      ∙ found-changed fingerprint q.workspace_id q.task_id inputs current a.target a.p a.found
          a.added (any_applied a.p.outcomes) refl
      ∙ ap
          (λ (y : DependencyMutationResult).
            some (record a.target { dependencies = y.dependencies }))
          (sym a.answer)

  -- A mutation that succeeds on a readable checklist leaves a checklist in the file in which the item
  -- of the task is as before but for its dependencies, which are those of the answer: exactly the
  -- former ones that were not to be removed, and those that were to be added.
  pub apply-desired :
      (disk : Disk) (workspace_path harness_root : String) (q : UpdateRequest) (current : Checklist)
      (r : DependencyMutationResult) (file : Option Checklist)
      → disk.current ≡ some current
      → apply_dependency_mutation fingerprint paths disk workspace_path harness_root q
        ≡ (ok r, file)
      → (before : Item) × (later : Checklist) × (find_item current q.task_id ≡ some before)
        × (file ≡ some later)
        × (find_item later q.task_id ≡ some (record before { dependencies = r.dependencies }))
        × ((x : String)
            → mem x r.dependencies
              ≡ ((mem x before.dependencies && not (mem x q.to_remove)) || mem x q.to_add))
  apply-desired disk workspace_path harness_root q current r file on_disk h =
      let (inputs, admitted, a) =
        applied fingerprint paths disk workspace_path harness_root q current r file on_disk h in
      let g = admit_update-Admitted paths workspace_path harness_root q inputs admitted in
      (
        a.target,
        a.later,
        a.found,
        a.in_file,
        left_item q inputs current r file a,
        wanted q inputs current r file a g,
      )

  mutated_again :
      (disk' : Disk) (q : UpdateRequest) (inputs : Inputs) (current : Checklist)
      (r : DependencyMutationResult) (file : Option Checklist)
      (workspace_path harness_root : String)
      → admit_update paths workspace_path harness_root q ≡ ok inputs
      → Applied fingerprint q inputs current r file
      → disk'.current ≡ file
      → (r' : DependencyMutationResult) × (apply_dependency_mutation fingerprint paths disk'
            workspace_path harness_root q
          ≡ (ok r', file))
        × (r'.changed ≡ false)
        × (r'.dependencies ≡ r.dependencies)
  unfolding apply_dependency_mutation mutate_checklist
  mutated_again disk' q inputs current r file workspace_path harness_root admitted a there =
      let g = admit_update-Admitted paths workspace_path harness_root q inputs admitted in
      let (r', again, same, idle) =
        update_again fingerprint q.workspace_id q.task_id inputs
          (meets-apart inputs.adds inputs.removes g.apart) current a.target a.p a.found a.added
          a.later (any_applied a.p.outcomes) refl a.items in
      let now : disk'.current ≡ some a.later = there ∙ a.in_file in
      (
        r',
        rw (admitted, now, again, a.in_file) refl,
        idle,
        same ∙ ap (λ (y : DependencyMutationResult). y.dependencies) (sym a.answer),
      )

  -- After a mutation that succeeded, the same request on the file that it left, whatever else the disk
  -- answers by then, succeeds, reports that nothing changed with the same dependencies, and leaves
  -- the file as it is.
  pub apply-converges :
      (disk disk' : Disk) (workspace_path harness_root : String) (q : UpdateRequest)
      (current : Checklist) (r : DependencyMutationResult) (file : Option Checklist)
      → disk.current ≡ some current
      → apply_dependency_mutation fingerprint paths disk workspace_path harness_root q
        ≡ (ok r, file)
      → disk'.current ≡ file
      → (r' : DependencyMutationResult) × (apply_dependency_mutation fingerprint paths disk'
            workspace_path harness_root q
          ≡ (ok r', file))
        × (r'.changed ≡ false)
        × (r'.dependencies ≡ r.dependencies)
  apply-converges disk disk' workspace_path harness_root q current r file on_disk h there =
      let (inputs, admitted, a) =
        applied fingerprint paths disk workspace_path harness_root q current r file on_disk h in
      mutated_again disk' q inputs current r file workspace_path harness_root admitted a there
