-- ===== src/Dependencies/Applied.antt =====
-- What `apply_dependency_mutation` makes of the file, and that it converges.
use coordinate.Base.{
  String, ◌≡◌, refl, sym, ap, ◌∙◌, subst, Bool, true, false, not, ◌||◌, Option, some, List, [], ◌∷◌,
  arith, ◌==◌, ==_sound, string_dec_eq, Bool-cases, Result-cases, inl, inr, ok, err, >>=-eq-ok,
  guard,
}
use coordinate.Dependencies.Checklist.{
  Item, Checklist, Disk, WriteOutcome, written, refused_write, unsure_write, commit,
  finish_mutation, mutate_checklist, find_item, set_dependencies,
}
use coordinate.Dependencies.Update.{
  R, relative_path, runtime_copy, checklist_failed, Inputs, mem, meets, dedupe,
  validate_dependency_inputs, DependencyMutationResult, Progress, any_applied, begin,
  mutation_result, changed_checklist, update_item, add_all, remove_all,
}
use coordinate.Dependencies.Combined.{
  Pathlib, UpdateRequest, in_opt, admit_update, apply_dependency_mutation,
}
use coordinate.Dependencies.Desired.{Updated, update_item-Updated}

pub meets-apart :
    (adds removes : List String)
    → meets adds removes ≡ false
    → (x : String) → mem x adds ≡ true
    → mem x removes ≡ false
meets-apart [] removes h x e = absurd (ground arith)
meets-apart (d ∷ adds) removes h x e = elim (Bool-cases (d == x)) [
  | inl f ↦ subst (λ y. mem y removes ≡ false) (==_sound d x f) (ground arith)
  | inr f ↦ meets-apart adds removes (ground arith) x (ground (arith, e, f))
]

-- What the guards know of the requests.
pub record Admitted (q : UpdateRequest) (inputs : Inputs) : Type 0 where
  pub adds : inputs.adds ≡ dedupe q.to_add
  pub removes : inputs.removes ≡ dedupe q.to_remove
  pub apart : meets inputs.adds inputs.removes ≡ false

validated-Admitted :
    (q : UpdateRequest) (inputs : Inputs)
    → validate_dependency_inputs q.task_id q.to_add q.to_remove ≡ ok inputs
    → Admitted q inputs
unfolding validate_dependency_inputs
validated-Admitted q inputs h = record {
  adds = ground arith;
  removes = ground arith;
  apart = ground arith;
}

pub admit_update-Admitted :
    (paths : Pathlib) (workspace_path harness_root : String) (q : UpdateRequest) (inputs : Inputs)
    → admit_update paths workspace_path harness_root q ≡ ok inputs
    → Admitted q inputs
unfolding admit_update
admit_update-Admitted paths workspace_path harness_root q inputs h =
    let (x, validated, h₁) =
      >>=-eq-ok (validate_dependency_inputs q.task_id q.to_add q.to_remove) _ h in
    let (_, _, h₂) = >>=-eq-ok (guard (paths.is_absolute workspace_path) relative_path) _ h₁ in
    let (_, _, h₃) = >>=-eq-ok (guard (paths.is_absolute harness_root) relative_path) _ h₂ in
    let (_, _, h₄) =
      >>=-eq-ok
        (guard
          (q.allow_runtime_copy || not (in_opt paths workspace_path || in_opt paths harness_root))
          runtime_copy)
        _ h₃ in
    subst (Admitted q) {x = x} {y = inputs} (same x inputs h₄) (validated-Admitted q x validated)
  where
    same : (x y : Inputs) → (let m : R Inputs = ok x in m) ≡ ok y → x ≡ y
    same x y e = ground arith

module _ (fingerprint : Item → String → String) where
  -- A mutation that succeeded: how the loops went, and the checklist that the file has then.
  pub record Applied (q : UpdateRequest) (inputs : Inputs) (current : Checklist)
      (r : DependencyMutationResult) (file : Option Checklist) : Type 0 where
    pub target : Item
    pub found : find_item current q.task_id ≡ some target
    pub p : Progress
    pub added :
        add_all current q.task_id inputs.adds (remove_all inputs.removes (begin fingerprint target))
        ≡ ok p
    pub answer : r ≡ mutation_result fingerprint q.workspace_id q.task_id target p
    pub later : Checklist
    pub in_file : file ≡ some later
    pub items :
        later.items
        ≡ (changed_checklist fingerprint (any_applied p.outcomes) q.task_id p.updated current).items

  committed :
      (disk : Disk) (a r : DependencyMutationResult) (c : Checklist) (w : WriteOutcome)
      (file : Option Checklist)
      → commit checklist_failed disk a c w ≡ (ok r, file)
      → (a ≡ r) × (file ≡ some c)
  committed disk a r c written file h = (ground arith, ground arith)
  committed disk a r c refused_write file h = absurd (ground arith)
  committed disk a r c unsure_write file h = absurd (ground arith)

  finished :
      (disk : Disk) (current : Checklist) (out : Bool × DependencyMutationResult × Checklist)
      (r : DependencyMutationResult) (file : Option Checklist)
      → disk.current ≡ some current
      → (out.0 ≡ false → out.2 ≡ current)
      → finish_mutation checklist_failed disk (ok out) ≡ (ok r, file)
      → (out.1 ≡ r) × ((later : Checklist) × (file ≡ some later) × (later.items ≡ out.2.items))
  finished disk current (false, a, c) r file on_disk same h =
      (ground arith, (current, ground arith, ap (λ (x : Checklist). x.items) (sym (same refl))))
  finished disk current (true, a, c) r file on_disk same h =
      let dated : Checklist = record c { updated_at = disk.today } in
      elim (Bool-cases (disk.accepts dated)) [
        | inl e ↦
            let (is, there) = committed disk a r dated disk.write file (ground (arith, e)) in
            (is, (dated, there, refl))
        | inr e ↦ absurd (ground (arith, e))
      ]

  unchanged_checklist :
      (b : Bool) (task_id : String) (ds : List String) (c : Checklist)
      → b ≡ false
      → changed_checklist fingerprint b task_id ds c ≡ c
  unfolding set_dependencies
  unchanged_checklist false task_id ds c h = refl
  unchanged_checklist true task_id ds c h = cc

  updated-Applied :
      (q : UpdateRequest) (inputs : Inputs) (disk : Disk) (current : Checklist)
      (r : DependencyMutationResult) (file : Option Checklist)
      (out : Bool × DependencyMutationResult × Checklist)
      → disk.current ≡ some current
      → Updated fingerprint q.workspace_id q.task_id inputs current out
      → finish_mutation checklist_failed disk (ok out) ≡ (ok r, file)
      → Applied q inputs current r file
  updated-Applied q inputs disk current r file out on_disk u h =
      let p = u.progress in
      let flag : out.0 ≡ any_applied p.outcomes =
        ap (λ (t : Bool × DependencyMutationResult × Checklist). t.0) u.answer in
      let result : out.2
          ≡ changed_checklist fingerprint (any_applied p.outcomes) q.task_id p.updated current =
        ap (λ (t : Bool × DependencyMutationResult × Checklist). t.2) u.answer in
      let (is, (later, there, items)) =
        finished disk current out r file on_disk
          (λ e.
            result
            ∙ unchanged_checklist (any_applied p.outcomes) q.task_id p.updated current
                (sym flag ∙ e))
          h in
      record {
        target = u.target;
        found = u.found;
        p = p;
        added = u.added;
        answer = sym is ∙ ap (λ (t : Bool × DependencyMutationResult × Checklist). t.1) u.answer;
        later = later;
        in_file = there;
        items = items ∙ ap (λ (x : Checklist). x.items) result;
      }

  mutated-Applied :
      (q : UpdateRequest) (inputs : Inputs) (disk : Disk) (current : Checklist)
      (r : DependencyMutationResult) (file : Option Checklist)
      (m : R (Bool × DependencyMutationResult × Checklist))
      → disk.current ≡ some current
      → update_item fingerprint q.workspace_id q.task_id inputs current ≡ m
      → finish_mutation checklist_failed disk m ≡ (ok r, file)
      → Applied q inputs current r file
  mutated-Applied q inputs disk current r file (ok out) on_disk is h =
      updated-Applied q inputs disk current r file out on_disk
        (update_item-Updated fingerprint q.workspace_id q.task_id inputs current out is) h
  mutated-Applied q inputs disk current r file (err e) on_disk is h = absurd (ground arith)

  -- The guards and the mutation of a call that succeeded.
  pub applied :
      (paths : Pathlib) (disk : Disk) (workspace_path harness_root : String) (q : UpdateRequest)
      (current : Checklist) (r : DependencyMutationResult) (file : Option Checklist)
      → disk.current ≡ some current
      → apply_dependency_mutation fingerprint paths disk workspace_path harness_root q
        ≡ (ok r, file)
      → (inputs : Inputs) × (admit_update paths workspace_path harness_root q ≡ ok inputs)
        × Applied q inputs current r file
  unfolding apply_dependency_mutation mutate_checklist
  applied paths disk workspace_path harness_root q current r file on_disk h =
      elim (Result-cases (admit_update paths workspace_path harness_root q)) [
        | inr (e, refused) ↦ absurd (ground (arith, refused))
        | inl (inputs, admitted) ↦ (
          inputs,
          admitted,
          mutated-Applied q inputs disk current r file
              (update_item fingerprint q.workspace_id q.task_id inputs current) on_disk refl
              (ground (arith, admitted, on_disk)),
        )
      ]
