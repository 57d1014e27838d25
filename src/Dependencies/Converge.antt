-- ===== src/Dependencies/Converge.antt =====
-- A mutation is asked for by its outcome: the same request again finds everything satisfied.
use coordinate.Base.{
  String, ◌≡◌, refl, ap, ◌∙◌, Bool, true, false, not, ◌&&◌, ◌||◌, some, arith, ◌==◌, string_dec_eq,
  Bool-cases, inl, inr, ok,
}
use coordinate.Text.{is_empty}
use coordinate.Table.{find?, exists}
use coordinate.Dependencies.Checklist.{Item, Checklist, is_item, find_item, set_dependencies}
use coordinate.Dependencies.Update.{
  Inputs, mem, has_item, Progress, remove_all, add_all, any_applied, DependencyMutationResult,
  begin, mutation_result, changed_checklist, update_item,
}
use coordinate.Dependencies.Member.{add_all-Added}
use coordinate.Dependencies.Idle.{remove_all-IsIdle, add_all-IsIdle}
use coordinate.Dependencies.Desired.{progress-members, found-changed, has_item-changed}

module _ (fingerprint : Item → String → String) (workspace_id task_id : String) (inputs : Inputs)
    (apart : (x : String) → mem x inputs.adds ≡ true → mem x inputs.removes ≡ false) where
  -- On an item with the wanted dependencies the loops do nothing.
  satisfied :
      (candidate : Checklist) (target : Item)
      → ((x : String)
          → mem x inputs.adds ≡ true
          → (not (x == task_id) ≡ true) × (has_item candidate x ≡ true))
      → ((x : String) → mem x inputs.adds ≡ true → mem x target.dependencies ≡ true)
      → ((x : String) → mem x inputs.removes ≡ true → mem x target.dependencies ≡ false)
      → find_item candidate task_id ≡ some target
      → (r : DependencyMutationResult) × (update_item fingerprint workspace_id task_id inputs
            candidate
          ≡ ok (false, r, candidate))
        × (r.dependencies ≡ target.dependencies)
        × (r.changed ≡ false)
  unfolding update_item set_dependencies
  satisfied candidate target known there gone found =
      let first = remove_all-IsIdle inputs.removes (begin fingerprint target) gone in
      let (p, added, second) =
        add_all-IsIdle candidate task_id inputs.adds
          (remove_all inputs.removes (begin fingerprint target)) known
          (λ x e. ap (mem x) first.list ∙ there x e) in
      let nothing : any_applied p.outcomes ≡ false = second.applied ∙ first.applied in
      (
        mutation_result fingerprint workspace_id task_id target p,
        rw (found, added, nothing) refl,
        second.list ∙ first.list,
        nothing,
      )

  module _ (candidate : Checklist) (target : Item) (p : Progress)
      (found : find_item candidate task_id ≡ some target)
      (added : add_all candidate task_id inputs.adds
          (remove_all inputs.removes (begin fingerprint target))
        ≡ ok p) where
    -- The same request on a checklist with the items that came out.
    pub update_again :
        (later : Checklist) (changed : Bool)
        → any_applied p.outcomes ≡ changed
        → later.items ≡ (changed_checklist fingerprint changed task_id p.updated candidate).items
        → (r : DependencyMutationResult) × (update_item fingerprint workspace_id task_id inputs
              later
            ≡ ok (false, r, later))
          × (r.dependencies ≡ p.updated)
          × (r.changed ≡ false)
    unfolding find_item
    update_again later changed is items =
        let members =
          progress-members fingerprint workspace_id task_id inputs candidate target p found added in
        let a =
          add_all-Added candidate task_id inputs.adds
            (remove_all inputs.removes (begin fingerprint target)) p added in
        satisfied later (record target { dependencies = p.updated })
          (λ x e. (
            (a.known x e).0,
            ap (exists (λ (item : Item). not (is_empty item.id) && item.id == x)) items
                ∙ has_item-changed fingerprint workspace_id task_id inputs candidate target p found
                    added changed x
                ∙ (a.known x e).1,
          ))
          (λ x e.
            members x ∙ rw e (or_true (mem x target.dependencies && not (mem x inputs.removes))))
          (λ x e. members x ∙ removed x e)
          (ap (find? (is_item task_id)) items
            ∙ found-changed fingerprint workspace_id task_id inputs candidate target p found added
                changed is)
      where
        or_true : (b : Bool) → (b || true) ≡ true
        or_true true = refl
        or_true false = refl

        removed :
            (x : String)
            → mem x inputs.removes ≡ true
            → ((mem x target.dependencies && not (mem x inputs.removes)) || mem x inputs.adds)
              ≡ false
        removed x e = elim (Bool-cases (mem x inputs.adds)) [
          | inl f ↦ absurd (ground (arith, e, apart x f))
          | inr f ↦ ground (arith, e, f)
        ]
