-- ===== src/Dependencies/Desired.antt =====
-- The item that a mutation leaves in the checklist.
use coordinate.Base.{
  String, ◌≡◌, refl, sym, ap, ◌∙◌, Bool, true, false, not, ◌&&◌, ◌||◌, Option, none, some, List, [],
  ◌∷◌, arith, ◌==◌, string_dec_eq, Bool-cases, inl, inr, ok, >>=-eq-ok, require,
}
use coordinate.Table.{find?, exists}
use coordinate.Text.{is_empty}
use coordinate.Dependencies.Checklist.{Item, Checklist, is_item, find_item, set_dependencies}
use coordinate.Dependencies.Update.{
  R, target_not_found, Inputs, mem, has_item, Progress, remove_all, add_all, any_applied,
  DependencyMutationResult, begin, with_progress, changed_checklist, update_item,
}
use coordinate.Dependencies.Member.{mem-remove_all, add_all-Added}
use coordinate.Dependencies.Idle.{remove_all-kept, add_all-kept}

find?-set_dependencies :
    (task_id : String) (ds : List String) (items : List Item) (target : Item)
    → find? (is_item task_id) items ≡ some target
    → find? (is_item task_id) (set_dependencies task_id ds items)
      ≡ some (record target { dependencies = ds })
unfolding set_dependencies
find?-set_dependencies task_id ds [] target h = cc
find?-set_dependencies task_id ds (x ∷ items) target h = elim (Bool-cases (is_item task_id x)) [
  | inl e ↦ ground (arith, e, h)
  | inr e ↦ ground (arith, e, h, find?-set_dependencies task_id ds items target)
]

exists-set_dependencies :
    (task_id d : String) (ds : List String) (items : List Item)
    → exists
        (λ (item : Item). not (is_empty item.id) && item.id == d)
        (set_dependencies task_id ds items)
      ≡ exists (λ (item : Item). not (is_empty item.id) && item.id == d) items
unfolding set_dependencies
exists-set_dependencies task_id d ds [] = refl
exists-set_dependencies task_id d ds (x ∷ items) = elim (Bool-cases (is_item task_id x)) [
  | inl e ↦ rw e refl
  | inr e ↦ rw e (rw (exists-set_dependencies task_id d ds items) refl)
]

require-eq-ok : {E A : Type 0} (o : Option A) (e : E) (a : A) → require o e ≡ ok a → o ≡ some a
require-eq-ok (some x) e a h = ground arith
require-eq-ok none e a h = absurd (ground arith)

same_ok : {A : Type 0} (m : R A) (x y : A) → m ≡ ok x → m ≡ ok y → x ≡ y
same_ok m x y e f = ground arith

module _ (fingerprint : Item → String → String) where
  -- How an update of the item went.
  pub record Updated (workspace_id task_id : String) (inputs : Inputs) (candidate : Checklist)
      (out : Bool × DependencyMutationResult × Checklist) : Type 0 where
    pub target : Item
    pub found : find_item candidate task_id ≡ some target
    pub progress : Progress
    pub added :
        add_all candidate task_id inputs.adds (remove_all inputs.removes (begin fingerprint target))
        ≡ ok progress
    pub answer : out ≡ with_progress fingerprint workspace_id task_id candidate target progress

  pub update_item-Updated :
      (workspace_id task_id : String) (inputs : Inputs) (candidate : Checklist)
      (out : Bool × DependencyMutationResult × Checklist)
      → update_item fingerprint workspace_id task_id inputs candidate ≡ ok out
      → Updated workspace_id task_id inputs candidate out
  unfolding update_item
  update_item-Updated workspace_id task_id inputs candidate out h =
      let (target, found, h₁) =
        >>=-eq-ok (require (find_item candidate task_id) target_not_found) _ h in
      let (p, added, h₂) =
        >>=-eq-ok
          (add_all candidate task_id inputs.adds
            (remove_all inputs.removes (begin fingerprint target)))
          _ h₁ in
      record {
        target = target;
        found = require-eq-ok (find_item candidate task_id) target_not_found target found;
        progress = p;
        added = added;
        answer =
            same_ok (ok (with_progress fingerprint workspace_id task_id candidate target p)) out
              (with_progress fingerprint workspace_id task_id candidate target p) h₂ refl;
      }

  module _ (workspace_id task_id : String) (inputs : Inputs) (candidate : Checklist) (target : Item)
      (p : Progress) (found : find_item candidate task_id ≡ some target)
      (added : add_all candidate task_id inputs.adds
          (remove_all inputs.removes (begin fingerprint target))
        ≡ ok p) where
    -- The dependencies are those that stay, and those that were asked for.
    pub progress-members :
        (x : String)
        → mem x p.updated
          ≡ ((mem x target.dependencies && not (mem x inputs.removes)) || mem x inputs.adds)
    progress-members x =
        let a =
          add_all-Added candidate task_id inputs.adds
            (remove_all inputs.removes (begin fingerprint target)) p added in
        a.members x
        ∙ ap (λ b. b || mem x inputs.adds)
            (mem-remove_all x inputs.removes (begin fingerprint target))

    -- Nothing applied, nothing changed.
    pub kept_list : any_applied p.outcomes ≡ false → p.updated ≡ target.dependencies
    kept_list none_ =
        let q = remove_all inputs.removes (begin fingerprint target) in
        let second = add_all-kept candidate task_id inputs.adds q p added none_ in
        let first =
          remove_all-kept inputs.removes (begin fingerprint target) (sym second.applied ∙ none_) in
        second.list ∙ first.list

    -- The item of the checklist that comes out.
    pub found-changed :
        (changed : Bool)
        → any_applied p.outcomes ≡ changed
        → find_item (changed_checklist fingerprint changed task_id p.updated candidate) task_id
          ≡ some (record target { dependencies = p.updated })
    unfolding find_item set_dependencies
    found-changed true h = find?-set_dependencies task_id p.updated candidate.items target found
    found-changed false h =
        found ∙ ap (λ ds. some (record target { dependencies = ds })) (sym (kept_list h))

    pub has_item-changed :
        (changed : Bool) (d : String)
        → has_item (changed_checklist fingerprint changed task_id p.updated candidate) d
          ≡ has_item candidate d
    unfolding set_dependencies
    has_item-changed true d = exists-set_dependencies task_id d p.updated candidate.items
    has_item-changed false d = refl
