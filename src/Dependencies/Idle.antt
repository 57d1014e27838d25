-- ===== src/Dependencies/Idle.antt =====
-- Requests that are already satisfied: the loops leave the list as it is and report nothing applied.
use coordinate.Base.{
  String, ◌≡◌, refl, ap, ◌∙◌, subst, true, false, not, ◌||◌, List, [], ◌∷◌, ◌++◌, arith, ◌==◌,
  ==_refl, string_dec_eq, Bool-cases, inl, inr, ok, >>=-eq-ok, guard,
}
use coordinate.Dependencies.Checklist.{Checklist}
use coordinate.Dependencies.Update.{
  self_dependency, dependency_not_found, mem, has_item, DependencyRequestOutcome, Progress,
  remove_one, remove_all, add_one, add_all, any_applied, report, Action,
}

any_applied-append :
    (os : List DependencyRequestOutcome) (o : DependencyRequestOutcome)
    → any_applied (os ++ o ∷ []) ≡ (any_applied os || o.applied)
any_applied-append [] o = ground arith
any_applied-append (x ∷ os) o = ground (arith, any_applied-append os o)

-- The list is the same and so is whether anything was applied.
pub record IsIdle (p after : Progress) : Type 0 where
  pub list : after.updated ≡ p.updated
  pub applied : any_applied after.outcomes ≡ any_applied p.outcomes

IsIdle-trans : {p q r : Progress} → IsIdle p q → IsIdle q r → IsIdle p r
IsIdle-trans a b = record { list = b.list ∙ a.list; applied = b.applied ∙ a.applied }

remove_one-IsIdle :
    (d : String) (p : Progress) → mem d p.updated ≡ false → IsIdle p (remove_one d p)
remove_one-IsIdle d p out = record {
  list = rw out refl;
  applied = ground (arith, out, any_applied-append p.outcomes (report d Action.remove false));
}

add_one-IsIdle : (d : String) (p : Progress) → mem d p.updated ≡ true → IsIdle p (add_one d p)
add_one-IsIdle d p there = record {
  list = rw there refl;
  applied = ground (arith, there, any_applied-append p.outcomes (report d Action.add false));
}

pub remove_all-IsIdle :
    (ds : List String) (p : Progress)
    → ((x : String) → mem x ds ≡ true → mem x p.updated ≡ false)
    → IsIdle p (remove_all ds p)
unfolding remove_all
remove_all-IsIdle [] p out = record { list = refl; applied = refl }
remove_all-IsIdle (d ∷ ds) p out =
    let one = remove_one-IsIdle d p (out d (ground (arith, ==_refl d))) in
    IsIdle-trans one (
      remove_all-IsIdle ds (remove_one d p) (λ x e.
        ap (mem x) one.list
        ∙ out x (elim (Bool-cases (d == x)) [
          | inl f ↦ ground (arith, f)
          | inr f ↦ ground (arith, e, f)
        ])))

pub add_all-IsIdle :
    (checklist : Checklist) (task_id : String) (adds : List String) (p : Progress)
    → ((x : String)
        → mem x adds ≡ true
        → (not (x == task_id) ≡ true) × (has_item checklist x ≡ true))
    → ((x : String) → mem x adds ≡ true → mem x p.updated ≡ true)
    → (after : Progress) × (add_all checklist task_id adds p ≡ ok after) × IsIdle p after
unfolding add_all
add_all-IsIdle checklist task_id [] p known there =
    (p, refl, record { list = refl; applied = refl })
add_all-IsIdle checklist task_id (d ∷ adds) p known there =
    let first : mem d (d ∷ adds) ≡ true = ground (arith, ==_refl d) in
    let behind : (x : String) → mem x adds ≡ true → mem x (d ∷ adds) ≡ true = λ x e.
      elim (Bool-cases (d == x)) [ inl f ↦ ground (arith, f) | inr f ↦ ground (arith, e, f) ] in
    let one = add_one-IsIdle d p (there d first) in
    let (after, adds_ok, idle) =
      add_all-IsIdle checklist task_id adds (add_one d p) (λ x e. known x (behind x e))
        (λ x e. ap (mem x) one.list ∙ there x (behind x e)) in
    (after, rw ((known d first).0, (known d first).1) adds_ok, IsIdle-trans one idle)

-- A loop that reports nothing applied has changed nothing.
pub remove_all-kept :
    (ds : List String) (p : Progress)
    → any_applied (remove_all ds p).outcomes ≡ false
    → IsIdle p (remove_all ds p)
unfolding remove_all
remove_all-kept [] p h = record { list = refl; applied = refl }
remove_all-kept (d ∷ ds) p h =
    let rest = remove_all-kept ds (remove_one d p) h in
    elim (Bool-cases (mem d p.updated)) [
      | inl e ↦ absurd (
          ground (
            arith,
            e,
            h,
            rest.applied,
            any_applied-append p.outcomes (report d Action.remove true),
          ))
      | inr e ↦ IsIdle-trans (remove_one-IsIdle d p e) rest
    ]

pub add_all-kept :
    (checklist : Checklist) (task_id : String) (adds : List String) (p after : Progress)
    → add_all checklist task_id adds p ≡ ok after
    → any_applied after.outcomes ≡ false
    → IsIdle p after
unfolding add_all
add_all-kept checklist task_id [] p after h none_ =
    subst (IsIdle p) {x = p} {y = after} (ground arith) (record { list = refl; applied = refl })
add_all-kept checklist task_id (d ∷ adds) p after h none_ =
    let (_, _, h₁) = >>=-eq-ok (guard (not (d == task_id)) self_dependency) _ h in
    let (_, _, h₂) = >>=-eq-ok (guard (has_item checklist d) dependency_not_found) _ h₁ in
    let rest = add_all-kept checklist task_id adds (add_one d p) after h₂ none_ in
    elim (Bool-cases (mem d p.updated)) [
      | inl e ↦ IsIdle-trans (add_one-IsIdle d p e) rest
      | inr e ↦ absurd (
          ground (
            arith,
            e,
            none_,
            rest.applied,
            any_applied-append p.outcomes (report d Action.add true),
          ))
    ]
