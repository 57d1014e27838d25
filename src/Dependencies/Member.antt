-- ===== src/Dependencies/Member.antt =====
-- Which dependencies the loops of a mutation leave in the list.
use coordinate.Base.{
  String, ◌≡◌, refl, true, not, ◌&&◌, ◌||◌, List, [], ◌∷◌, ◌++◌, arith, ◌==◌, ==_sound,
  string_dec_eq, Bool-cases, inl, inr, ok, >>=-eq-ok, guard, guard-eq-ok, subst,
}
use coordinate.Table.{select}
use coordinate.Dependencies.Checklist.{Checklist}
use coordinate.Dependencies.Update.{
  self_dependency, dependency_not_found, mem, dedupe, has_item, Progress, remove_one, remove_all,
  add_one, add_all,
}

mem-append : (x d : String) (ds : List String) → mem x (ds ++ d ∷ []) ≡ (mem x ds || d == x)
mem-append x d [] = ground arith
mem-append x d (y ∷ ds) = ground (arith, mem-append x d ds)

mem-select :
    (x d : String) (ds : List String)
    → mem x (select (λ y. not (y == d)) ds) ≡ (mem x ds && not (d == x))
mem-select x d [] = refl
mem-select x d (y ∷ ds) = elim (Bool-cases (y == d)) [
  | inl e ↦ ground (arith, e, ==_sound y d e, mem-select x d ds)
  | inr e ↦ elim (Bool-cases (y == x)) [
    | inl f ↦ ground (arith, e, f, ==_sound y x f, mem-select x d ds)
    | inr f ↦ ground (arith, e, f, mem-select x d ds)
  ]
]

pub mem-dedupe : (x : String) (ds : List String) → mem x (dedupe ds) ≡ mem x ds
unfolding dedupe
mem-dedupe x [] = refl
mem-dedupe x (d ∷ ds) = elim (Bool-cases (d == x)) [
  | inl e ↦ ground (arith, e)
  | inr e ↦ ground (arith, e, mem-select x d (dedupe ds), mem-dedupe x ds)
]

mem-remove_one :
    (x d : String) (p : Progress)
    → mem x (remove_one d p).updated ≡ (mem x p.updated && not (d == x))
mem-remove_one x d p = elim (Bool-cases (mem d p.updated)) [
  | inl e ↦ ground (arith, e, mem-select x d p.updated)
  | inr e ↦ elim (Bool-cases (d == x)) [
    | inl f ↦ ground (arith, e, f, ==_sound d x f)
    | inr f ↦ ground (arith, e, f)
  ]
]

pub mem-remove_all :
    (x : String) (ds : List String) (p : Progress)
    → mem x (remove_all ds p).updated ≡ (mem x p.updated && not (mem x ds))
unfolding remove_all
mem-remove_all x [] p = ground arith
mem-remove_all x (d ∷ ds) p = elim (Bool-cases (d == x)) [
  | inl e ↦ ground (arith, e, mem-remove_all x ds (remove_one d p), mem-remove_one x d p)
  | inr e ↦ ground (arith, e, mem-remove_all x ds (remove_one d p), mem-remove_one x d p)
]

mem-add_one :
    (x d : String) (p : Progress) → mem x (add_one d p).updated ≡ (mem x p.updated || d == x)
mem-add_one x d p = elim (Bool-cases (mem d p.updated)) [
  | inl e ↦ elim (Bool-cases (d == x)) [
    | inl f ↦ ground (arith, e, f, ==_sound d x f)
    | inr f ↦ ground (arith, e, f)
  ]
  | inr e ↦ ground (arith, e, mem-append x d p.updated)
]

-- What a successful loop of the adds has found of each.
pub record Added (checklist : Checklist) (task_id : String) (adds : List String)
    (p after : Progress) : Type 0 where
  pub members : (x : String) → mem x after.updated ≡ (mem x p.updated || mem x adds)
  pub known :
      (x : String) → mem x adds ≡ true → (not (x == task_id) ≡ true) × (has_item checklist x ≡ true)

pub add_all-Added :
    (checklist : Checklist) (task_id : String) (adds : List String) (p after : Progress)
    → add_all checklist task_id adds p ≡ ok after
    → Added checklist task_id adds p after
unfolding add_all
add_all-Added checklist task_id [] p after h = record {
  members = λ x. ground arith;
  known = λ x e. absurd (ground arith);
}
add_all-Added checklist task_id (d ∷ adds) p after h =
    let (_, other, h₁) = >>=-eq-ok (guard (not (d == task_id)) self_dependency) _ h in
    let (_, there, h₂) = >>=-eq-ok (guard (has_item checklist d) dependency_not_found) _ h₁ in
    one_more checklist task_id d adds p after
      (guard-eq-ok (not (d == task_id)) self_dependency other)
      (guard-eq-ok (has_item checklist d) dependency_not_found there)
      (add_all-Added checklist task_id adds (add_one d p) after h₂)
  where
    one_more :
        (checklist : Checklist) (task_id d : String) (adds : List String) (p after : Progress)
        → not (d == task_id) ≡ true
        → has_item checklist d ≡ true
        → Added checklist task_id adds (add_one d p) after
        → Added checklist task_id (d ∷ adds) p after
    one_more checklist task_id d adds p after other there a = record {
      members = λ x. elim (Bool-cases (d == x)) [
        | inl e ↦ ground (arith, e, a.members x, mem-add_one x d p)
        | inr e ↦ ground (arith, e, a.members x, mem-add_one x d p)
      ];
      known = λ x e. elim (Bool-cases (d == x)) [
        | inl f ↦ (
          subst (λ y. not (y == task_id) ≡ true) (==_sound d x f) other,
          subst (λ y. has_item checklist y ≡ true) (==_sound d x f) there,
        )
        | inr f ↦ a.known x (ground (arith, f))
      ];
    }
