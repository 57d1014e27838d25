-- ===== src/Jobs/Freeing.antt =====
-- What releasing the lease of an attempt leaves: no active lease of it, and the jobs as they were.
use coordinate.Base.{
  ℕ, List, Bool, String, ◌≡◌, ◌≤◌, true, false, some, none, arith, inl, inr, ok, nat_dec_eq,
  string_dec_eq, Option-cases, >>=-eq-ok, Result-cases, ap, ◌∙◌, sym, subst, Option,
}
use coordinate.Table.{
  find?, count_where, only_row, find?-holds, All-find?, All-of_count_zero, count_of_find?-none,
}
use coordinate.Schema.{Db, Lease, is_active, released}
use coordinate.Resources.{Platform}
use coordinate.Jobs.Errors.{from_lease}
use coordinate.Json.{int, text}
use coordinate.Leases.Checks.{validate_attempt_token}
use coordinate.Leases.Lifecycle.{release_attempt_lease}
use coordinate.Leases.Calls.{none_yet, and_then, dropping, Calls-IsIndexed}
use coordinate.Leases.Release.{release-Ended}
use coordinate.Leases.Store.{has_id, of_attempt}
use coordinate.Leases.Steps.{IsIndexed}
use coordinate.Leases.Outcomes.{release-Released}
use coordinate.Leases.Lifecycle.{release_attempt_lease}
use coordinate.Jobs.Control.{held_for, release_held, holder_of}

-- Two rows of a table that meet a unique condition are the same.
same_row :
    (p q r : Lease → Bool) (rows : List Lease) (y z : Lease)
    → count_where p rows ≤ 1
    → find? q rows ≡ some y
    → p y ≡ true
    → find? r rows ≡ some z
    → p z ≡ true
    → y ≡ z
same_row p q r rows y z one at_y hit_y at_z hit_z = elim (Option-cases (find? p rows)) [
  | inl missing ↦
      let no_y =
        All-find? (λ x. p x ≡ false) q rows
          (All-of_count_zero p rows (count_of_find?-none p rows missing)) at_y in
      absurd (ground arith)
  | inr (w, found) ↦
      let only = only_row p rows w one found in
      All-find? (λ x. p x ≡ true → x ≡ w) q rows only at_y hit_y
      ∙ sym (All-find? (λ x. p x ≡ true → x ≡ w) r rows only at_z hit_z)
]

held_for-of_attempt :
    (id : String) (token : ℕ) (x : Lease)
    → held_for id token x ≡ true
    → of_attempt id token x ≡ true
held_for-of_attempt id token x e = ground arith

-- A released row of the attempt, which is unique, is the attempt's only row.
released-frees :
    (rows : List Lease) (id : String) (token : ℕ) (i : String) (y : Lease)
    → count_where (of_attempt id token) rows ≤ 1
    → find? (has_id i) rows ≡ some y
    → y.job_id ≡ id
    → y.attempt_token ≡ token
    → y.status ≡ released
    → find? (held_for id token) rows ≡ none
released-frees rows id token i y one found job attempt ended =
    elim (Option-cases (find? (held_for id token) rows)) [
      | inl missing ↦ missing
      | inr (z, held) ↦
          let live = find?-holds (held_for id token) rows z held in
          let same =
            same_row (of_attempt id token) (has_id i) (held_for id token) rows y z one found
              (ground arith) held (held_for-of_attempt id token z live) in
          let still : is_active y.status ≡ true =
            ap (λ (x : Lease). is_active x.status) same ∙ ground arith in
          absurd (ground arith)
    ]

validate_token-same : (n t : ℕ) → validate_attempt_token (int n) ≡ ok t → t ≡ n
unfolding validate_attempt_token
validate_token-same n t e = ground arith

module _ (lib : Platform) where
  -- With the unique indexes, no active lease of the attempt is left.
  pub release_held-frees :
      (db after : Db) (now : ℕ) (id : String) (token : ℕ)
      → IsIndexed db.leases
      → release_held lib db now (find? (held_for id token) db.leases) ≡ ok after
      → find? (held_for id token) after.leases ≡ none
  unfolding release_held
  release_held-frees db after now id token h e =
      elim (Option-cases (find? (held_for id token) db.leases)) [
        | inl missing ↦ ground (arith, missing)
        | inr (x, found) ↦
            elim (Result-cases
              (release_attempt_lease lib db now (holder_of x) (text "job_cancelled"))) [
                | inr (f, refused) ↦ absurd (ground (arith, found, refused))
                | inl ((y, freed), done_so) ↦
                    let m =
                      release-Ended lib db now (holder_of x) (text "job_cancelled") y freed
                        done_so in
                    let unique =
                      Calls-IsIndexed lib (λ _ _ _ _ _. none)
                        (and_then none_yet
                          (dropping now (holder_of x) (text "job_cancelled") y done_so))
                        h in
                    let named = find?-holds (held_for id token) db.leases x found in
                    let same = validate_token-same x.attempt_token m.token m.token_ok in
                    let gone =
                      released-frees freed.leases id token m.id y (unique.one_attempt id token)
                        m.row (m.job ∙ ground arith) (m.attempt ∙ same ∙ ground arith) m.ended in
                    let which : freed ≡ after = ground (arith, found, done_so) in
                    subst (λ (d : Db). find? (held_for id token) d.leases ≡ none) which gone
              ]
      ]

  pub release_held-jobs :
      (db after : Db) (now : ℕ) (o : Option Lease)
      → release_held lib db now o ≡ ok after
      → after.jobs ≡ db.jobs
  unfolding release_held
  release_held-jobs db after now none e = ground arith
  release_held-jobs db after now (some x) e =
      let ((y, freed), done_so, left) =
        >>=-eq-ok
          (from_lease (release_attempt_lease lib db now (holder_of x) (text "job_cancelled"))) _
          e in
      let (_, _, _, cases) =
        release-Released lib db now (holder_of x) (text "job_cancelled") y freed (ground arith) in
      let same : freed ≡ after = ground arith in
      elim cases [
        | inl (_, _, _, _, kept) ↦ ap (λ (d : Db). d.jobs) (sym same ∙ kept)
        | inr (w, _) ↦ ap (λ (d : Db). d.jobs) (sym same ∙ w.rows)
      ]
