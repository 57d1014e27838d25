-- ===== src/Leases/Constraints.antt =====
-- The checks of a reservation make the unique indexes of the table unreachable.
use coordinate.Base.{
  ℕ, String, ◌≡◌, ◌≢◌, refl, Bool, true, false, Option, none, some, List, [], ◌∷◌, arith, ◌∙◌, inl,
  inr, Option-cases, Result, ok, err, ◌>>=◌,
}
use coordinate.Table.{find?}
use coordinate.Schema.{Db, Lease}
use coordinate.Resources.{Platform}
use coordinate.Leases.Checks.{
  LeaseError, R, wrap, validate_ttl, validate_attempt_token, unique_lease_id, unique_attempt,
  unique_active_resource, tampered,
}
use coordinate.Leases.Store.{
  has_id, of_attempt, holds, validate_stored_resource, validate_all, count_active_leases_for_agent,
  find_active_resource_lease, insert_lease,
}
use coordinate.Leases.Reserve.{
  Reading, Request, Grant, SnapshotCheck, Standing, payload_object, execution_context, no_conflict,
  check_job, check_resource, authorize, replay, acquire, admit, new_lease, reserve_attempt_lease,
}
use coordinate.Leases.Moves.{find_active-eq-ok}

abbrev is_unique : LeaseError → Bool
is_unique unique_lease_id = true
is_unique unique_attempt = true
is_unique unique_active_resource = true
is_unique _ = false

-- A computation whose errors are the program's own, or a CHECK.
record IsSane {A : Type 0} (m : R A) : Type 0 where
  sane : (e : LeaseError) → m ≡ err e → is_unique e ≡ false

IsSane-ok : {A : Type 0} (a : A) → IsSane {A = A} (ok a)
IsSane-ok a = record { sane = λ e h. cc }

IsSane-err : {A : Type 0} (x : LeaseError) → is_unique x ≡ false → IsSane {A = A} (err x)
IsSane-err x h = record { sane = λ e p. ground arith }

IsSane-bind :
    {A B : Type 0} (m : R A) (f : A → R B)
    → IsSane m
    → ((a : A) → m ≡ ok a → IsSane (f a))
    → IsSane (m >>= f)
IsSane-bind (ok a) f hm hf = hf a refl
IsSane-bind (err x) f hm hf = record { sane = λ e h. hm.sane e (ground arith) }

IsSane-wrap :
    {E A : Type 0} (f : E → LeaseError) (m : Result E A)
    → ((e : E) → is_unique (f e) ≡ false)
    → IsSane (wrap f m)
IsSane-wrap f (ok a) h = IsSane-ok a
IsSane-wrap f (err e) h = IsSane-err (f e) (h e)

no_conflict-IsSane : (now : ℕ) (o : Option Lease) → IsSane (no_conflict now o)
unfolding no_conflict
no_conflict-IsSane now o = record { sane = λ e h. ground arith }

no_conflict-none : (now : ℕ) (o : Option Lease) {u : Unit} → no_conflict now o ≡ ok u → o ≡ none
unfolding no_conflict
no_conflict-none now none h = refl
no_conflict-none now (some x) h = ground arith

module _ (lib : Platform) where
  validate_stored-IsSane : (x : Lease) → IsSane (validate_stored_resource lib x)
  unfolding validate_stored_resource
  validate_stored-IsSane x = IsSane-wrap tampered _ (λ e. refl)

  validate_all-IsSane : (xs : List Lease) → IsSane (validate_all lib xs)
  unfolding validate_all
  validate_all-IsSane [] = IsSane-ok tt
  validate_all-IsSane (x ∷ xs) =
      IsSane-bind _ _ (validate_stored-IsSane x) (λ _ _. validate_all-IsSane xs)

  find_active-IsSane :
      (rows : List Lease) (k : String) → IsSane (find_active_resource_lease lib rows k)
  unfolding find_active_resource_lease
  find_active-IsSane rows k = IsSane-bind _ _ (validate_all-IsSane _) (λ _ _. IsSane-ok _)

  count_active-IsSane :
      (rows : List Lease) (a : String) (now : ℕ)
      → IsSane (count_active_leases_for_agent lib rows a now)
  unfolding count_active_leases_for_agent
  count_active-IsSane rows a now = IsSane-bind _ _ (validate_all-IsSane _) (λ _ _. IsSane-ok _)

  insert_lease-IsSane :
      (rows : List Lease) (x : Lease)
      → find? (has_id x.lease_id) rows ≡ none
      → find? (of_attempt x.job_id x.attempt_token) rows ≡ none
      → find? (holds x.resource_key) rows ≡ none
      → IsSane (insert_lease rows x)
  unfolding insert_lease
  insert_lease-IsSane rows x id attempt free = record { sane = λ e h. ground arith }

  acquire-IsSane :
      (db : Db) (clock : Reading) (g : Grant)
      → find? (has_id clock.uuid) db.leases ≡ none
      → find? (of_attempt g.job_id g.attempt_token) db.leases ≡ none
      → IsSane (acquire lib db clock g)
  unfolding acquire
  acquire-IsSane db clock g id attempt =
      IsSane-bind _ _ (find_active-IsSane db.leases g.resource_key) λ held found.
        IsSane-bind _ _ (no_conflict-IsSane clock.now held) λ _ clear.
          IsSane-bind _ _ (count_active-IsSane db.leases g.agent_id clock.count_now) λ n _.
            let free = find_active-eq-ok lib db.leases g.resource_key held found in
            let inserted =
              insert_lease-IsSane db.leases (new_lease clock g) id attempt
                (free ∙ no_conflict-none clock.now held clear) in
            record { sane = λ e h. ground (arith, inserted.sane e) }

  replay-IsSane : (db : Db) (g : Grant) (x : Lease) → IsSane (replay lib db g x)
  unfolding replay
  replay-IsSane db g x = record { sane = λ e h. ground (arith, (validate_stored-IsSane x).sane e) }

  admit-IsSane :
      (db : Db) (clock : Reading) (g : Grant)
      → find? (has_id clock.uuid) db.leases ≡ none
      → IsSane (admit lib db clock g)
  unfolding admit
  admit-IsSane db clock g id =
      elim (Option-cases (find? (of_attempt g.job_id g.attempt_token) db.leases)) [
        | inl new ↦ rw (new, admit) (acquire-IsSane db clock g id new)
        | inr (x, found) ↦ rw (found, admit) (replay-IsSane db g x)
      ]

module _ (lib : Platform) (snapshot : SnapshotCheck) where
  check_job-IsSane : (db : Db) (q : Request) → IsSane (check_job lib snapshot db q)
  unfolding check_job validate_ttl validate_attempt_token payload_object execution_context
  check_job-IsSane db q = record { sane = λ e h. ground arith }

  check_resource-IsSane :
      (db : Db) (q : Request) (s : Standing) → IsSane (check_resource lib snapshot db q s)
  unfolding check_resource
  check_resource-IsSane db q s = record { sane = λ e h. ground arith }

  -- With an id that no lease has, a reservation never fails on a unique index of the table: the
  -- code's own tests have refused the case before.
  pub reserve-ne_unique :
      (db : Db) (clock : Reading) (q : Request)
      → find? (has_id clock.uuid) db.leases ≡ none
      → (reserve_attempt_lease lib snapshot db clock q ≢ err unique_lease_id)
        × (reserve_attempt_lease lib snapshot db clock q ≢ err unique_attempt)
        × (reserve_attempt_lease lib snapshot db clock q ≢ err unique_active_resource)
  unfolding reserve_attempt_lease authorize
  reserve-ne_unique db clock q id =
      let all : IsSane (reserve_attempt_lease lib snapshot db clock q) =
        IsSane-bind _ _
          (IsSane-bind _ _ (check_job-IsSane db q) (λ s _. check_resource-IsSane db q s))
          (λ g _. admit-IsSane lib db clock g id) in
      ((λ h. cc (all.sane _ h)), (λ h. cc (all.sane _ h)), (λ h. cc (all.sane _ h)))
