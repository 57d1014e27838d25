-- ===== src/Leases/Reservation.antt =====
-- What a reservation promises: capacity, the new row, no violated index, and its replay.
use coordinate.Base.{
  ==_refl, ap, refl, none, some, suc, ◌≤◌, ◌<◌, ◌≡◌, sym, subst, Bool, false, List, [], ◌∷◌, ◌++◌,
  arith, ◌==◌, nat_dec_eq, string_dec_eq, inl, inr, Result, ok, >>=-eq-ok, require, true, ◌>>=◌,
  ◌∙◌, ◌+◌,
}
use coordinate.Table.{find?, select, length, find?-append_new}
use coordinate.Schema.{Db, Policy, Lease}
use coordinate.Resources.{Platform, build_worktree_resource}
use coordinate.Leases.Checks.{LeaseError, no_policy, wrap, resource_invalid, context_path_invalid}
use coordinate.Leases.Store.{occupies, has_id, of_attempt, validate_stored_resource}
use coordinate.Leases.Reserve.{
  Reading, Request, Receipt, Grant, SnapshotCheck, authorize, check_job, check_resource, new_lease,
  reserve_attempt_lease, admit, immutable_fields_match, replay, receipt,
}
use coordinate.Leases.Moves.{admit-cases}
use coordinate.Leases.Requested.{IsRequested, validate_ttl-bounds, authorize-IsRequested}

module _ {ℓ} {A : Type ℓ} where
  length-select_snoc :
      (p : A → Bool) (xs : List A) (x : A)
      → length (select p (xs ++ x ∷ [])) ≤ suc (length (select p xs))
  length-select_snoc p [] x = ground arith
  length-select_snoc p (y ∷ xs) x = ground (arith, length-select_snoc p xs x)

own_fields : (clock : Reading) (g : Grant) → immutable_fields_match (new_lease clock g) g ≡ true
unfolding immutable_fields_match
own_fields clock g = ground arith

module _ (lib : Platform) where
  again :
      (db : Db) (later : Reading) (g : Grant) (y x : Lease)
      → find? (of_attempt g.job_id g.attempt_token) db.leases ≡ some y
      → x ≡ y
      → validate_stored_resource lib x ≡ ok tt
      → immutable_fields_match y g ≡ true
      → admit lib db later g ≡ ok (receipt x true, db)
  unfolding admit replay
  again db later g y x found same stored own =
      rw (found, admit) (ground (arith, same, ap (validate_stored_resource lib) same))

module _ (lib : Platform) (snapshot : SnapshotCheck) where
  abbrev reserve : Db → Reading → Request → Result LeaseError (Receipt × Db)
  reserve = reserve_attempt_lease lib snapshot

  authorize-Policy :
      (db : Db) (q : Request) (g : Grant)
      → authorize lib snapshot db q ≡ ok g
      → (p : Policy) × (find? (λ (p : Policy). p.agent_id == q.agent_id) db.policies ≡ some p)
        × (g.max_concurrent_jobs ≡ p.max_concurrent_jobs)
        × (g.agent_id ≡ q.agent_id)
  unfolding authorize check_resource
  authorize-Policy db q g e =
      let (s, _, e₁) = >>=-eq-ok (check_job lib snapshot db q) _ e in
      let (p, found, e₂) =
        >>=-eq-ok (require (find? (λ (p : Policy). p.agent_id == q.agent_id) db.policies) no_policy)
          _ e₁ in
      let (x, _, e₃) =
        >>=-eq-ok (wrap resource_invalid (build_worktree_resource lib q.host_id q.worktree_path)) _
          e₂ in
      let (y, _, e₄) =
        >>=-eq-ok
          (wrap context_path_invalid (build_worktree_resource lib q.host_id s.worktree_path)) _
          e₃ in
      (p, ground arith, ground arith, ground arith)

  -- When a reservation adds a row, the agent then has no more active leases, unexpired when they
  -- were counted, than its capacity policy allows.
  pub reserve_capacity :
      (db : Db) (clock : Reading) (q : Request) (r : Receipt) (after : Db)
      → reserve db clock q ≡ ok (r, after)
      → r.replayed ≡ false
      → (p : Policy) × (find? (λ (p : Policy). p.agent_id == q.agent_id) db.policies ≡ some p)
        × (length (select (occupies q.agent_id clock.count_now) after.leases)
            ≤ p.max_concurrent_jobs)
  unfolding reserve_attempt_lease
  reserve_capacity db clock q r after e fresh =
      let (g, given, admitted) = >>=-eq-ok (authorize lib snapshot db q) _ e in
      let (p, found, most, agent) = authorize-Policy db q g given in
      elim (admit-cases lib db clock g r after admitted) [
        | inl (x, _, _, reply, _) ↦ cc
        | inr a ↦ (
          p,
          found,
          subst
              (λ (d : Db).
                length (select (occupies q.agent_id clock.count_now) d.leases)
                ≤ p.max_concurrent_jobs)
              (sym a.rows)
              (omega (
                arith,
                length-select_snoc (occupies q.agent_id clock.count_now) db.leases
                    (new_lease clock g),
                subst
                    (λ i.
                      length (select (occupies i clock.count_now) db.leases)
                      < g.max_concurrent_jobs)
                    agent a.room,
                most,
              )),
        )
      ]

  -- A reservation that is no replay finds the new id unused and appends one active lease under it,
  -- each column of which is as requested: the arguments of the call, the canonical resource of its
  -- host and path, the agent's policy, and the clock, from which it expires after the time to live
  -- that was asked for, between 30 and 600 seconds. It answers with that row; the rest of the
  -- database stays as it was.
  pub reserve_new_row :
      (db : Db) (clock : Reading) (q : Request) (r : Receipt) (after : Db)
      → reserve db clock q ≡ ok (r, after)
      → r.replayed ≡ false
      → (x : Lease) × (after ≡ record db { leases = db.leases ++ x ∷ [] })
        × (find? (has_id clock.uuid) db.leases ≡ none)
        × (find? (has_id clock.uuid) after.leases ≡ some x)
        × (r ≡ receipt x false)
        × IsRequested lib db clock q x
        × (clock.now + 30 ≤ x.expires_at)
        × (x.expires_at ≤ clock.now + 600)
  unfolding reserve_attempt_lease
  reserve_new_row db clock q r after e fresh =
      let (g, given, admitted) = >>=-eq-ok (authorize lib snapshot db q) _ e in
      let wanted = authorize-IsRequested lib snapshot db clock q g given in
      let (low, high) = validate_ttl-bounds q.ttl_seconds wanted.ttl wanted.ttl_given in
      elim (admit-cases lib db clock g r after admitted) [
        | inl (x, _, _, reply, _) ↦ cc
        | inr a ↦ (
          new_lease clock g,
          a.rows,
          a.first,
          subst (λ (d : Db). find? (has_id clock.uuid) d.leases ≡ some (new_lease clock g))
              (sym a.rows)
              (find?-append_new (has_id clock.uuid) db.leases (new_lease clock g) a.first
                (==_refl clock.uuid)),
          a.reply,
          wanted,
          omega (arith, low, wanted.expires),
          omega (arith, high, wanted.expires),
        )
      ]

  authorize-frame :
      (db : Db) (rows : List Lease) (q : Request)
      → authorize lib snapshot (record db { leases = rows }) q ≡ authorize lib snapshot db q
  unfolding authorize check_job check_resource
  authorize-frame db rows q = refl

  admitted_again :
      (db : Db) (clock later : Reading) (q : Request) (g : Grant) (after : Db) (x : Lease)
      → authorize lib snapshot db q ≡ ok g
      → after ≡ record db { leases = db.leases ++ new_lease clock g ∷ [] }
      → find? (of_attempt g.job_id g.attempt_token) (db.leases ++ new_lease clock g ∷ [])
        ≡ some (new_lease clock g)
      → x ≡ new_lease clock g
      → validate_stored_resource lib x ≡ ok tt
      → reserve after later q ≡ ok (receipt x true, after)
  unfolding reserve_attempt_lease
  admitted_again db clock later q g after x given rows found same stored =
      subst (λ (d : Db). reserve_attempt_lease lib snapshot d later q ≡ ok (receipt x true, d))
        (sym rows)
        (subst
          (λ (m : Result LeaseError Grant).
            (m >>= admit lib (record db { leases = db.leases ++ new_lease clock g ∷ [] }) later)
            ≡ ok (receipt x true, record db { leases = db.leases ++ new_lease clock g ∷ [] }))
          (sym (authorize-frame db (db.leases ++ new_lease clock g ∷ []) q ∙ given))
          (again lib (record db { leases = db.leases ++ new_lease clock g ∷ [] }) later g
            (new_lease clock g) x found same stored (own_fields clock g)))

  -- After a reservation that added a row, the same request at any later reading of the clock
  -- is answered from that row as a replay and changes nothing, provided that the stored
  -- resource of the row validates.
  pub reserve_replay :
      (db : Db) (clock later : Reading) (q : Request) (r : Receipt) (after : Db) (x : Lease)
      → reserve db clock q ≡ ok (r, after)
      → r.replayed ≡ false
      → find? (has_id clock.uuid) after.leases ≡ some x
      → validate_stored_resource lib x ≡ ok tt
      → reserve after later q ≡ ok (receipt x true, after)
  unfolding reserve_attempt_lease
  reserve_replay db clock later q r after x e fresh row stored =
      let (g, given, admitted) = >>=-eq-ok (authorize lib snapshot db q) _ e in
      elim (admit-cases lib db clock g r after admitted) [
        | inl (y, _, _, reply, _) ↦ cc
        | inr a ↦
            admitted_again db clock later q g after x given a.rows
              (find?-append_new (of_attempt g.job_id g.attempt_token) db.leases (new_lease clock g)
                a.fresh (ground arith))
              (ground (
                arith,
                row,
                a.rows,
                find?-append_new (has_id clock.uuid) db.leases (new_lease clock g) a.first
                    (==_refl clock.uuid),
              ))
              stored
      ]
