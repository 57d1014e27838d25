-- ===== src/Leases/Release.antt =====
-- A lease that was released: what a second call answers.
use coordinate.Base.{
  ℕ, String, ◌≡◌, ◌≢◌, refl, sym, ap, ◌∙◌, some, List, arith, nat_dec_eq, string_dec_eq, inl, inr,
  ok, err, >>=-eq-ok,
}
use coordinate.Json.{Json}
use coordinate.Table.{find?, update, find?-update}
use coordinate.Schema.{Db, Lease, released}
use coordinate.Resources.{Platform}
use coordinate.Leases.Checks.{
  other_reason, not_active, lease_released, validate_ttl, validate_lease_id, validate_attempt_token,
  validate_release_reason,
}
use coordinate.Leases.Store.{has_id, validate_stored_resource}
use coordinate.Leases.Outcomes.{finish_release-Released, locate-found, locate_self, locate-Holds}
use coordinate.Leases.Lifecycle.{
  Holder, Verdict, releasing, locate, release_verdict, finish_release, release_attempt_lease,
  renew_attempt_lease, require_active_unexpired_lease, expire_attempt_lease, expire_verdict,
}

-- What the tuple of a successful release named, and the row that is there afterwards.
pub record Ended (lib : Platform) (h : Holder) (raw : Json) (y : Lease) (db' : Db) : Type 0 where
  pub id : String
  pub token : ℕ
  pub reason : String
  pub id_ok : validate_lease_id h.lease_id ≡ ok id
  pub token_ok : validate_attempt_token h.attempt_token ≡ ok token
  pub reason_ok : validate_release_reason raw ≡ ok reason
  pub row : find? (has_id id) db'.leases ≡ some y
  pub stored : validate_stored_resource lib y ≡ ok tt
  pub job : y.job_id ≡ h.job_id
  pub attempt : y.attempt_token ≡ token
  pub agent : y.agent_id ≡ h.agent_id
  pub ended : y.status ≡ released
  pub because : y.release_reason ≡ some reason

module _ (lib : Platform) where
  locate-stored :
      (rows : List Lease) (h : Holder) (i : String) (t : ℕ) (x : Lease)
      → locate lib rows h i t ≡ ok x
      → validate_stored_resource lib x ≡ ok tt
  unfolding locate
  locate-stored rows h i t x e = ground arith

  released_row :
      (rows : List Lease) (now : ℕ) (reason i : String) (x : Lease)
      → find? (has_id i) rows ≡ some x
      → find? (has_id i) (update (has_id x.lease_id) (releasing now reason) rows)
        ≡ some (releasing now reason x)
  released_row rows now reason i x found = ground (
    arith,
    find?-update (has_id i) (has_id x.lease_id) (releasing now reason) rows (λ z. refl),
    found,
  )

  -- A row as `locate` accepts it, in a table where it stands under the given id.
  ended :
      (rows : List Lease) (h : Holder) (raw : Json) (i : String) (t : ℕ) (reason : String)
      (x y : Lease) (db' : Db)
      → validate_lease_id h.lease_id ≡ ok i
      → validate_attempt_token h.attempt_token ≡ ok t
      → validate_release_reason raw ≡ ok reason
      → locate lib rows h i t ≡ ok x
      → find? (has_id i) db'.leases ≡ some y
      → validate_stored_resource lib y ≡ validate_stored_resource lib x
      → (y.job_id ≡ x.job_id) × (y.attempt_token ≡ x.attempt_token) × (y.agent_id ≡ x.agent_id)
      → (y.status ≡ released) × (y.release_reason ≡ some reason)
      → Ended lib h raw y db'
  ended rows h raw i t reason x y db' hi ht hr at row stored same is =
      let (job, attempt, agent) = locate-Holds lib rows h i t x at in
      record {
        id = i;
        token = t;
        reason = reason;
        id_ok = hi;
        token_ok = ht;
        reason_ok = hr;
        row = row;
        stored = stored ∙ locate-stored rows h i t x at;
        job = same.0 ∙ job;
        attempt = same.1 ∙ attempt;
        agent = same.2 ∙ agent;
        ended = is.0;
        because = is.1;
      }

  finish_release-Ended :
      (db : Db) (now : ℕ) (h : Holder) (raw : Json) (i : String) (t : ℕ) (reason : String)
      (x y : Lease) (v : Verdict) (db' : Db)
      → validate_lease_id h.lease_id ≡ ok i
      → validate_attempt_token h.attempt_token ≡ ok t
      → validate_release_reason raw ≡ ok reason
      → locate lib db.leases h i t ≡ ok x
      → release_verdict x.status x.release_reason reason ≡ ok v
      → finish_release lib db now reason x v ≡ ok (y, db')
      → Ended lib h raw y db'
  unfolding validate_stored_resource
  finish_release-Ended db now h raw i t reason x y v db' hi ht hr at is e =
      let self = locate_self lib db.leases h i t x at in
      let found = locate-found lib db.leases h i t x at in
      elim (finish_release-Released lib db now reason x v y db' self is e) [
        | inl (_, s, r, same, kept) ↦
            ended db.leases h raw i t reason x y db' hi ht hr at
              (ap (λ (d : Db). find? (has_id i) d.leases) kept ∙ found ∙ ap some (sym same))
              (ap (validate_stored_resource lib) same)
              (
                ap (λ (z : Lease). z.job_id) same,
                ap (λ (z : Lease). z.attempt_token) same,
                ap (λ (z : Lease). z.agent_id) same,
              )
              (ap (λ (z : Lease). z.status) same ∙ s, ap (λ (z : Lease). z.release_reason) same ∙ r)
        | inr (w, same) ↦
            ended db.leases h raw i t reason x y db' hi ht hr at
              (ap (λ (d : Db). find? (has_id i) d.leases) w.rows
                ∙ released_row db.leases now reason i x found
                ∙ ap some (sym same))
              (ap (validate_stored_resource lib) same)
              (
                ap (λ (z : Lease). z.job_id) same,
                ap (λ (z : Lease). z.attempt_token) same,
                ap (λ (z : Lease). z.agent_id) same,
              )
              (ap (λ (z : Lease). z.status) same, ap (λ (z : Lease). z.release_reason) same)
      ]

  pub release-Ended :
      (db : Db) (now : ℕ) (h : Holder) (raw : Json) (y : Lease) (db' : Db)
      → release_attempt_lease lib db now h raw ≡ ok (y, db')
      → Ended lib h raw y db'
  unfolding release_attempt_lease
  release-Ended db now h raw y db' e =
      let (i, hi, e₁) = >>=-eq-ok (validate_lease_id h.lease_id) _ e in
      let (reason, hr, e₂) = >>=-eq-ok (validate_release_reason raw) _ e₁ in
      let (t, ht, e₃) = >>=-eq-ok (validate_attempt_token h.attempt_token) _ e₂ in
      let (x, at, e₄) = >>=-eq-ok (locate lib db.leases h i t) _ e₃ in
      let (v, is, e₅) = >>=-eq-ok (release_verdict x.status x.release_reason reason) _ e₄ in
      finish_release-Ended db now h raw i t reason x y v db' hi ht hr at is e₅

  locate_again :
      (h : Holder) (raw : Json) (y : Lease) (db' : Db) (m : Ended lib h raw y db')
      → locate lib db'.leases h m.id m.token ≡ ok y
  unfolding locate
  locate_again h raw y db' m = ground (arith, m.row, m.stored, m.job, m.attempt, m.agent)

  -- After a release that succeeded, the same release at any later time answers the same row
  -- and writes nothing.
  pub release_again :
      (db : Db) (now later : ℕ) (h : Holder) (raw : Json) (y : Lease) (db' : Db)
      → release_attempt_lease lib db now h raw ≡ ok (y, db')
      → release_attempt_lease lib db' later h raw ≡ ok (y, db')
  unfolding release_attempt_lease release_verdict finish_release
  release_again db now later h raw y db' e =
      let m = release-Ended db now h raw y db' e in
      ground
        (arith, m.id_ok, m.token_ok, m.reason_ok, locate_again h raw y db' m, m.ended, m.because)

  -- After a release that succeeded, a release by the same holder for another reason, if that
  -- is valid, is refused.
  pub release_other_reason :
      (db : Db) (now later : ℕ) (h : Holder) (raw other : Json) (reason other_text : String)
      (y : Lease) (db' : Db)
      → release_attempt_lease lib db now h raw ≡ ok (y, db')
      → validate_release_reason raw ≡ ok reason
      → validate_release_reason other ≡ ok other_text
      → reason ≢ other_text
      → release_attempt_lease lib db' later h other ≡ err other_reason
  unfolding release_attempt_lease release_verdict
  release_other_reason db now later h raw other reason other_text y db' e is or ne =
      let m = release-Ended db now h raw y db' e in
      ground
        (arith, m.id_ok, m.token_ok, m.reason_ok, locate_again h raw y db' m, m.ended, m.because)

  -- After a release that succeeded, the holder's renewal for a valid time is refused as not
  -- active, and its expiry as released.
  pub release_ends :
      (db : Db) (now test_now later : ℕ) (h : Holder) (raw ttl : Json) (n : ℕ) (y : Lease)
      (db' : Db)
      → release_attempt_lease lib db now h raw ≡ ok (y, db')
      → validate_ttl ttl ≡ ok n
      → (renew_attempt_lease lib db' test_now later h ttl ≡ err not_active)
        × (expire_attempt_lease lib db' h ≡ err lease_released)
  unfolding renew_attempt_lease require_active_unexpired_lease expire_attempt_lease expire_verdict
  release_ends db now test_now later h raw ttl n y db' e is =
      let m = release-Ended db now h raw y db' e in
      (
        ground (arith, m.id_ok, m.token_ok, locate_again h raw y db' m, m.ended),
        ground (arith, m.id_ok, m.token_ok, locate_again h raw y db' m, m.ended),
      )
