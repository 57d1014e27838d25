-- ===== src/Leases/Outcomes.antt =====
-- What a successful renewal, release or expiry found and wrote.
use coordinate.Base.{
  ℕ, ◌<◌, String, ◌≡◌, subst, sym, true, not, ◌⊎◌, Option, some, List, map, leb, arith, ◌==◌,
  nat_dec_eq, string_dec_eq, inl, inr, ==_sound, ok, guard, >>=-eq-ok,
}
use coordinate.Json.{Json}
use coordinate.Table.{find?, select, update, exists, find?-holds}
use coordinate.Schema.{Db, Lease, LeaseStatus, released, expired, is_active}
use coordinate.Resources.{Platform}
use coordinate.Leases.Checks.{
  validate_ttl, validate_lease_id, validate_attempt_token, validate_release_reason,
}
use coordinate.Leases.Store.{has_id, is_due, update_lease}
use coordinate.Leases.Reserve.{compute_expires}
use coordinate.Leases.Lifecycle.{
  Holder, Verdict, settled, write, renewal, releasing, expiring, locate,
  require_active_unexpired_lease, renew_attempt_lease, release_attempt_lease, release_verdict,
  finish_release, expire_attempt_lease, expire_verdict, finish_expiry, expire_due_attempt_leases,
}

-- One row was found by its id and replaced.
pub record Replaced (db : Db) (x : Lease) (f : Lease → Lease) (db' : Db) : Type 0 where
  pub found : find? (has_id x.lease_id) db.leases ≡ some x
  pub was_active : is_active x.status ≡ true
  pub rows : db' ≡ record db { leases = update (has_id x.lease_id) f db.leases }

pub update_lease-eq-ok :
    (rows : List Lease) (i : String) (f : Lease → Lease) (rows' : List Lease)
    → update_lease rows i f ≡ ok rows'
    → rows' ≡ update (has_id i) f rows
unfolding update_lease
update_lease-eq-ok rows i f rows' e = ground arith

module _ (lib : Platform) where
  pub locate-found :
      (rows : List Lease) (h : Holder) (i : String) (t : ℕ) (x : Lease)
      → locate lib rows h i t ≡ ok x
      → find? (has_id i) rows ≡ some x
  unfolding locate
  locate-found rows h i t x e = ground arith

  pub locate-Holds :
      (rows : List Lease) (h : Holder) (i : String) (t : ℕ) (x : Lease)
      → locate lib rows h i t ≡ ok x
      → (x.job_id ≡ h.job_id) × (x.attempt_token ≡ t) × (x.agent_id ≡ h.agent_id)
  unfolding locate
  locate-Holds rows h i t x e = ground arith

  -- The row is found again by its own id.
  pub locate_self :
      (rows : List Lease) (h : Holder) (i : String) (t : ℕ) (x : Lease)
      → locate lib rows h i t ≡ ok x
      → find? (has_id x.lease_id) rows ≡ some x
  locate_self rows h i t x e =
      let found = locate-found rows h i t x e in
      subst (λ j. find? (has_id j) rows ≡ some x)
        (sym (==_sound x.lease_id i (find?-holds (has_id i) rows x found))) found

  require_active-found :
      (db : Db) (now : ℕ) (h : Holder) (x : Lease)
      → require_active_unexpired_lease lib db now h ≡ ok x
      → (find? (has_id x.lease_id) db.leases ≡ some x)
        × (is_active x.status ≡ true)
        × (now < x.expires_at)
  unfolding require_active_unexpired_lease
  require_active-found db now h x e =
      let (i, _, e₁) = >>=-eq-ok (validate_lease_id h.lease_id) _ e in
      let (t, _, e₂) = >>=-eq-ok (validate_attempt_token h.attempt_token) _ e₁ in
      let (y, at, e₃) = >>=-eq-ok (locate lib db.leases h i t) _ e₂ in
      ground (arith, locate_self db.leases h i t y at)

  -- A renewal that succeeds has found the row active and, at the first reading of the clock, not
  -- expired; its new expiry lies the given seconds after the second reading and later than the old
  -- one, that row alone is written, and it is the row that is answered.
  pub renew-Replaced :
      (db : Db) (test_now now : ℕ) (h : Holder) (ttl : Json) (y : Lease) (db' : Db)
      → renew_attempt_lease lib db test_now now h ttl ≡ ok (y, db')
      → (x : Lease) × (n : ℕ) × (validate_ttl ttl ≡ ok n)
        × (y ≡ renewal now (compute_expires now n) x)
        × (test_now < x.expires_at)
        × (x.expires_at < compute_expires now n)
        × Replaced db x (renewal now (compute_expires now n)) db'
  unfolding renew_attempt_lease
  renew-Replaced db test_now now h ttl y db' e =
      let (n, ttl_ok, e₁) = >>=-eq-ok (validate_ttl ttl) _ e in
      let (x, at, e₂) = >>=-eq-ok (require_active_unexpired_lease lib db test_now h) _ e₁ in
      let found = require_active-found db test_now h x at in
      let f = renewal now (compute_expires now n) in
      let (_, later, e₃) =
        >>=-eq-ok (guard (not (leb (compute_expires now n) x.expires_at)) _) _ e₂ in
      let (rows, wrote, e₄) = >>=-eq-ok (update_lease db.leases x.lease_id f) _ e₃ in
      (
        x,
        n,
        ttl_ok,
        ground arith,
        found.2,
        ground arith,
        record {
          found = found.0;
          was_active = found.1;
          rows = ground (arith, update_lease-eq-ok db.leases x.lease_id f rows wrote);
        },
      )

  release_verdict-write :
      (s : LeaseStatus) (stored : Option String) (reason : String)
      → release_verdict s stored reason ≡ ok write
      → is_active s ≡ true
  unfolding release_verdict
  release_verdict-write s stored reason e = ground arith

  release_verdict-settled :
      (s : LeaseStatus) (stored : Option String) (reason : String)
      → release_verdict s stored reason ≡ ok settled
      → (s ≡ released) × (stored ≡ some reason)
  unfolding release_verdict
  release_verdict-settled s stored reason e = ground arith

  -- Either the row was released before for the same reason, or it was active and is released now.
  abbrev pub Released : Db → ℕ → String → Lease → Lease → Db → Type 0
  Released db now reason x y db' =
      ((find? (has_id x.lease_id) db.leases ≡ some x)
        × (x.status ≡ released)
        × (x.release_reason ≡ some reason)
        × (y ≡ x)
        × (db' ≡ db))
      ⊎ (Replaced db x (releasing now reason) db' × (y ≡ releasing now reason x))

  pub finish_release-Released :
      (db : Db) (now : ℕ) (reason : String) (x : Lease) (v : Verdict) (y : Lease) (db' : Db)
      → find? (has_id x.lease_id) db.leases ≡ some x
      → release_verdict x.status x.release_reason reason ≡ ok v
      → finish_release lib db now reason x v ≡ ok (y, db')
      → Released db now reason x y db'
  unfolding finish_release
  finish_release-Released db now reason x settled y db' found is e =
      let (s, r) = release_verdict-settled x.status x.release_reason reason is in
      inl (found, s, r, ground arith, ground arith)
  finish_release-Released db now reason x write y db' found is e =
      let (rows, wrote, e₁) =
        >>=-eq-ok (update_lease db.leases x.lease_id (releasing now reason)) _ e in
      inr (
        record {
          found = found;
          was_active = release_verdict-write x.status x.release_reason reason is;
          rows =
              ground
                (arith, update_lease-eq-ok db.leases x.lease_id (releasing now reason) rows wrote);
        },
        ground arith,
      )

  pub release-Released :
      (db : Db) (now : ℕ) (h : Holder) (raw : Json) (y : Lease) (db' : Db)
      → release_attempt_lease lib db now h raw ≡ ok (y, db')
      → (reason : String) × (x : Lease) × (validate_release_reason raw ≡ ok reason)
        × Released db now reason x y db'
  unfolding release_attempt_lease
  release-Released db now h raw y db' e =
      let (i, _, e₁) = >>=-eq-ok (validate_lease_id h.lease_id) _ e in
      let (reason, given, e₂) = >>=-eq-ok (validate_release_reason raw) _ e₁ in
      let (t, _, e₃) = >>=-eq-ok (validate_attempt_token h.attempt_token) _ e₂ in
      let (x, at, e₄) = >>=-eq-ok (locate lib db.leases h i t) _ e₃ in
      let (v, is, e₅) = >>=-eq-ok (release_verdict x.status x.release_reason reason) _ e₄ in
      (
        reason,
        x,
        given,
        finish_release-Released db now reason x v y db' (locate_self db.leases h i t x at) is e₅,
      )

  expire_verdict-write : (s : LeaseStatus) → expire_verdict s ≡ ok write → is_active s ≡ true
  unfolding expire_verdict
  expire_verdict-write s e = ground arith

  expire_verdict-settled : (s : LeaseStatus) → expire_verdict s ≡ ok settled → s ≡ expired
  unfolding expire_verdict
  expire_verdict-settled s e = ground arith

  -- Either the row was expired before, or it was active and is expired now.
  abbrev pub Expired : Db → Lease → Lease → Db → Type 0
  Expired db x y db' =
      ((find? (has_id x.lease_id) db.leases ≡ some x) × (x.status ≡ expired) × (y ≡ x) × (db' ≡ db))
      ⊎ (Replaced db x expiring db' × (y ≡ expiring x))

  finish_expiry-Expired :
      (db : Db) (x : Lease) (v : Verdict) (y : Lease) (db' : Db)
      → find? (has_id x.lease_id) db.leases ≡ some x
      → expire_verdict x.status ≡ ok v
      → finish_expiry lib db x v ≡ ok (y, db')
      → Expired db x y db'
  unfolding finish_expiry
  finish_expiry-Expired db x settled y db' found is e =
      inl (found, expire_verdict-settled x.status is, ground arith, ground arith)
  finish_expiry-Expired db x write y db' found is e =
      let (rows, wrote, e₁) = >>=-eq-ok (update_lease db.leases x.lease_id expiring) _ e in
      inr (
        record {
          found = found;
          was_active = expire_verdict-write x.status is;
          rows = ground (arith, update_lease-eq-ok db.leases x.lease_id expiring rows wrote);
        },
        ground arith,
      )

  pub expire-Expired :
      (db : Db) (h : Holder) (y : Lease) (db' : Db)
      → expire_attempt_lease lib db h ≡ ok (y, db')
      → (x : Lease) × Expired db x y db'
  unfolding expire_attempt_lease
  expire-Expired db h y db' e =
      let (i, _, e₁) = >>=-eq-ok (validate_lease_id h.lease_id) _ e in
      let (t, _, e₂) = >>=-eq-ok (validate_attempt_token h.attempt_token) _ e₁ in
      let (x, at, e₃) = >>=-eq-ok (locate lib db.leases h i t) _ e₂ in
      let (v, is, e₄) = >>=-eq-ok (expire_verdict x.status) _ e₃ in
      (x, finish_expiry-Expired db x v y db' (locate_self db.leases h i t x at) is e₄)

  pub expire_due-updates :
      (db : Db) (now : ℕ) (ids : List String) (db' : Db)
      → expire_due_attempt_leases lib db now ≡ ok (ids, db')
      → (ids ≡ map (λ (x : Lease). x.lease_id) (select (is_due now) db.leases))
        × (db' ≡ record db {
          leases = update (λ x. exists (λ i. i == x.lease_id) ids) expiring db.leases;
        })
  unfolding expire_due_attempt_leases
  expire_due-updates db now ids db' e = ground arith
