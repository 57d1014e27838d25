-- ===== src/Leases/Calls.antt =====
-- The committed transactions of the lease module as one relation on the database, and what every
-- sequence of them keeps.
use coordinate.Base.{
  ℕ, String, ◌≡◌, refl, sym, subst, ap, ◌∙◌, true, false, some, List, [], ◌∷◌, arith, ◌==◌,
  nat_dec_eq, string_dec_eq, inl, inr, ok, >>=-eq-ok, Bool,
}
use coordinate.Json.{Json}
use coordinate.Table.{find?, update, exists, All, only_row}
use coordinate.Schema.{Db, Lease, is_active}
use coordinate.Resources.{Platform}
use coordinate.Leases.Store.{has_id, is_due}
use coordinate.Leases.Reserve.{
  Reading, Request, Receipt, Grant, SnapshotCheck, authorize, admit, new_lease,
  reserve_attempt_lease,
}
use coordinate.Leases.Lifecycle.{
  Holder, renewal, releasing, expiring, renew_attempt_lease, release_attempt_lease,
  expire_attempt_lease, expire_due_attempt_leases,
}
use coordinate.Leases.Moves.{admit-cases}
use coordinate.Leases.Steps.{
  IsFinishing, Step, stay, insert, write, Steps, here, next, IsIndexed, Steps-IsIndexed,
  Steps-frozen,
}
use coordinate.Leases.Outcomes.{
  Replaced, renew-Replaced, release-Released, expire-Expired, expire_due-updates,
}
use coordinate.Leases.Due.{update-listed}

renewal-IsFinishing : (now expires : ℕ) → IsFinishing (renewal now expires)
renewal-IsFinishing now expires = record {
  same_id = λ x. refl;
  same_job = λ x. refl;
  same_token = λ x. refl;
  same_key = λ x. refl;
  no_revival = λ x e. e;
}

releasing-IsFinishing : (now : ℕ) (reason : String) → IsFinishing (releasing now reason)
releasing-IsFinishing now reason = record {
  same_id = λ x. refl;
  same_job = λ x. refl;
  same_token = λ x. refl;
  same_key = λ x. refl;
  no_revival = λ x e. cc;
}

expiring-IsFinishing : IsFinishing expiring
expiring-IsFinishing = record {
  same_id = λ x. refl;
  same_job = λ x. refl;
  same_token = λ x. refl;
  same_key = λ x. refl;
  no_revival = λ x e. cc;
}

-- Where a condition is unique and its row active, it touches active rows alone.
pub only_active :
    (x : Lease) (q : Lease → Bool) (rows : List Lease)
    → is_active x.status ≡ true
    → All (λ y. q y ≡ true → y ≡ x) rows
    → All (λ y. q y ≡ true → is_active y.status ≡ true) rows
only_active x q [] live a = tt
only_active x q (y ∷ rows) live a = (
  (λ e. subst (λ (z : Lease). is_active z.status ≡ true) (sym (a.0 e)) live),
  only_active x q rows live a.1,
)

Replaced-Step :
    (db db' : Db) (x : Lease) (f : Lease → Lease)
    → IsFinishing f
    → IsIndexed db.leases
    → Replaced db x f db'
    → Step db.leases db'.leases
Replaced-Step db db' x f k h r =
    write (has_id x.lease_id) f k
      (only_active x (has_id x.lease_id) db.leases r.was_active
        (only_row (has_id x.lease_id) db.leases x (h.one_id x.lease_id) r.found))
      (ap (λ (d : Db). d.leases) r.rows)

due_active :
    (now : ℕ) (rows : List Lease) → All (λ x. is_due now x ≡ true → is_active x.status ≡ true) rows
due_active now [] = tt
due_active now (x ∷ rows) = ((λ e. ground arith), due_active now rows)

module _ (lib : Platform) where
  -- On a table with unique ids a sweep that succeeds expires the rows that are active with
  -- `expires_at` at or before the given time, and changes nothing else.
  pub sweep :
      (db : Db) (now : ℕ) (ids : List String) (db' : Db)
      → IsIndexed db.leases
      → expire_due_attempt_leases lib db now ≡ ok (ids, db')
      → db' ≡ record db { leases = update (is_due now) expiring db.leases }
  sweep db now ids db' h e =
      let (these, wrote) = expire_due-updates lib db now ids db' e in
      wrote
      ∙ ap
          (λ (l : List String). record db {
            leases = update (λ x. exists (λ i. i == x.lease_id) l) expiring db.leases;
          })
          these
      ∙ ap (λ (l : List Lease). record db { leases = l })
          (update-listed (is_due now) expiring db.leases h.one_id)

module _ (lib : Platform) (snapshot : SnapshotCheck) where
  -- One committed call.
  pub data Call (db : Db) : Db → Type 0 where
    reserving :
        {after : Db} (clock : Reading) (q : Request) (r : Receipt)
        → reserve_attempt_lease lib snapshot db clock q ≡ ok (r, after)
        → Call db after
    renewing :
        {after : Db} (test_now now : ℕ) (h : Holder) (ttl : Json) (x : Lease)
        → renew_attempt_lease lib db test_now now h ttl ≡ ok (x, after)
        → Call db after
    dropping :
        {after : Db} (now : ℕ) (h : Holder) (reason : Json) (x : Lease)
        → release_attempt_lease lib db now h reason ≡ ok (x, after)
        → Call db after
    lapsing :
        {after : Db} (h : Holder) (x : Lease)
        → expire_attempt_lease lib db h ≡ ok (x, after)
        → Call db after
    sweeping :
        {after : Db} (now : ℕ) (ids : List String)
        → expire_due_attempt_leases lib db now ≡ ok (ids, after)
        → Call db after

  pub data Calls (db : Db) : Db → Type 0 where
    none_yet : Calls db db
    and_then : {mid after : Db} → Calls db mid → Call mid after → Calls db after

  admit-Step :
      (db : Db) (clock : Reading) (g : Grant) (r : Receipt) (db' : Db)
      → admit lib db clock g ≡ ok (r, db')
      → Step db.leases db'.leases
  admit-Step db clock g r db' e = elim (admit-cases lib db clock g r db' e) [
    | inl (x, found, same, reply, kept) ↦ stay (ap (λ (d : Db). d.leases) kept)
    | inr a ↦ insert (new_lease clock g) a.first a.fresh a.free (ap (λ (d : Db). d.leases) a.rows)
  ]

  -- From a table with its unique indexes, each call is a step of the table.
  Call-Step : {db after : Db} → Call db after → IsIndexed db.leases → Step db.leases after.leases
  unfolding reserve_attempt_lease
  Call-Step {db} {after} (reserving clock q r e) h =
      let (g, _, admitted) = >>=-eq-ok (authorize lib snapshot db q) _ e in
      admit-Step db clock g r after admitted
  Call-Step {db} {after} (renewing test_now now i ttl y e) h =
      let (x, n, _, _, _, _, r) = renew-Replaced lib db test_now now i ttl y after e in
      Replaced-Step db after x _ (renewal-IsFinishing now _) h r
  Call-Step {db} {after} (dropping now i raw y e) h =
      let (reason, x, _, cases) = release-Released lib db now i raw y after e in
      elim cases [
        | inl (_, _, _, _, kept) ↦ stay (ap (λ (d : Db). d.leases) kept)
        | inr (r, _) ↦ Replaced-Step db after x _ (releasing-IsFinishing now reason) h r
      ]
  Call-Step {db} {after} (lapsing i y e) h =
      let (x, cases) = expire-Expired lib db i y after e in
      elim cases [
        | inl (_, _, _, kept) ↦ stay (ap (λ (d : Db). d.leases) kept)
        | inr (r, _) ↦ Replaced-Step db after x expiring expiring-IsFinishing h r
      ]
  Call-Step {db} {after} (sweeping now ids e) h =
      write (is_due now) expiring expiring-IsFinishing (due_active now db.leases)
        (ap (λ (d : Db). d.leases) (sweep lib db now ids after h e))

  Calls-Steps :
      {db after : Db} → Calls db after → IsIndexed db.leases → Steps db.leases after.leases
  Calls-Steps none_yet h = here
  Calls-Steps (and_then cs c) h =
      let s = Calls-Steps cs h in next s (Call-Step c (Steps-IsIndexed s h))

  -- After any committed calls on a table with its unique indexes, no two rows share an id or an
  -- attempt of a job, and no resource has two active leases.
  pub Calls-IsIndexed :
      {db after : Db} → Calls db after → IsIndexed db.leases → IsIndexed after.leases
  Calls-IsIndexed cs h = Steps-IsIndexed (Calls-Steps cs h) h

  -- Whatever calls are committed on a table with its unique indexes, a lease that was released or
  -- expired is found by its id with every column as it was.
  pub Calls-frozen :
      {db after : Db} (x : Lease) (i : String)
      → Calls db after
      → IsIndexed db.leases
      → find? (has_id i) db.leases ≡ some x
      → is_active x.status ≡ false
      → find? (has_id i) after.leases ≡ some x
  Calls-frozen x i cs h found ended = Steps-frozen i (Calls-Steps cs h) found ended
