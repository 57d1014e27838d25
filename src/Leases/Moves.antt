-- ===== src/Leases/Moves.antt =====
-- What a successful call does to the lease table, as a step relation.
use coordinate.Base.{
  Option-cases, inl, inr, ◌⊎◌, ℕ, ◌<◌, String, ◌≡◌, false, Option, none, some, true, List, [], ◌∷◌,
  ◌++◌, arith, nat_dec_eq, string_dec_eq, ok, >>=-eq-ok,
}
use coordinate.Table.{find?, select, length}
use coordinate.Schema.{Db, Lease}
use coordinate.Resources.{Platform}
use coordinate.Leases.Store.{
  has_id, of_attempt, holds, occupies, find_active_resource_lease, count_active_leases_for_agent,
  insert_lease,
}
use coordinate.Leases.Reserve.{
  admit, replay, immutable_fields_match, Grant, Reading, Receipt, new_lease, no_conflict, receipt,
  acquire,
}

-- What `acquire` found before it wrote.
pub record Acquired (db : Db) (clock : Reading) (g : Grant) (r : Receipt) (db' : Db) : Type 0 where
  pub free : find? (holds g.resource_key) db.leases ≡ none
  pub first : find? (has_id clock.uuid) db.leases ≡ none
  pub fresh : find? (of_attempt g.job_id g.attempt_token) db.leases ≡ none
  pub room : length (select (occupies g.agent_id clock.count_now) db.leases) < g.max_concurrent_jobs
  pub rows : db' ≡ record db { leases = db.leases ++ new_lease clock g ∷ [] }
  pub reply : r ≡ receipt (new_lease clock g) false

module _ (lib : Platform) where
  pub find_active-eq-ok :
      (rows : List Lease) (key : String) (o : Option Lease)
      → find_active_resource_lease lib rows key ≡ ok o
      → find? (holds key) rows ≡ o
  unfolding find_active_resource_lease
  find_active-eq-ok rows key o h = ground arith

  pub count_active-eq-ok :
      (rows : List Lease) (agent : String) (now n : ℕ)
      → count_active_leases_for_agent lib rows agent now ≡ ok n
      → length (select (occupies agent now) rows) ≡ n
  unfolding count_active_leases_for_agent
  count_active-eq-ok rows agent now n h = ground arith

  pub acquire-Acquired :
      (db : Db) (clock : Reading) (g : Grant) (r : Receipt) (db' : Db)
      → find? (of_attempt g.job_id g.attempt_token) db.leases ≡ none
      → acquire lib db clock g ≡ ok (r, db')
      → Acquired db clock g r db'
  unfolding acquire no_conflict insert_lease
  acquire-Acquired db clock g r db' new h =
      let (held, found, h₁) =
        >>=-eq-ok (find_active_resource_lease lib db.leases g.resource_key) _ h in
      let (u, clear, h₂) = >>=-eq-ok (no_conflict clock.now held) _ h₁ in
      let (n, counted, h₃) =
        >>=-eq-ok (count_active_leases_for_agent lib db.leases g.agent_id clock.count_now) _ h₂ in
      ground (
        arith,
        find_active-eq-ok db.leases g.resource_key held found,
        count_active-eq-ok db.leases g.agent_id clock.count_now n counted,
      )

  -- A reservation is the replay of an earlier one or a new row.
  pub admit-cases :
      (db : Db) (clock : Reading) (g : Grant) (r : Receipt) (db' : Db)
      → admit lib db clock g ≡ ok (r, db')
      → ((x : Lease) × (find? (of_attempt g.job_id g.attempt_token) db.leases ≡ some x)
          × (immutable_fields_match x g ≡ true)
          × (r ≡ receipt x true)
          × (db' ≡ db))
        ⊎ Acquired db clock g r db'
  unfolding admit replay
  admit-cases db clock g r db' h =
      elim (Option-cases (find? (of_attempt g.job_id g.attempt_token) db.leases)) [
        | inl new ↦ inr (acquire-Acquired db clock g r db' new (rw (new, admit) at h))
        | inr (x, found) ↦ inl (x, found, ground arith, ground arith, ground arith)
      ]
