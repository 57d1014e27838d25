-- ===== src/Deliveries/Recovery.antt =====
-- `recover_sending_deliveries` of db.py as moves of the delivery table.
use coordinate.Base.{
  ℕ, ◌≤◌, String, ◌≡◌, refl, subst, ap, Bool, true, Option, some, List, [], ◌∷◌, arith,
  string_dec_eq, ==_refl, Bool-cases, inl, inr, Result,
}
use coordinate.Table.{find?, select, update, count_where, All}
use coordinate.Schema.{Db, Delivery}
use coordinate.Events.Log.{DbError}
use coordinate.Deliveries.Ledger.{
  has_id, is_channel_delivery, recover_sending_deliveries, recover_rows, recoverable, pending_row,
  update_delivery,
}
use coordinate.Deliveries.Moves.{IsBookkeeping, Moves, here, next, IsOneShot, Moves-then}
use coordinate.Deliveries.Writes.{IsPlain, plain-Move, found-IsPlain}

module _ {ℓ} {A : Type ℓ} where
  All-map {κ} : (P Q : A → Type κ) (xs : List A) → ((x : A) → P x → Q x) → All P xs → All Q xs
  All-map P Q [] f h = tt
  All-map P Q (x ∷ xs) f h = (f x h.0, All-map P Q xs f h.1)

  found_counts : (p : A → Bool) (xs : List A) (x : A) → find? p xs ≡ some x → 1 ≤ count_where p xs
  found_counts p [] x e = cc
  found_counts p (y ∷ xs) x e = ground (arith, found_counts p xs x)

-- With unique ids every row is the one that its id finds.
each_found :
    (rows : List Delivery)
    → ((i : String) → count_where (has_id i) rows ≤ 1)
    → All (λ d. find? (has_id d.id) rows ≡ some d) rows
each_found [] one = tt
each_found (x ∷ rows) one = (
  ground (arith, ==_refl x.id),
  All-map (λ d. find? (has_id d.id) rows ≡ some d) (λ d. find? (has_id d.id) (x ∷ rows) ≡ some d)
      rows behind (each_found rows (λ i. ground (arith, one i))),
)
  where
    behind :
        (d : Delivery) → find? (has_id d.id) rows ≡ some d → find? (has_id d.id) (x ∷ rows) ≡ some d
    behind d found = elim (Bool-cases (has_id d.id x)) [
      | inl e ↦ absurd (ground (arith, one d.id, found_counts (has_id d.id) rows d found))
      | inr e ↦ ground (arith, found, e)
    ]

IsPlain-update :
    (id : String) (q : Delivery → Bool) (f : Delivery → Delivery) (rows : List Delivery)
    → IsBookkeeping f
    → IsPlain id rows
    → IsPlain id (update q f rows)
unfolding is_channel_delivery
IsPlain-update id q f [] b h = tt
IsPlain-update id q f (x ∷ rows) b h = elim (Bool-cases (q x)) [
  | inl e ↦
      rw e (
        (λ t. rw (b.same_payload x) (h.0 (rw (b.same_id x) at t))),
        IsPlain-update id q f rows b h.1,
      )
  | inr e ↦ rw e (h.0, IsPlain-update id q f rows b h.1)
]

pending-IsBookkeeping : (now : ℕ) (reason : String) → IsBookkeeping (pending_row now reason)
pending-IsBookkeeping now reason = record {
  same_id = λ _. refl;
  same_key = λ _. refl;
  same_payload = λ _. refl;
}

attempts_stay :
    (now : ℕ) (reason id : String) (rows : List Delivery)
    → All
        (λ x. has_id id x ≡ true → x.attempt_count ≤ (pending_row now reason x).attempt_count)
        rows
attempts_stay now reason id [] = tt
attempts_stay now reason id (x ∷ rows) = ((λ _. omega arith), attempts_stay now reason id rows)

recover_rows-Moves :
    (now : ℕ) (reason : String) (rows : List Delivery) (db : Db)
    → All (λ d. IsPlain d.id db.deliveries) rows
    → Moves db.deliveries (recover_rows now reason rows db).deliveries
recover_rows-Moves now reason [] db plain = here
recover_rows-Moves now reason (row ∷ rows) db plain =
    let f = pending_row now reason in
    let one =
      plain-Move row.id f db.deliveries (pending-IsBookkeeping now reason) plain.0
        (attempts_stay now reason row.id db.deliveries) in
    Moves-then (next here one) (
      recover_rows-Moves now reason rows (update_delivery db row.id f) (
        All-map (λ d. IsPlain d.id db.deliveries)
          (λ d. IsPlain d.id (update (has_id row.id) f db.deliveries)) rows
          (λ d.
            IsPlain-update d.id (has_id row.id) f db.deliveries (pending-IsBookkeeping now reason))
          plain.1))

selected-IsPlain :
    (platform : Option String) (rows all : List Delivery)
    → ((i : String) → count_where (has_id i) all ≤ 1)
    → All (λ d. find? (has_id d.id) all ≡ some d) rows
    → All (λ d. IsPlain d.id all) (select (recoverable platform) rows)
unfolding is_channel_delivery
selected-IsPlain platform [] all one found = tt
selected-IsPlain platform (x ∷ rows) all one found = elim (Bool-cases (recoverable platform x)) [
  | inl e ↦ rw e (
    found-IsPlain x.id all x (one x.id) found.0 (ground (arith, e)),
    selected-IsPlain platform rows all one found.1,
  )
  | inr e ↦ rw e (selected-IsPlain platform rows all one found.1)
]

pub recover-Moves :
    (db : Db) (now : ℕ) (platform : Option String) (reason : String)
    (rows : Result DbError (List Delivery)) (after : Db)
    → IsOneShot db.deliveries
    → recover_sending_deliveries db now platform reason ≡ (rows, after)
    → Moves db.deliveries after.deliveries
unfolding recover_sending_deliveries
recover-Moves db now platform reason rows after one h =
    subst (λ (d : Db). Moves db.deliveries d.deliveries)
      (ap (λ (r : Result DbError (List Delivery) × Db). r.1) h)
      (recover_rows-Moves now reason (select (recoverable platform) db.deliveries) db (
        selected-IsPlain platform db.deliveries db.deliveries one.one_id
          (each_found db.deliveries one.one_id)))
