-- ===== src/Events/Idempotency.antt =====
-- The same request again changes nothing.
use coordinate.Base.{
  ℕ, String, ◌≡◌, sym, subst, ap, ◌∙◌, true, false, ◌⊎◌, inl, inr, some, [], ◌∷◌, ◌++◌,
  string_dec_eq, ok, arith, ==_refl,
}
use coordinate.Table.{find?, find?-append_new}
use coordinate.Schema.{Db, Event}
use coordinate.Events.Log.{
  NewEvent, AppendEventResult, event_key, event_row, has_key, insertable, append_event,
}

-- A successful call appended its row, or answered with the event of the key.
pub append_event-cases :
    (db : Db) (now : ℕ) (id : String) (e : NewEvent) (r : AppendEventResult) (db' : Db)
    → append_event db now id e ≡ ok (r, db')
    → ((insertable db (event_row now id e) ≡ true)
        × (r ≡ record { row = event_row now id e; created = true })
        × (db' ≡ record db { events = db.events ++ event_row now id e ∷ [] }))
      ⊎ ((find? (has_key (event_key e.idempotency_key id)) db.events ≡ some r.row)
          × (r.created ≡ false)
          × (db' ≡ db))
unfolding append_event
append_event-cases db now id e r db' h = ground arith

append_event-found :
    (db : Db) (now : ℕ) (id : String) (e : NewEvent) (x : Event)
    → find? (has_key (event_key e.idempotency_key id)) db.events ≡ some x
    → append_event db now id e ≡ ok (record { row = x; created = false }, db)
unfolding append_event
append_event-found db now id e x found = ground arith

-- A call with the same key as one that succeeded, whatever else differs and whenever it comes,
-- answers with the event of the first call as not created, and writes nothing.
pub append_event_again :
    (db : Db) (now later : ℕ) (id id' : String) (e e' : NewEvent) (r : AppendEventResult) (db' : Db)
    → append_event db now id e ≡ ok (r, db')
    → event_key e'.idempotency_key id' ≡ event_key e.idempotency_key id
    → append_event db' later id' e' ≡ ok (record { row = r.row; created = false }, db')
append_event_again db now later id id' e e' r db' h same =
    append_event-found db' later id' e' r.row (
      subst (λ k. find? (has_key k) db'.events ≡ some r.row) (sym same)
        (elim (append_event-cases db now id e r db' h) [
          | inl (free, made, rows) ↦
              ap (λ (d : Db). find? (has_key (event_key e.idempotency_key id)) d.events) rows
              ∙ find?-append_new (has_key (event_key e.idempotency_key id)) db.events
                  (event_row now id e) (ground arith) (==_refl (event_key e.idempotency_key id))
              ∙ ap (λ (q : AppendEventResult). some q.row) (sym made)
          | inr (found, _, kept) ↦
              ap (λ (d : Db). find? (has_key (event_key e.idempotency_key id)) d.events) kept
              ∙ found
        ]))
