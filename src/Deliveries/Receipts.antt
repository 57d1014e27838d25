-- ===== src/Deliveries/Receipts.antt =====
-- `finish_channel_delivery` of db.py as a move of the delivery table.
use coordinate.Base.{
  ℕ, String, ◌≡◌, refl, ap, ◌∙◌, Bool, Option, not, ◌&&◌, arith, if◌then◌else◌, ok, err, >>=-eq-ok,
  guard, true,
}
use coordinate.Table.{update, is_some}
use coordinate.Json.{get}
use coordinate.Schema.{Db, Delivery, sending}
use coordinate.Events.Log.{append_event}
use coordinate.Deliveries.Ledger.{get_delivery, is_channel_delivery, same_status}
use coordinate.Deliveries.Channel.{
  C, with_row, from_store, one_outcome_required, not_sending, FinishInput, in_flight, finished_row,
  finish_channel_delivery, outcome_event, payload_text,
}
use coordinate.Deliveries.Moves.{IsBookkeeping, IsForward, Move, write}
use coordinate.Deliveries.Writes.{append_event-deliveries}
use coordinate.Deliveries.Requests.{from_store-eq-ok, finish-IsForward, every_row}

finished-IsBookkeeping :
    (now : ℕ) (message_id : Option String) (rejected : Bool)
    → IsBookkeeping (finished_row now message_id rejected)
finished-IsBookkeeping now message_id rejected = record {
  same_id = λ _. refl;
  same_key = λ _. refl;
  same_payload = λ _. refl;
}

with_row-eq-ok :
    (rows : Db) (m : C Delivery) (d : Delivery) (after : Db)
    → with_row rows m ≡ ok (d, after)
    → after ≡ rows
with_row-eq-ok rows (ok x) d after h = ground arith
with_row-eq-ok rows (err e) d after h = absurd (ground arith)

finish_channel_delivery-rows :
    (db : Db) (i : FinishInput) (id : String) (message_id : Option String) (rejected : Bool)
    (d : Delivery) (after : Db)
    → finish_channel_delivery db i id message_id rejected ≡ ok (d, after)
    → after.deliveries
      ≡ update (in_flight id) (finished_row i.finished_now message_id rejected) db.deliveries
unfolding finish_channel_delivery
finish_channel_delivery-rows db i id message_id rejected d after h =
    let (_, _, h₁) =
      >>=-eq-ok
        (guard (not (if is_some message_id then rejected else not rejected)) one_outcome_required) _
        h in
    let (row, _, h₂) = >>=-eq-ok (from_store (get_delivery db id)) _ h₁ in
    let (_, _, h₃) =
      >>=-eq-ok (guard (is_channel_delivery row && same_status row.status sending) not_sending) _
        h₂ in
    let (actor, _, h₄) = >>=-eq-ok (payload_text (get row.payload "actor")) _ h₃ in
    let (workspace_id, _, h₅) = >>=-eq-ok (payload_text (get row.payload "workspace_id")) _ h₄ in
    let e = outcome_event id row actor workspace_id message_id rejected in
    let ((x, logged), appended, h₆) =
      >>=-eq-ok (from_store (append_event db i.event_now i.event_id e)) _ h₅ in
    let same =
      append_event-deliveries db i.event_now i.event_id e x logged
        (from_store-eq-ok (append_event db i.event_now i.event_id e) (x, logged) appended) in
    let finish = finished_row i.finished_now message_id rejected in
    let rows : Db = record logged { deliveries = update (in_flight id) finish logged.deliveries } in
    ap (λ (x : Db). x.deliveries)
      (with_row-eq-ok rows (from_store (get_delivery rows id)) d after h₆)
    ∙ ap (update (in_flight id) finish) same

pub finish_channel_delivery-Move :
    (db : Db) (i : FinishInput) (id : String) (message_id : Option String) (rejected : Bool)
    (d : Delivery) (after : Db)
    → finish_channel_delivery db i id message_id rejected ≡ ok (d, after)
    → Move db.deliveries after.deliveries
finish_channel_delivery-Move db i id message_id rejected d after h =
    write (in_flight id) (finished_row i.finished_now message_id rejected)
      (finished-IsBookkeeping i.finished_now message_id rejected)
      (every_row
        (λ x.
          in_flight id x ≡ true → IsForward x (finished_row i.finished_now message_id rejected x))
        db.deliveries (λ x. finish-IsForward i.finished_now id message_id rejected x))
      (finish_channel_delivery-rows db i id message_id rejected d after h)
