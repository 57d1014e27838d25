-- ===== src/Deliveries/Sends.antt =====
-- A send (`send_delivery` of bus.py) as a sequence of the outbox's transactions.
use coordinate.Base.{
  ℕ, String, ◌≡◌, refl, subst, ap, Bool, true, false, Option, some, arith, Bool-cases, inl, inr,
  Result, ok, err, leb,
}
use coordinate.Table.{find?}
use coordinate.Schema.{Db, Delivery}
use coordinate.Resources.{Platform}
use coordinate.Events.Log.{DbError}
use coordinate.Deliveries.Ledger.{
  has_id, get_delivery, is_channel_delivery, mark_delivery_sending, mark_delivery_sent,
  mark_delivery_failed,
}
use coordinate.Deliveries.Bus.{
  Transport, Buses, SendInput, SendDeliveryResult, B, one_shot, not_sendable, store, send_result,
  settle, post, post_by, checked_send, adapter_for, is_retryable, send_delivery,
}
use coordinate.Deliveries.Moves.{IsOneShot, Moves-Successor, has_id-IsColumn, Successor}
use coordinate.Deliveries.Writes.{get_delivery-eq-ok}
use coordinate.Deliveries.Steps.{
  Step, marked_sending, marked_sent, marked_failed, Steps, start, onward,
}
use coordinate.Deliveries.Once.{Steps-Moves}

read :
    (db : Db) (id : String) (e : Delivery)
    → find? (has_id id) db.deliveries ≡ some e
    → get_delivery db id ≡ ok e
unfolding get_delivery
read db id e h = ground arith

still_plain :
    (d e : Delivery) → Successor d e → is_channel_delivery d ≡ false → is_channel_delivery e ≡ false
unfolding is_channel_delivery
still_plain d e succ plain = rw succ.same_payload plain

module _ (lib : Platform) where
  pub Steps-append :
      {db mid after : Db} → Steps lib db mid → Steps lib mid after → Steps lib db after
  Steps-append first start = first
  Steps-append first (onward before last) = onward (Steps-append first before) last

  unchanged :
      (o : B SendDeliveryResult × Db) (res : B SendDeliveryResult) (after : Db)
      → o ≡ (res, after)
      → Steps lib o.1 after
  unchanged o res after h =
      subst (Steps lib o.1) (ap (λ (p : B SendDeliveryResult × Db). p.1) h) start

  send_result-Steps :
      (is_sent : Bool) (db : Db) (m : Result DbError (Delivery × Db)) (res : B SendDeliveryResult)
      (after : Db)
      → ((row : Delivery) (d : Db) → m ≡ ok (row, d) → Step lib db d)
      → send_result is_sent db m ≡ (res, after)
      → Steps lib db after
  send_result-Steps is_sent db (ok (row, d)) res after step h =
      subst (Steps lib db) (ap (λ (p : B SendDeliveryResult × Db). p.1) h)
        (onward start (step row d refl))
  send_result-Steps is_sent db (err e) res after step h =
      subst (Steps lib db) (ap (λ (p : B SendDeliveryResult × Db). p.1) h) start

  settle-Steps :
      (db : Db) (now max_attempts : ℕ) (id : String) (d e : Delivery)
      (answer : Result String String) (res : B SendDeliveryResult) (after : Db)
      → get_delivery db id ≡ ok e
      → is_channel_delivery e ≡ false
      → settle db now max_attempts id d answer ≡ (res, after)
      → Steps lib db after
  unfolding settle
  settle-Steps db now max_attempts id d e (ok message_id) res after found plain h =
      send_result-Steps true db (mark_delivery_sent db now id message_id) res after
        (λ row x m. marked_sent now id message_id e row found plain m) h
  settle-Steps db now max_attempts id d e (err error) res after found plain h =
      send_result-Steps false db
        (mark_delivery_failed db now id error (leb max_attempts d.attempt_count)) res after
        (λ row x m.
          marked_failed now id error (leb max_attempts d.attempt_count) e row found plain m)
        h

  module _ (i : SendInput) (others : (x : Db) → Steps lib x (i.meanwhile x)) where
    post-Steps :
        (adapter : Transport) (max_attempts : ℕ) (db : Db) (id : String) (d : Delivery)
        (m : Result DbError (Delivery × Db)) (res : B SendDeliveryResult) (after : Db)
        → IsOneShot db.deliveries
        → get_delivery db id ≡ ok d
        → is_channel_delivery d ≡ false
        → mark_delivery_sending db i.sending_now id ≡ m
        → post adapter i max_attempts db id m ≡ (res, after)
        → Steps lib db after
    unfolding settle
    post-Steps adapter max_attempts db id d (err e) res after one found plain marked h =
        subst (Steps lib db) (ap (λ (p : B SendDeliveryResult × Db). p.1) h) start
    post-Steps adapter max_attempts db id d (ok (x, mid)) res after one found plain marked h =
        let first : Steps lib db mid =
          onward start (marked_sending i.sending_now id d x found plain marked) in
        let both = Steps-append first (others mid) in
        let (e, there, succ) =
          Moves-Successor (has_id id) (has_id-IsColumn id) (Steps-Moves lib one both)
            (get_delivery-eq-ok db id d found) in
        Steps-append both (
          settle-Steps (i.meanwhile mid) i.finished_now max_attempts id x e
            (adapter x.destination x.payload x.message_key) res after
            (read (i.meanwhile mid) id e there) (still_plain d e succ plain) h)

    posted_by-Steps :
        (max_attempts : ℕ) (db : Db) (id : String) (d : Delivery) (m : B Transport)
        (res : B SendDeliveryResult) (after : Db)
        → IsOneShot db.deliveries
        → get_delivery db id ≡ ok d
        → is_channel_delivery d ≡ false
        → post_by i max_attempts db id m ≡ (res, after)
        → Steps lib db after
    posted_by-Steps max_attempts db id d (err e) res after one there plain h =
        unchanged (err e, db) res after h
    posted_by-Steps max_attempts db id d (ok adapter) res after one there plain h =
        post-Steps adapter max_attempts db id d (mark_delivery_sending db i.sending_now id) res
          after one there plain refl h

    checked-Steps :
        (bus : Option Transport) (env : Buses) (max_attempts : ℕ) (db : Db) (id : String)
        (found : Result DbError Delivery) (res : B SendDeliveryResult) (after : Db)
        → IsOneShot db.deliveries
        → get_delivery db id ≡ found
        → checked_send bus env i max_attempts db id found ≡ (res, after)
        → Steps lib db after
    unfolding is_channel_delivery
    checked-Steps bus env max_attempts db id (err e) res after one there h =
        unchanged (err (store e), db) res after h
    checked-Steps bus env max_attempts db id (ok d) res after one there h =
        elim (Bool-cases (is_channel_delivery d)) [
          | inl channel ↦ unchanged (err one_shot, db) res after (ground (arith, channel))
          | inr plain ↦ elim (Bool-cases (is_retryable d.status)) [
            | inr idle ↦
                unchanged (err (not_sendable d.status), db) res after (ground (arith, plain, idle))
            | inl ready ↦
                posted_by-Steps max_attempts db id d (adapter_for bus env d.platform) res after one
                  there plain (ground (arith, plain, ready))
          ]
        ]

    pub send_delivery-Steps :
        (bus : Option Transport) (env : Buses) (max_attempts : ℕ) (db : Db) (id : String)
        (res : B SendDeliveryResult) (after : Db)
        → IsOneShot db.deliveries
        → send_delivery bus env i max_attempts db id ≡ (res, after)
        → Steps lib db after
    unfolding send_delivery
    send_delivery-Steps bus env max_attempts db id res after one h =
        checked-Steps bus env max_attempts db id (get_delivery db id) res after one refl h
