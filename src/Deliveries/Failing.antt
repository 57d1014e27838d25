-- ===== src/Deliveries/Failing.antt =====
-- A delivery whose transport keeps failing (`send_delivery` of bus.py).
use coordinate.Base.{
  string_dec_eq, ◌==◌, ℕ, zero, suc, ◌+◌, String, ◌≡◌, refl, ap, true, false, Option, arith, leb,
  ok, err,
}
use coordinate.Json.{Fields}
use coordinate.Table.{find?-update, find?-holds}
use coordinate.Schema.{Db, Delivery, dead}
use coordinate.Deliveries.Ledger.{
  has_id, get_delivery, is_channel_delivery, mark_delivery_sending, mark_delivery_failed, marked,
  update_delivery, sending_row, failed_row,
}
use coordinate.Deliveries.Bus.{
  Transport, Buses, SendInput, SendDeliveryResult, B, not_sendable, settle, post, adapter_for,
  is_retryable, send_delivery,
}

updated-found :
    (db : Db) (id : String) (f : Delivery → Delivery) (d : Delivery)
    → ((x : Delivery) → (f x).id ≡ x.id)
    → get_delivery db id ≡ ok d
    → get_delivery (update_delivery db id f) id ≡ ok (f d)
unfolding get_delivery
updated-found db id f d same found = ground (
  arith,
  found,
  find?-holds (has_id id) db.deliveries d,
  find?-update (has_id id) (has_id id) f db.deliveries (λ x. ap (λ j. j == id) (same x)),
)

-- A mark by id gives the row that was found, with the columns set.
marked-found :
    (db : Db) (id : String) (f : Delivery → Delivery) (d : Delivery)
    → ((x : Delivery) → (f x).id ≡ x.id)
    → get_delivery db id ≡ ok d
    → marked db id f ≡ ok (f d, update_delivery db id f)
unfolding get_delivery
marked-found db id f d same found = rw (updated-found db id f d same found) refl

sending-found :
    (db : Db) (now : ℕ) (id : String) (d : Delivery)
    → get_delivery db id ≡ ok d
    → mark_delivery_sending db now id
      ≡ ok (
        sending_row now (d.attempt_count + 1) d,
        update_delivery db id (sending_row now (d.attempt_count + 1)),
      )
unfolding mark_delivery_sending
sending-found db now id d found =
    rw found (marked-found db id (sending_row now (d.attempt_count + 1)) d (λ _. refl) found)

-- The row after a failed attempt.
abbrev pub failed_attempt : ℕ → ℕ → ℕ → String → Delivery → Delivery
failed_attempt sending_now finished_now max_attempts error d =
    failed_row finished_now error (leb max_attempts (d.attempt_count + 1))
      (sending_row sending_now (d.attempt_count + 1) d)

-- The other connections leave the row alone while the transport runs.
abbrev pub IsUndisturbed : String → SendInput → Type 0
IsUndisturbed id i =
    (x : Db) (d : Delivery) → get_delivery x id ≡ ok d → get_delivery (i.meanwhile x) id ≡ ok d

settle-failed :
    (db : Db) (now max_attempts : ℕ) (id : String) (sending_d row : Delivery) (error : String)
    → get_delivery db id ≡ ok row
    → settle db now max_attempts id sending_d (err error) ≡ (
      ok (record {
        delivery = failed_row now error (leb max_attempts sending_d.attempt_count) row;
        sent = false;
      }),
      update_delivery db id (failed_row now error (leb max_attempts sending_d.attempt_count)),
    )
unfolding settle mark_delivery_failed
settle-failed db now max_attempts id sending_d row error found =
    rw
      (marked-found db id (failed_row now error (leb max_attempts sending_d.attempt_count)) row
        (λ _. refl) found)
      refl

post-failed :
    (t : Transport) (i : SendInput) (max_attempts : ℕ) (db : Db) (id : String) (d : Delivery)
    (error : String)
    → IsUndisturbed id i
    → get_delivery db id ≡ ok d
    → t d.destination d.payload d.message_key ≡ err error
    → (after : Db) × (post t i max_attempts db id (mark_delivery_sending db i.sending_now id) ≡ (
      ok (record {
        delivery = failed_attempt i.sending_now i.finished_now max_attempts error d;
        sent = false;
      }),
      after,
    ))
      × (get_delivery after id
          ≡ ok (failed_attempt i.sending_now i.finished_now max_attempts error d))
unfolding settle
post-failed t i max_attempts db id d error quiet found fails =
    let row = sending_row i.sending_now (d.attempt_count + 1) d in
    let mid =
      i.meanwhile (update_delivery db id (sending_row i.sending_now (d.attempt_count + 1))) in
    let there : get_delivery mid id ≡ ok row =
      quiet _ row (
        updated-found db id (sending_row i.sending_now (d.attempt_count + 1)) d (λ _. refl)
          found) in
    let f = failed_row i.finished_now error (leb max_attempts (d.attempt_count + 1)) in
    (
      update_delivery mid id f,
      rw (sending-found db i.sending_now id d found, fails)
          (settle-failed mid i.finished_now max_attempts id row row error there),
      updated-found mid id f row (λ _. refl) there,
    )

-- A send of a delivery whose transport fails.
send-failed :
    (bus : Option Transport) (env : Buses) (t : Transport) (i : SendInput) (max_attempts : ℕ)
    (db : Db) (id : String) (d : Delivery) (error : String)
    → IsUndisturbed id i
    → get_delivery db id ≡ ok d
    → is_channel_delivery d ≡ false
    → is_retryable d.status ≡ true
    → adapter_for bus env d.platform ≡ ok t
    → t d.destination d.payload d.message_key ≡ err error
    → (after : Db) × (send_delivery bus env i max_attempts db id ≡ (
      ok (record {
        delivery = failed_attempt i.sending_now i.finished_now max_attempts error d;
        sent = false;
      }),
      after,
    ))
      × (get_delivery after id
          ≡ ok (failed_attempt i.sending_now i.finished_now max_attempts error d))
unfolding send_delivery is_channel_delivery
send-failed bus env t i max_attempts db id d error quiet found plain ready adapter fails =
    let (after, sends, read) = post-failed t i max_attempts db id d error quiet found fails in
    (after, rw (found, plain, ready, adapter) sends, read)

-- The database after a number of sends of one delivery.
abbrev pub send_times : Option Transport → Buses → (ℕ → SendInput) → ℕ → String → ℕ → Db → Db
send_times bus env inputs max_attempts id zero db = db
send_times bus env inputs max_attempts id (suc n) db =
    send_times bus env inputs max_attempts id n
      (send_delivery bus env (inputs n) max_attempts db id).1

refused_dead :
    (bus : Option Transport) (env : Buses) (i : SendInput) (max_attempts : ℕ) (db : Db)
    (id : String) (d : Delivery)
    → get_delivery db id ≡ ok d
    → is_channel_delivery d ≡ false
    → d.status ≡ dead
    → send_delivery bus env i max_attempts db id ≡ (err (not_sendable dead), db)
unfolding send_delivery is_channel_delivery
refused_dead bus env i max_attempts db id d found plain status = rw (found, plain, status) refl

attempt_status :
    (a n max_attempts : ℕ) → a + suc (suc n) ≡ max_attempts → leb max_attempts (a + 1) ≡ false
attempt_status a n max_attempts h = ground arith

last_status : (a max_attempts : ℕ) → a + 1 ≡ max_attempts → leb max_attempts (a + 1) ≡ true
last_status a max_attempts h = ground arith

plain_attempt :
    (now now' max_attempts : ℕ) (error : String) (d : Delivery)
    → is_channel_delivery d ≡ false
    → is_channel_delivery (failed_attempt now now' max_attempts error d) ≡ false
unfolding is_channel_delivery
plain_attempt now now' max_attempts error d h = h

module _ (bus : Option Transport) (env : Buses) (inputs : ℕ → SendInput) (max_attempts : ℕ)
    (id : String) (t : Transport) (error : String) (quiet : (n : ℕ) → IsUndisturbed id (inputs n))
    (fails : (destination : String) (payload : Fields) (key : String)
      → t destination payload key ≡ err error) where
  -- A delivery that is not a channel message and may be sent, whose transport always fails and whose row
  -- no other connection touches, is dead after as many sends as it has attempts left, with
  -- `max_attempts` attempts, and every further send refuses it and writes nothing.
  pub failing-dies :
      (n : ℕ) (db : Db) (d : Delivery)
      → get_delivery db id ≡ ok d
      → is_channel_delivery d ≡ false
      → is_retryable d.status ≡ true
      → adapter_for bus env d.platform ≡ ok t
      → d.attempt_count + suc n ≡ max_attempts
      → (row : Delivery) × (get_delivery (send_times bus env inputs max_attempts id (suc n) db) id
          ≡ ok row)
        × (row.status ≡ dead)
        × (row.attempt_count ≡ max_attempts)
        × ((i : SendInput)
            → send_delivery bus env i max_attempts
                (send_times bus env inputs max_attempts id (suc n) db)
                id
              ≡ (err (not_sendable dead), send_times bus env inputs max_attempts id (suc n) db))
  failing-dies zero db d found plain ready adapter left =
      let i = inputs zero in
      let row = failed_attempt i.sending_now i.finished_now max_attempts error d in
      let (after, sends, read) =
        send-failed bus env t i max_attempts db id d error (quiet zero) found plain ready adapter
          (fails d.destination d.payload d.message_key) in
      let status : row.status ≡ dead = rw (last_status d.attempt_count max_attempts left) refl in
      let last : (send_delivery bus env i max_attempts db id).1 ≡ after =
        ap (λ (p : B SendDeliveryResult × Db). p.1) sends in
      (
        row,
        rw last read,
        status,
        left,
        (λ j. rw last (
            refused_dead bus env j max_attempts after id row read
              (plain_attempt i.sending_now i.finished_now max_attempts error d plain) status)),
      )
  failing-dies (suc n) db d found plain ready adapter left =
      let i = inputs (suc n) in
      let row = failed_attempt i.sending_now i.finished_now max_attempts error d in
      let (after, sends, read) =
        send-failed bus env t i max_attempts db id d error (quiet (suc n)) found plain ready adapter
          (fails d.destination d.payload d.message_key) in
      let next_of : (send_delivery bus env i max_attempts db id).1 ≡ after =
        ap (λ (p : B SendDeliveryResult × Db). p.1) sends in
      rw next_of (
        failing-dies n after row read
          (plain_attempt i.sending_now i.finished_now max_attempts error d plain)
          (rw (attempt_status d.attempt_count n max_attempts left) refl) adapter
          (omega (arith, left)))
