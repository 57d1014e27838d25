-- ===== src/Deliveries/Figures.antt =====
-- The figures of a pump (`pump_deliveries` of bus.py).
use coordinate.Base.{
  ℕ, String, ◌≡◌, refl, subst, ap, Bool, true, false, not, ◌||◌, Option, some, arith, leb, ◌==◌,
  string_dec_eq, Bool-cases, Option-cases, inl, inr, Result, ok, err,
}
use coordinate.Table.{find?, update, find?-update, find?-holds}
use coordinate.Schema.{Db, Delivery, sent, failed, dead}
use coordinate.Events.Log.{DbError}
use coordinate.Deliveries.Ledger.{
  has_id, get_delivery, is_channel_delivery, marked, sent_row, failed_row, mark_delivery_sending,
  mark_delivery_sent, mark_delivery_failed, same_status,
}
use coordinate.Deliveries.Bus.{
  Transport, Buses, SendInput, SendDeliveryResult, B, send_result, settle, post, post_by,
  checked_send, adapter_for, is_retryable, send_delivery,
}

abbrev pub is_sent : Delivery → Bool
is_sent d = same_status d.status sent

abbrev pub is_refused : Delivery → Bool
is_refused d = same_status d.status failed || same_status d.status dead

-- The flag of a result is what its row says.
abbrev pub Agrees : SendDeliveryResult → Type 0
Agrees r = (is_sent r.delivery ≡ r.sent) × (is_refused r.delivery ≡ not r.sent)

marked-written :
    (db : Db) (id : String) (f : Delivery → Delivery) (row : Delivery) (after : Db)
    → ((x : Delivery) → (f x).id ≡ x.id)
    → marked db id f ≡ ok (row, after)
    → (d : Delivery) × (row ≡ f d)
unfolding get_delivery
marked-written db id f row after same h =
    let read : find? (has_id id) (update (has_id id) f db.deliveries) ≡ some row = ground arith in
    let moved =
      find?-update (has_id id) (has_id id) f db.deliveries (λ x. ap (λ j. j == id) (same x)) in
    elim (Option-cases (find? (has_id id) db.deliveries)) [
      | inl gone ↦ absurd (ground arith)
      | inr (d, found) ↦ (d, ground (arith, find?-holds (has_id id) db.deliveries d found))
    ]

sent-Agrees :
    (db : Db) (m : Result DbError (Delivery × Db)) (r : SendDeliveryResult) (after : Db)
    → ((row : Delivery) (x : Db) → m ≡ ok (row, x) → is_sent row ≡ true)
    → ((row : Delivery) (x : Db) → m ≡ ok (row, x) → is_refused row ≡ false)
    → send_result true db m ≡ (ok r, after)
    → Agrees r
sent-Agrees db (ok (row, x)) r after yes_ no_ h =
    subst Agrees {x = record { delivery = row; sent = true }} {y = r} (ground arith)
      (yes_ row x refl, no_ row x refl)
sent-Agrees db (err e) r after yes_ no_ h = absurd (ground arith)

refused-Agrees :
    (db : Db) (m : Result DbError (Delivery × Db)) (r : SendDeliveryResult) (after : Db)
    → ((row : Delivery) (x : Db) → m ≡ ok (row, x) → is_sent row ≡ false)
    → ((row : Delivery) (x : Db) → m ≡ ok (row, x) → is_refused row ≡ true)
    → send_result false db m ≡ (ok r, after)
    → Agrees r
refused-Agrees db (ok (row, x)) r after no_ yes_ h =
    subst Agrees {x = record { delivery = row; sent = false }} {y = r} (ground arith)
      (no_ row x refl, yes_ row x refl)
refused-Agrees db (err e) r after no_ yes_ h = absurd (ground arith)

sent_row-flags :
    (now : ℕ) (m : String) (d row : Delivery)
    → row ≡ sent_row now m d
    → (is_sent row ≡ true) × (is_refused row ≡ false)
sent_row-flags now m d row e = (ap is_sent e, ap is_refused e)

failed_row-flags :
    (now : ℕ) (error : String) (is_dead : Bool) (d row : Delivery)
    → row ≡ failed_row now error is_dead d
    → (is_sent row ≡ false) × (is_refused row ≡ true)
failed_row-flags now error true d row e = (ap is_sent e, ap is_refused e)
failed_row-flags now error false d row e = (ap is_sent e, ap is_refused e)

settle-Agrees :
    (db : Db) (now max_attempts : ℕ) (id : String) (d : Delivery) (answer : Result String String)
    (r : SendDeliveryResult) (after : Db)
    → settle db now max_attempts id d answer ≡ (ok r, after)
    → Agrees r
unfolding settle mark_delivery_sent mark_delivery_failed
settle-Agrees db now max_attempts id d (ok m) r after h =
    sent-Agrees db (mark_delivery_sent db now id m) r after (λ row x e. (flags row x e).0)
      (λ row x e. (flags row x e).1) h
  where
    flags :
        (row : Delivery) (x : Db)
        → mark_delivery_sent db now id m ≡ ok (row, x)
        → (is_sent row ≡ true) × (is_refused row ≡ false)
    flags row x e =
        let (y, is) = marked-written db id (sent_row now m) row x (λ _. refl) e in
        sent_row-flags now m y row is
settle-Agrees db now max_attempts id d (err m) r after h =
    refused-Agrees db (mark_delivery_failed db now id m (leb max_attempts d.attempt_count)) r after
      (λ row x e. (flags row x e).0) (λ row x e. (flags row x e).1) h
  where
    flags :
        (row : Delivery) (x : Db)
        → mark_delivery_failed db now id m (leb max_attempts d.attempt_count) ≡ ok (row, x)
        → (is_sent row ≡ false) × (is_refused row ≡ true)
    flags row x e =
        let (y, is) =
          marked-written db id (failed_row now m (leb max_attempts d.attempt_count)) row x
            (λ _. refl) e in
        failed_row-flags now m (leb max_attempts d.attempt_count) y row is

post-Agrees :
    (t : Transport) (i : SendInput) (max_attempts : ℕ) (db : Db) (id : String)
    (m : Result DbError (Delivery × Db)) (r : SendDeliveryResult) (after : Db)
    → post t i max_attempts db id m ≡ (ok r, after)
    → Agrees r
unfolding settle
post-Agrees t i max_attempts db id (ok (d, x)) r after h =
    settle-Agrees (i.meanwhile x) i.finished_now max_attempts id d
      (t d.destination d.payload d.message_key) r after h
post-Agrees t i max_attempts db id (err e) r after h = absurd (ground arith)

post_by-Agrees :
    (i : SendInput) (max_attempts : ℕ) (db : Db) (id : String) (m : B Transport)
    (r : SendDeliveryResult) (after : Db)
    → post_by i max_attempts db id m ≡ (ok r, after)
    → Agrees r
post_by-Agrees i max_attempts db id (ok t) r after h =
    post-Agrees t i max_attempts db id (mark_delivery_sending db i.sending_now id) r after h
post_by-Agrees i max_attempts db id (err e) r after h = absurd (ground arith)

checked-Agrees :
    (bus : Option Transport) (env : Buses) (i : SendInput) (max_attempts : ℕ) (db : Db)
    (id : String) (found : Result DbError Delivery) (r : SendDeliveryResult) (after : Db)
    → checked_send bus env i max_attempts db id found ≡ (ok r, after)
    → Agrees r
unfolding is_channel_delivery
checked-Agrees bus env i max_attempts db id (err e) r after h = absurd (ground arith)
checked-Agrees bus env i max_attempts db id (ok d) r after h =
    elim (Bool-cases (is_channel_delivery d)) [
      | inl channel ↦ absurd (ground (arith, channel))
      | inr plain ↦ elim (Bool-cases (is_retryable d.status)) [
        | inr idle ↦ absurd (ground (arith, plain, idle))
        | inl ready ↦
            post_by-Agrees i max_attempts db id (adapter_for bus env d.platform) r after
              (ground (arith, plain, ready))
      ]
    ]

pub send_delivery-Agrees :
    (bus : Option Transport) (env : Buses) (i : SendInput) (max_attempts : ℕ) (db : Db)
    (id : String) (r : SendDeliveryResult) (after : Db)
    → send_delivery bus env i max_attempts db id ≡ (ok r, after)
    → Agrees r
unfolding send_delivery
send_delivery-Agrees bus env i max_attempts db id r after h =
    checked-Agrees bus env i max_attempts db id (get_delivery db id) r after h
