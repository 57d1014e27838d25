-- ===== src/Deliveries/Writes.antt =====
-- What each call writes to the delivery table, as a move of its rows.
use coordinate.Base.{
  ℕ, ◌+◌, ◌≤◌, String, ◌≡◌, refl, sym, subst, ap, Bool, true, false, some, List, [], ◌∷◌, ◌++◌,
  arith, nat_dec_eq, string_dec_eq, Bool-cases, inl, inr, ◌⊎◌, ok, >>=-eq-ok, if◌then◌else◌,
}
use coordinate.Table.{find?, update, count_where, All, only_row}
use coordinate.Schema.{Db, Delivery}
use coordinate.Events.Log.{NewEvent, AppendEventResult, append_event}
use coordinate.Events.Idempotency.{append_event-cases}
use coordinate.Deliveries.Ledger.{
  NewDelivery, has_id, has_message_key, delivery_row, deliverable, create_delivery, prior_delivery,
  known_event, get_delivery, is_channel_delivery, mark_delivery_sending, sending_row, marked,
}
use coordinate.Deliveries.Moves.{
  posted_once, IsBookkeeping, IsForward, Move, stay, insert, write, IsOneShot,
}

pub append_event-deliveries :
    (db : Db) (now : ℕ) (id : String) (e : NewEvent) (r : AppendEventResult) (after : Db)
    → append_event db now id e ≡ ok (r, after)
    → after.deliveries ≡ db.deliveries
append_event-deliveries db now id e r after h = elim (append_event-cases db now id e r after h) [
  | inl (_, _, rows) ↦ ap (λ (d : Db). d.deliveries) rows
  | inr (_, _, same) ↦ ap (λ (d : Db). d.deliveries) same
]

-- The call put its row behind the others, or found the row of the key.
abbrev pub IsCreation : Db → Delivery → Delivery → Bool → Db → Type 0
IsCreation db row d fresh after =
    ((deliverable db row ≡ true)
      × (d ≡ row)
      × (fresh ≡ true)
      × (after ≡ record db { deliveries = db.deliveries ++ row ∷ [] }))
    ⊎ ((find? (has_message_key row.message_key) db.deliveries ≡ some d)
        × (fresh ≡ false)
        × (after ≡ db))

inserted-IsCreation :
    (db : Db) (row d : Delivery) (fresh : Bool) (after : Db)
    → (if deliverable db row
        then ok ((row, true), record db { deliveries = db.deliveries ++ row ∷ [] })
        else prior_delivery db (find? (has_message_key row.message_key) db.deliveries))
      ≡ ok ((d, fresh), after)
    → IsCreation db row d fresh after
inserted-IsCreation db row d fresh after h = ground arith

pub create_delivery-IsCreation :
    (db : Db) (now : ℕ) (id : String) (n : NewDelivery) (d : Delivery) (fresh : Bool) (after : Db)
    → create_delivery db now id n ≡ ok ((d, fresh), after)
    → IsCreation db (delivery_row now id n) d fresh after
unfolding create_delivery
create_delivery-IsCreation db now id n d fresh after h =
    let (_, _, rest) = >>=-eq-ok (known_event db n.event_id) _ h in
    inserted-IsCreation db (delivery_row now id n) d fresh after rest

pub unchannelled :
    (x y : Delivery) → is_channel_delivery x ≡ false → y.payload ≡ x.payload → posted_once y ≡ true
unfolding is_channel_delivery
unchannelled x y plain same = ground arith

-- Every row with the id is a plain delivery.
abbrev pub IsPlain : String → List Delivery → Type 0
IsPlain id rows = All (λ d. has_id id d ≡ true → is_channel_delivery d ≡ false) rows

-- A write by id on a plain delivery.
pub plain-Move :
    (id : String) (f : Delivery → Delivery) (rows : List Delivery)
    → IsBookkeeping f
    → IsPlain id rows
    → All (λ x. has_id id x ≡ true → x.attempt_count ≤ (f x).attempt_count) rows
    → Move rows (update (has_id id) f rows)
plain-Move id f rows b plain attempts = write (has_id id) f b (each rows plain attempts) refl
  where
    each :
        (zs : List Delivery)
        → IsPlain id zs
        → All (λ x. has_id id x ≡ true → x.attempt_count ≤ (f x).attempt_count) zs
        → All (λ x. has_id id x ≡ true → IsForward x (f x)) zs
    each [] p a = tt
    each (z ∷ zs) p a = (
      (λ e. record {
        once = λ _. unchannelled z (f z) (p.0 e) (b.same_payload z);
        attempts = a.0 e;
      }),
      each zs p.1 a.1,
    )

pub new_posted :
    (now : ℕ) (id : String) (n : NewDelivery) → posted_once (delivery_row now id n) ≡ true
unfolding is_channel_delivery
new_posted now id n = elim (Bool-cases (is_channel_delivery (delivery_row now id n))) [
  | inl e ↦ ground (arith, e)
  | inr e ↦ ground (arith, e)
]

pub create_delivery-Move :
    (db : Db) (now : ℕ) (id : String) (n : NewDelivery) (r : Delivery × Bool) (after : Db)
    → create_delivery db now id n ≡ ok (r, after)
    → Move db.deliveries after.deliveries
create_delivery-Move db now id n (d, fresh) after h =
    elim (create_delivery-IsCreation db now id n d fresh after h) [
      | inl (free, _, _, is) ↦
          insert (delivery_row now id n) (ground arith) (ground arith) (new_posted now id n)
            (ap (λ (x : Db). x.deliveries) is)
      | inr (_, _, same) ↦ stay (ap (λ (x : Db). x.deliveries) same)
    ]

-- The row found by a unique id decides for all rows with the id.
pub found-IsPlain :
    (id : String) (rows : List Delivery) (d : Delivery)
    → count_where (has_id id) rows ≤ 1
    → find? (has_id id) rows ≡ some d
    → is_channel_delivery d ≡ false
    → IsPlain id rows
found-IsPlain id rows d one found plain = every rows (only_row (has_id id) rows d one found)
  where
    every : (zs : List Delivery) → All (λ y. has_id id y ≡ true → y ≡ d) zs → IsPlain id zs
    every [] h = tt
    every (z ∷ zs) h =
        ((λ e. subst (λ x. is_channel_delivery x ≡ false) (sym (h.0 e)) plain), every zs h.1)

pub get_delivery-eq-ok :
    (db : Db) (id : String) (d : Delivery)
    → get_delivery db id ≡ ok d
    → find? (has_id id) db.deliveries ≡ some d
unfolding get_delivery
get_delivery-eq-ok db id d h = ground arith

marked-rows :
    (db : Db) (id : String) (f : Delivery → Delivery) (row : Delivery) (after : Db)
    → marked db id f ≡ ok (row, after)
    → after.deliveries ≡ update (has_id id) f db.deliveries
unfolding get_delivery
marked-rows db id f row after h = ground arith

pub mark_delivery_sending-Move :
    (db : Db) (now : ℕ) (id : String) (d row : Delivery) (after : Db)
    → IsOneShot db.deliveries
    → get_delivery db id ≡ ok d
    → is_channel_delivery d ≡ false
    → mark_delivery_sending db now id ≡ ok (row, after)
    → Move db.deliveries after.deliveries
unfolding mark_delivery_sending
mark_delivery_sending-Move db now id d row after one found plain h =
    let there = get_delivery-eq-ok db id d found in
    let f = sending_row now (d.attempt_count + 1) in
    let (x, again, rest) = >>=-eq-ok (get_delivery db id) _ h in
    let same : x ≡ d = ground arith in
    let rows = marked-rows db id (sending_row now (x.attempt_count + 1)) row after rest in
    subst (Move db.deliveries)
      (sym (
        subst
          (λ (y : Delivery).
            after.deliveries
            ≡ update (has_id id) (sending_row now (y.attempt_count + 1)) db.deliveries)
          same rows))
      (plain-Move id f db.deliveries
        (record { same_id = λ _. refl; same_key = λ _. refl; same_payload = λ _. refl })
        (found-IsPlain id db.deliveries d (one.one_id id) there plain)
        (counted now id d db.deliveries
          (only_row (has_id id) db.deliveries d (one.one_id id) there)))
  where
    counted :
        (now : ℕ) (id : String) (d : Delivery) (zs : List Delivery)
        → All (λ y. has_id id y ≡ true → y ≡ d) zs
        → All
            (λ x.
              has_id id x ≡ true
              → x.attempt_count ≤ (sending_row now (d.attempt_count + 1) x).attempt_count)
            zs
    counted now id d [] h = tt
    counted now id d (z ∷ zs) h = (
      (λ e.
          let same : z.attempt_count ≡ d.attempt_count =
            ap (λ (x : Delivery). x.attempt_count) (h.0 e) in
          omega (arith, same)),
      counted now id d zs h.1,
    )

kept_attempts :
    (id : String) (f : Delivery → Delivery) (rows : List Delivery)
    → ((x : Delivery) → (f x).attempt_count ≡ x.attempt_count)
    → All (λ x. has_id id x ≡ true → x.attempt_count ≤ (f x).attempt_count) rows
kept_attempts id f [] same = tt
kept_attempts id f (x ∷ rows) same = ((λ _. omega (arith, same x)), kept_attempts id f rows same)

-- A mark of a plain delivery that counts no attempt.
pub marked-Move :
    (db : Db) (id : String) (f : Delivery → Delivery) (d row : Delivery) (after : Db)
    → IsBookkeeping f
    → ((x : Delivery) → (f x).attempt_count ≡ x.attempt_count)
    → IsOneShot db.deliveries
    → get_delivery db id ≡ ok d
    → is_channel_delivery d ≡ false
    → marked db id f ≡ ok (row, after)
    → Move db.deliveries after.deliveries
marked-Move db id f d row after b same one found plain h =
    subst (Move db.deliveries) (sym (marked-rows db id f row after h)) (
      plain-Move id f db.deliveries b
        (found-IsPlain id db.deliveries d (one.one_id id) (get_delivery-eq-ok db id d found) plain)
        (kept_attempts id f db.deliveries same))
