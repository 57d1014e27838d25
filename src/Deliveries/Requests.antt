-- ===== src/Deliveries/Requests.antt =====
-- What a reservation and a receipt of a channel message write (`reserve_channel_delivery` and
-- `finish_channel_delivery` of db.py).
use coordinate.Base.{
  ℕ, suc, String, ◌≡◌, refl, sym, subst, ap, ◌∙◌, Bool, true, false, Option, none, some, List, [],
  ◌∷◌, ◌++◌, arith, nat_dec_eq, string_dec_eq, ==_refl, Bool-cases, inl, inr, Result, ok, err,
  >>=-eq-ok, guard, guard-eq-ok, if◌then◌else◌,
}
use coordinate.Table.{find?, update, All, find?-update, find?-append_new}
use coordinate.Schema.{Db, Delivery, DeliveryStatus, pending, sending, sent, failed, dead}
use coordinate.Events.Log.{DbError, append_event}
use coordinate.Deliveries.Ledger.{
  has_id, has_message_key, delivery_row, create_delivery, get_delivery, is_channel_delivery,
  same_status,
}
use coordinate.Deliveries.Channel.{
  from_store, idempotency_conflict, Reservation, ReserveInput, ChannelDeliveryReservation,
  requested_event, channel_message, claimable, claimed_row, claim_delivery, reserve_fresh,
  in_flight, finished_row,
}
use coordinate.Deliveries.Moves.{
  fits, posted_once, IsBookkeeping, IsForward, insert, write, Moves, here, next,
}
use coordinate.Deliveries.Writes.{
  append_event-deliveries, create_delivery-IsCreation, new_posted, unchannelled,
}

pub from_store-eq-ok : {A : Type 0} (m : Result DbError A) (a : A) → from_store m ≡ ok a → m ≡ ok a
from_store-eq-ok (ok x) a h = ground arith
from_store-eq-ok (err x) a h = absurd (ground arith)

-- What a reservation that claims has found and written.
pub record Claim (key : String) (before after : List Delivery) (d : Delivery) : Type 0 where
  pub fresh : find? (has_message_key key) before ≡ none
  pub moves : Moves before after
  pub found : find? (has_message_key key) after ≡ some d
  pub first : d.attempt_count ≡ 1

still_posted :
    (x y : Delivery)
    → y.payload ≡ x.payload
    → (fits x.status x.attempt_count ≡ true → fits y.status y.attempt_count ≡ true)
    → posted_once x ≡ true
    → posted_once y ≡ true
unfolding is_channel_delivery
still_posted x y same step once = elim (Bool-cases (is_channel_delivery x)) [
  | inl e ↦ ground (arith, e, step (ground (arith, e)))
  | inr e ↦ unchannelled x y e same
]

claimed-fits :
    (s : DeliveryStatus) (n : ℕ)
    → same_status s pending ≡ true
    → fits s n ≡ true
    → fits sending (suc n) ≡ true
claimed-fits pending n e h = ground arith
claimed-fits sending n e h = absurd (ground arith)
claimed-fits sent n e h = absurd (ground arith)
claimed-fits failed n e h = absurd (ground arith)
claimed-fits dead n e h = absurd (ground arith)

finished-fits :
    (s : DeliveryStatus) (n : ℕ) (rejected : Bool)
    → same_status s sending ≡ true
    → fits s n ≡ true
    → fits (if rejected then dead else sent) n ≡ true
finished-fits sending n true e h = ground arith
finished-fits sending n false e h = ground arith
finished-fits pending n rejected e h = absurd (ground arith)
finished-fits sent n rejected e h = absurd (ground arith)
finished-fits failed n rejected e h = absurd (ground arith)
finished-fits dead n rejected e h = absurd (ground arith)

claim-IsForward :
    (now : ℕ) (id : String) (x : Delivery) → claimable id x ≡ true → IsForward x (claimed_row now x)
claim-IsForward now id x e = record {
  once =
      still_posted x (claimed_row now x) refl
        (claimed-fits x.status x.attempt_count (ground arith));
  attempts = omega arith;
}

pub finish-IsForward :
    (now : ℕ) (id : String) (message_id : Option String) (rejected : Bool) (x : Delivery)
    → in_flight id x ≡ true
    → IsForward x (finished_row now message_id rejected x)
finish-IsForward now id message_id rejected x e = record {
  once =
      still_posted x (finished_row now message_id rejected x) refl
        (finished-fits x.status x.attempt_count rejected (ground arith));
  attempts = omega arith;
}

pub every_row : (P : Delivery → Type 0) (rows : List Delivery) → ((x : Delivery) → P x) → All P rows
every_row P [] h = tt
every_row P (x ∷ rows) h = (h x, every_row P rows h)

claimed-IsBookkeeping : (now : ℕ) → IsBookkeeping (claimed_row now)
claimed-IsBookkeeping now = record {
  same_id = λ _. refl;
  same_key = λ _. refl;
  same_payload = λ _. refl;
}

claim_delivery-rows :
    (db : Db) (now : ℕ) (id : String) (r : ChannelDeliveryReservation) (after : Db)
    → claim_delivery db now id ≡ ok (r, after)
    → (after.deliveries ≡ update (claimable id) (claimed_row now) db.deliveries)
      × (find? (has_id id) after.deliveries ≡ some r.delivery)
unfolding claim_delivery get_delivery
claim_delivery-rows db now id r after h = (ground arith, ground arith)

the_same : {A : Type 0} {o : Option A} {a b : A} → o ≡ some a → o ≡ some b → a ≡ b
the_same e f = ground arith

-- The claim of the row that was just put behind the others.
claim_delivery-Claim :
    (rows : List Delivery) (written : Db) (row : Delivery) (now : ℕ)
    (r : ChannelDeliveryReservation) (after : Db)
    → written.deliveries ≡ rows ++ row ∷ []
    → find? (has_id row.id) rows ≡ none
    → find? (has_message_key row.message_key) rows ≡ none
    → posted_once row ≡ true
    → row.status ≡ pending
    → row.attempt_count ≡ 0
    → claim_delivery written now row.id ≡ ok (r, after)
    → Claim row.message_key rows after.deliveries r.delivery
claim_delivery-Claim rows written row now r after is new_id new_key once status zero h =
    let f = claimed_row now in
    let q = claimable row.id in
    let (updated_rows, read) = claim_delivery-rows written now row.id r after h in
    let kept : after.deliveries ≡ update q f (rows ++ row ∷ []) =
      updated_rows ∙ ap (update q f) is in
    let mine : q row ≡ true = ground (arith, ==_refl row.id, status) in
    let by_id : find? (has_id row.id) (update q f (rows ++ row ∷ [])) ≡ some (f row) = ground (
      arith,
      mine,
      find?-append_new (has_id row.id) rows row new_id (==_refl row.id),
      find?-update (has_id row.id) q f (rows ++ row ∷ []) (λ _. refl),
    ) in
    let by_key : find? (has_message_key row.message_key) (update q f (rows ++ row ∷ []))
        ≡ some (f row) =
      ground (
        arith,
        mine,
        find?-append_new (has_message_key row.message_key) rows row new_key
            (==_refl row.message_key),
        find?-update (has_message_key row.message_key) q f (rows ++ row ∷ []) (λ _. refl),
      ) in
    let same : r.delivery ≡ f row = the_same (sym (ap (find? (has_id row.id)) kept) ∙ read) by_id in
    record {
      fresh = new_key;
      moves = next (next here (insert row new_id new_key once refl)) (
          write q f (claimed-IsBookkeeping now)
            (every_row (λ x. q x ≡ true → IsForward x (f x)) (rows ++ row ∷ [])
              (λ x. claim-IsForward now row.id x))
            kept);
      found = ap (find? (has_message_key row.message_key)) kept ∙ by_key ∙ ap some (sym same);
      first = ap (λ (d : Delivery). d.attempt_count) same ∙ ap suc zero;
    }

-- A fresh reservation that succeeds has claimed its message.
pub reserve_fresh-Claim :
    (db : Db) (i : ReserveInput) (q : Reservation) (r : ChannelDeliveryReservation) (after : Db)
    → reserve_fresh db i q ≡ ok (r, after)
    → Claim q.message_key db.deliveries after.deliveries r.delivery
unfolding reserve_fresh
reserve_fresh-Claim db i q r after h =
    let ((audit, logged), appended, h₁) =
      >>=-eq-ok (from_store (append_event db i.event_now i.event_id (requested_event q))) _ h in
    let (_, _, h₂) = >>=-eq-ok (guard audit.created idempotency_conflict) _ h₁ in
    let (((row, created), written), made, h₃) =
      >>=-eq-ok
        (from_store
          (create_delivery logged i.delivery_now i.delivery_id (channel_message q audit.row.id)))
        _ h₂ in
    let (_, fresh, h₄) = >>=-eq-ok (guard created idempotency_conflict) _ h₃ in
    written_claim db logged written i q audit.row.id row created r after
      (append_event-deliveries db i.event_now i.event_id (requested_event q) audit logged (
        from_store-eq-ok (append_event db i.event_now i.event_id (requested_event q))
          (audit, logged) appended))
      (from_store-eq-ok
        (create_delivery logged i.delivery_now i.delivery_id (channel_message q audit.row.id))
        ((row, created), written) made)
      (guard-eq-ok created idempotency_conflict fresh) h₄
  where
    written_claim :
        (db logged written : Db) (i : ReserveInput) (q : Reservation) (event_id : String)
        (row : Delivery) (created : Bool) (r : ChannelDeliveryReservation) (after : Db)
        → logged.deliveries ≡ db.deliveries
        → create_delivery logged i.delivery_now i.delivery_id (channel_message q event_id)
          ≡ ok ((row, created), written)
        → created ≡ true
        → claim_delivery written i.claim_now row.id ≡ ok (r, after)
        → Claim q.message_key db.deliveries after.deliveries r.delivery
    written_claim db logged written i q event_id row created r after same made fresh h =
        elim (create_delivery-IsCreation logged i.delivery_now i.delivery_id
          (channel_message q event_id) row created written made) [
            | inl (free, is, _, rows) ↦
                let d = delivery_row i.delivery_now i.delivery_id (channel_message q event_id) in
                claim_delivery-Claim db.deliveries written d i.claim_now r after
                  (ap (λ (x : Db). x.deliveries) rows
                    ∙ ap (λ (xs : List Delivery). xs ++ d ∷ []) same)
                  (subst (λ (xs : List Delivery). find? (has_id d.id) xs ≡ none) same
                    (ground arith))
                  (subst (λ (xs : List Delivery). find? (has_message_key d.message_key) xs ≡ none)
                    same (ground arith))
                  (new_posted i.delivery_now i.delivery_id (channel_message q event_id)) refl refl
                  (ap (claim_delivery written i.claim_now) (ap (λ (x : Delivery). x.id) (sym is))
                    ∙ h)
            | inr (_, old, _) ↦ absurd (ground arith)
          ]
