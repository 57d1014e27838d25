-- ===== src/Deliveries/Once.antt =====
-- A message key is posted at most once, whatever the connections do in between.
use coordinate.Base.{
  ℕ, ◌≤◌, ◌≡◌, refl, sym, subst, ap, ◌∙◌, true, false, Option, none, some, arith, nat_dec_eq,
  string_dec_eq, inl, inr, ok, >>=-eq-ok, ◌⊎◌, guard,
}
use coordinate.Table.{find?, All-find?}
use coordinate.Schema.{Db, Delivery, DeliveryStatus, pending, sending, sent, failed, dead}
use coordinate.Resources.{Platform}
use coordinate.Channels.Names.{resolve_channel_workspace}
use coordinate.Deliveries.Bus.{is_retryable}
use coordinate.Deliveries.Ledger.{
  has_message_key, is_channel_delivery, sent_row, failed_row, mark_delivery_sent,
  mark_delivery_failed,
}
use coordinate.Deliveries.Channel.{
  Reservation, ReserveInput, ChannelDeliveryReservation, inspect_channel_delivery,
  reserve_channel_delivery, reserve_fresh, replay_or, strict_replay, from_channel, allows,
  forbidden,
}
use coordinate.Deliveries.Moves.{
  fits, posted_once, stay, Moves, here, next, Moves-then, IsOneShot, Moves-IsOneShot, Successor,
  Moves-Successor, has_message_key-IsColumn,
}
use coordinate.Deliveries.Writes.{create_delivery-Move, mark_delivery_sending-Move, marked-Move}
use coordinate.Deliveries.Recovery.{recover-Moves}
use coordinate.Deliveries.Requests.{Claim, reserve_fresh-Claim}
use coordinate.Deliveries.Receipts.{finish_channel_delivery-Move}
use coordinate.Deliveries.Steps.{
  Step, elsewhere, created, marked_sending, marked_sent, marked_failed, recovered, reserved,
  finished, Steps, start, onward,
}

strict_replay-row :
    (q : Reservation) (o prior : Option Delivery)
    → strict_replay q o ≡ ok prior
    → (o ≡ prior) × ((d : Delivery) → prior ≡ some d → is_channel_delivery d ≡ true)
unfolding is_channel_delivery
strict_replay-row q none prior h = (ground arith, (λ d e. absurd (ground arith)))
strict_replay-row q (some x) prior h = (ground arith, (λ d e. ground arith))

channel_fits :
    (d : Delivery)
    → is_channel_delivery d ≡ true
    → posted_once d ≡ true
    → fits d.status d.attempt_count ≡ true
unfolding is_channel_delivery
channel_fits d channel once = ground arith

module _ (lib : Platform) where
  inspected_row :
      (db : Db) (q : Reservation) (prior : Option Delivery)
      → inspect_channel_delivery lib db q ≡ ok prior
      → (find? (has_message_key q.message_key) db.deliveries ≡ prior)
        × ((d : Delivery) → prior ≡ some d → is_channel_delivery d ≡ true)
  unfolding inspect_channel_delivery
  inspected_row db q prior h =
      let (binding, _, h₁) =
        >>=-eq-ok (from_channel (resolve_channel_workspace lib db q.platform q.channel_id)) _ h in
      let (_, _, h₂) = >>=-eq-ok (guard (allows q.workspace_id binding) forbidden) _ h₁ in
      strict_replay-row q (find? (has_message_key q.message_key) db.deliveries) prior h₂

  -- A successful reservation claims a message for which there was no row, or reads the row.
  reserve-cases :
      (db : Db) (i : ReserveInput) (q : Reservation) (r : ChannelDeliveryReservation) (after : Db)
      → reserve_channel_delivery lib db i q ≡ ok (r, after)
      → Claim q.message_key db.deliveries after.deliveries r.delivery
        ⊎ ((r.claimed ≡ false)
            × (after ≡ db)
            × (find? (has_message_key q.message_key) db.deliveries ≡ some r.delivery)
            × (is_channel_delivery r.delivery ≡ true))
  unfolding reserve_channel_delivery
  reserve-cases db i q r after h =
      let (prior, inspected, rest) = >>=-eq-ok (inspect_channel_delivery lib db q) _ h in
      let (row, channel) = inspected_row db q prior inspected in answered prior row channel rest
    where
      answered :
          (prior : Option Delivery)
          → find? (has_message_key q.message_key) db.deliveries ≡ prior
          → ((d : Delivery) → prior ≡ some d → is_channel_delivery d ≡ true)
          → replay_or (reserve_fresh db i q) db prior ≡ ok (r, after)
          → Claim q.message_key db.deliveries after.deliveries r.delivery
            ⊎ ((r.claimed ≡ false)
                × (after ≡ db)
                × (find? (has_message_key q.message_key) db.deliveries ≡ some r.delivery)
                × (is_channel_delivery r.delivery ≡ true))
      answered none row channel rest = inl (reserve_fresh-Claim db i q r after rest)
      answered (some d) row channel rest =
          let same : d ≡ r.delivery = ground arith in
          inr (ground arith, ground arith, row ∙ ap some same, channel r.delivery (ap some same))

  Step-Moves :
      {db after : Db}
      → IsOneShot db.deliveries
      → Step lib db after
      → Moves db.deliveries after.deliveries
  unfolding mark_delivery_sent mark_delivery_failed
  Step-Moves one (elsewhere same) = next here (stay same)
  Step-Moves {db} {after} one (created now id n r h) =
      next here (create_delivery-Move db now id n r after h)
  Step-Moves {db} {after} one (marked_sending now id d row found plain h) =
      next here (mark_delivery_sending-Move db now id d row after one found plain h)
  Step-Moves {db} {after} one (marked_sent now id message_id d row found plain h) = next here (
      marked-Move db id (sent_row now message_id) d row after
        (record { same_id = λ _. refl; same_key = λ _. refl; same_payload = λ _. refl }) (λ _. refl)
        one found plain h)
  Step-Moves {db} {after} one (marked_failed now id error is_dead d row found plain h) = next here (
      marked-Move db id (failed_row now error is_dead) d row after
        (record { same_id = λ _. refl; same_key = λ _. refl; same_payload = λ _. refl }) (λ _. refl)
        one found plain h)
  Step-Moves {db} {after} one (recovered now platform reason rows h) =
      recover-Moves db now platform reason rows after one h
  Step-Moves {db} {after} one (reserved i q r h) = elim (reserve-cases db i q r after h) [
    | inl claim ↦ claim.moves
    | inr (_, same, _, _) ↦ next here (stay (ap (λ (x : Db). x.deliveries) same))
  ]
  Step-Moves {db} {after} one (finished i id message_id rejected d h) =
      next here (finish_channel_delivery-Move db i id message_id rejected d after h)

  pub Steps-Moves :
      {db after : Db}
      → IsOneShot db.deliveries
      → Steps lib db after
      → Moves db.deliveries after.deliveries
  Steps-Moves one start = here
  Steps-Moves one (onward before last) =
      let first = Steps-Moves one before in
      Moves-then first (Step-Moves (Moves-IsOneShot first one) last)

  once_attempted :
      (s : DeliveryStatus) (n : ℕ) → fits s n ≡ true → 1 ≤ n → (n ≡ 1) × (is_retryable s ≡ false)
  once_attempted pending n h le = absurd (ground arith)
  once_attempted failed n h le = absurd (ground arith)
  once_attempted sending n h le = (ground arith, refl)
  once_attempted sent n h le = (ground arith, refl)
  once_attempted dead n h le = (ground arith, refl)

  replayed_row :
      (db later final : Db) (i' : ReserveInput) (q' : Reservation)
      (r r' : ChannelDeliveryReservation) (e : Delivery)
      → IsOneShot later.deliveries
      → r.delivery.attempt_count ≡ 1
      → find? (has_message_key q'.message_key) later.deliveries ≡ some e
      → Successor r.delivery e
      → Claim q'.message_key later.deliveries final.deliveries r'.delivery
        ⊎ ((r'.claimed ≡ false)
            × (final ≡ later)
            × (find? (has_message_key q'.message_key) later.deliveries ≡ some r'.delivery)
            × (is_channel_delivery r'.delivery ≡ true))
      → (r'.claimed ≡ false)
        × (final ≡ later)
        × (r'.delivery.id ≡ r.delivery.id)
        × (r'.delivery.attempt_count ≡ 1)
        × (is_retryable r'.delivery.status ≡ false)
  replayed_row db later final i' q' r r' e one first found succ (inl claim) =
      absurd (cc (found, claim.fresh))
  replayed_row db later final i' q' r r' e one first found succ
        (inr (replay, same, read, channel)) =
      let row : e ≡ r'.delivery = ground arith in
      let posted =
        All-find? (λ d. posted_once d ≡ true) (has_message_key q'.message_key) later.deliveries
          one.posted read in
      let (attempts, status) =
        once_attempted r'.delivery.status r'.delivery.attempt_count
          (channel_fits r'.delivery channel posted)
          (subst (λ (d : Delivery). 1 ≤ d.attempt_count) row
            (omega (arith, succ.attempts, first))) in
      (replay, same, ap (λ (d : Delivery). d.id) (sym row) ∙ succ.same_id, attempts, status)

  -- On an outbox where every channel message is posted at most once, a reservation that claims its
  -- message key is the only one that ever does: after any transactions of other connections, a
  -- successful reservation of the same key is not claimed, writes nothing, and reads the row of the
  -- first, still with one attempt and in no status that a send starts from.
  pub reserve_once :
      (db after later final : Db) (i i' : ReserveInput) (q q' : Reservation)
      (r r' : ChannelDeliveryReservation)
      → IsOneShot db.deliveries
      → reserve_channel_delivery lib db i q ≡ ok (r, after)
      → r.claimed ≡ true
      → Steps lib after later
      → reserve_channel_delivery lib later i' q' ≡ ok (r', final)
      → q'.message_key ≡ q.message_key
      → (r'.claimed ≡ false)
        × (final ≡ later)
        × (r'.delivery.id ≡ r.delivery.id)
        × (r'.delivery.attempt_count ≡ 1)
        × (is_retryable r'.delivery.status ≡ false)
  reserve_once db after later final i i' q q' r r' one h claimed steps h' key =
      elim (reserve-cases db i q r after h) [
        | inr (not_claimed, _, _, _) ↦ absurd (ground arith)
        | inl claim ↦
            let one₁ = Moves-IsOneShot claim.moves one in
            let moves = Steps-Moves one₁ steps in
            let (e, found, next_of) =
              Moves-Successor (has_message_key q.message_key)
                (has_message_key-IsColumn q.message_key) moves claim.found in
            let found' : find? (has_message_key q'.message_key) later.deliveries ≡ some e =
              subst (λ k. find? (has_message_key k) later.deliveries ≡ some e) (sym key) found in
            replayed_row db later final i' q' r r' e (Moves-IsOneShot moves one₁) claim.first found'
              next_of (reserve-cases later i' q' r' final h')
      ]

  -- Every transaction on the outbox keeps the ids and the message keys of the deliveries unique and
  -- every channel message posted at most once.
  pub Steps-IsOneShot :
      (db after : Db) → IsOneShot db.deliveries → Steps lib db after → IsOneShot after.deliveries
  Steps-IsOneShot db after one steps = Moves-IsOneShot (Steps-Moves one steps) one
