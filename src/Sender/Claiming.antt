-- ===== src/Sender/Claiming.antt =====
-- A send that calls the bus has claimed its message (`ChannelSender.send` of channel_delivery.py).
use coordinate.Base.{
  String, ◌≡◌, refl, sym, subst, ◌⊎◌, [], ◌∷◌, Bool, true, false, Option, none, some, Bool-cases,
  inl, inr, ok, err, ◌>>=◌, ◌>>◌,
}
use coordinate.Json.{Json}
use coordinate.Schema.{Db, Delivery}
use coordinate.Resources.{Platform}
use coordinate.Deliveries.Channel.{
  C, ChannelIoError, Reservation, ReserveInput, ChannelDeliveryReservation,
  reserve_channel_delivery, finish_channel_delivery,
}
use coordinate.Deliveries.Steps.{Steps, start, onward, reserved, finished}
use coordinate.Deliveries.Sends.{Steps-append}
use coordinate.Sender.Input.{
  R, SendInput, Principal, parse_input, authorize, message_key_of, fingerprint_of, is_snowflake,
}
use coordinate.Sender.Receipt.{Reply}
use coordinate.Sender.Send.{
  Services, SendTimes, Sent, BusCall, silent, Context, BusAnswer, accepted, refused, broken,
  is_message_id, reservation_of, inspect, stored, answered, post_reserved, conflicted,
  by_reservation, by_reply, by_context, by_replay, by_channel, by_legacy, legacy_of, by_authority,
  by_input, validate_reply, send,
}

module _ (s : Services) (lib : Platform) where
  stored-Steps :
      (db : Db) (t : SendTimes) (row : Delivery) (p : Principal) (id : Option String)
      (rejected : Bool) (m : C (Delivery × Db))
      → finish_channel_delivery db t.finishing row.id id rejected ≡ m
      → Steps lib db (stored s lib db row p m).1
  stored-Steps db t row p id rejected (ok (saved, after)) h =
      onward start (finished t.finishing row.id id rejected saved h)
  stored-Steps db t row p id rejected (err e) h = start

  answered-Steps :
      (db : Db) (t : SendTimes) (row : Delivery) (p : Principal) (a : BusAnswer)
      → Steps lib db (answered s lib db t row p a).1
  unfolding is_snowflake finish_channel_delivery
  answered-Steps db t row p (accepted id) = elim (Bool-cases (is_message_id id)) [
    | inl e ↦ rw e (
        stored-Steps db t row p (some id) false
          (finish_channel_delivery db t.finishing row.id (some id) false) refl)
    | inr e ↦ rw e start
  ]
  answered-Steps db t row p refused =
      stored-Steps db t row p none true (finish_channel_delivery db t.finishing row.id none true)
        refl
  answered-Steps db t row p broken = start

  -- What a send that called the bus did before: it claimed its message, and called with it once.
  pub record Posted (mid : Db) (q : SendInput) (p : Principal) (o : Sent) : Type 0 where
    pub input : ReserveInput
    pub request : Reservation
    pub reservation : ChannelDeliveryReservation
    pub call : BusCall
    pub key : request.message_key ≡ message_key_of s.sha q p.actor
    pub reserves : reserve_channel_delivery lib mid input request ≡ ok (reservation, call.seen)
    pub claimed : reservation.claimed ≡ true
    pub once : o.calls ≡ call ∷ []

  module _ (t : SendTimes) where
    -- A send is a sequence of transactions, if what the others do is, and it calls the bus not at
    -- all or for a message that it claimed.
    pub record Outcome (db : Db) (q : SendInput) (p : Principal) (o : Sent) : Type 0 where
      pub steps :
          ((x : Db) → Steps lib x (t.before_reserve x))
          → ((x : Db) → Steps lib x (t.during_post x))
          → Steps lib db o.db
      pub calls : (o.calls ≡ []) ⊎ Posted (t.before_reserve db) q p o

    silent-Outcome :
        (db : Db) (q : SendInput) (p : Principal) (reply : Reply) → Outcome db q p (silent reply db)
    silent-Outcome db q p reply = record { steps = λ _ _. start; calls = inl refl }

    -- The same after the others have committed.
    late-Outcome :
        (db : Db) (q : SendInput) (p : Principal) (reply : Reply)
        → Outcome db q p (silent reply (t.before_reserve db))
    late-Outcome db q p reply = record { steps = λ early _. early db; calls = inl refl }

    conflicted-Outcome :
        (db : Db) (q : SendInput) (p : Principal) (m : R (Option Reply))
        → Outcome db q p (conflicted s lib (t.before_reserve db) m)
    conflicted-Outcome db q p (ok (some reply)) = late-Outcome db q p reply
    conflicted-Outcome db q p (ok none) = late-Outcome db q p _
    conflicted-Outcome db q p (err code) = late-Outcome db q p _

    reserved-Outcome :
        (db : Db) (q : SendInput) (ctx : Context) (p : Principal)
        (m : C (ChannelDeliveryReservation × Db))
        → reserve_channel_delivery lib
            (t.before_reserve db)
            t.reserving
            (reservation_of s q p ctx.snapshot)
          ≡ m
        → Outcome db q p (by_reservation s lib (t.before_reserve db) t q ctx p m)
    unfolding inspect post_reserved message_key_of fingerprint_of
    reserved-Outcome db q ctx p (ok (r, after)) h =
        let step = reserved t.reserving (reservation_of s q p ctx.snapshot) r h in
        elim (Bool-cases r.claimed) [
          | inl e ↦ rw e (record {
            steps = λ early late. Steps-append lib (onward (early db) step) (
                Steps-append lib (late after) (
                  answered-Steps (t.during_post after) t r.delivery p
                    (ctx.bus r.delivery.destination r.delivery.payload r.delivery.message_key)));
            calls = inr (record {
              input = t.reserving;
              request = reservation_of s q p ctx.snapshot;
              reservation = r;
              call = record {
                destination = r.delivery.destination;
                payload = r.delivery.payload;
                message_key = r.delivery.message_key;
                seen = after;
              };
              key = refl;
              reserves = h;
              claimed = e;
              once = refl;
            });
          })
          | inr e ↦ rw e (record { steps = λ early _. onward (early db) step; calls = inl refl })
        ]
    reserved-Outcome db q ctx p (err ChannelIoError.idempotency_conflict) h =
        conflicted-Outcome db q p (inspect s lib (t.before_reserve db) q p)
    reserved-Outcome db q ctx p (err ChannelIoError.forbidden) h = late-Outcome db q p _
    reserved-Outcome db q ctx p (err ChannelIoError.claim_failed) h = late-Outcome db q p _
    reserved-Outcome db q ctx p (err ChannelIoError.one_outcome_required) h = late-Outcome db q p _
    reserved-Outcome db q ctx p (err ChannelIoError.not_sending) h = late-Outcome db q p _
    reserved-Outcome db q ctx p (err ChannelIoError.payload_incomplete) h = late-Outcome db q p _
    reserved-Outcome db q ctx p (err (ChannelIoError.channel e)) h = late-Outcome db q p _
    reserved-Outcome db q ctx p (err (ChannelIoError.store e)) h = late-Outcome db q p _

    reply-Outcome :
        (db : Db) (q : SendInput) (ctx : Context) (p : Principal) (m : R (Unit {0}))
        → Outcome db q p (by_reply s lib db t q ctx p m)
    unfolding reserve_channel_delivery
    reply-Outcome db q ctx p (err code) = silent-Outcome db q p _
    reply-Outcome db q ctx p (ok u) =
        reserved-Outcome db q ctx p
          (reserve_channel_delivery lib (t.before_reserve db) t.reserving
            (reservation_of s q p ctx.snapshot))
          refl

    context-Outcome :
        (db : Db) (q : SendInput) (p : Principal) (m : R Context)
        → Outcome db q p (by_context s lib db t q p m)
    unfolding validate_reply
    context-Outcome db q p (err code) = silent-Outcome db q p _
    context-Outcome db q p (ok ctx) = reply-Outcome db q ctx p (validate_reply s lib q ctx.history)

    replay-Outcome :
        (db : Db) (q : SendInput) (p : Principal) (m : R Context) (prior : R (Option Reply))
        → Outcome db q p (by_replay s lib db t q p m prior)
    replay-Outcome db q p m (err code) = silent-Outcome db q p _
    replay-Outcome db q p m (ok (some reply)) = silent-Outcome db q p reply
    replay-Outcome db q p m (ok none) = context-Outcome db q p m

    channel-Outcome :
        (db : Db) (q : SendInput) (p : Principal) (ctx : Context) (m : R (Unit {0}))
        → Outcome db q p (by_channel s lib db t q p ctx m)
    unfolding inspect
    channel-Outcome db q p ctx (err code) = silent-Outcome db q p _
    channel-Outcome db q p ctx (ok u) = replay-Outcome db q p (ok ctx) (inspect s lib db q p)

    legacy-Outcome :
        (db : Db) (q : SendInput) (p : Principal) (o : Option Context)
        → Outcome db q p (by_legacy s lib db t q p o)
    unfolding inspect
    legacy-Outcome db q p (some ctx) =
        channel-Outcome db q p ctx (ctx.history.validate_channel q.channel_id)
    legacy-Outcome db q p none =
        replay-Outcome db q p
          (s.resolve p >>= λ ctx. ctx.history.validate_channel q.channel_id >> ok ctx)
          (inspect s lib db q p)

    authority-Outcome :
        (db : Db) (q : SendInput) (p : Principal) (m : R (Unit {0}))
        → Outcome db q p (by_authority s lib db t q p m)
    authority-Outcome db q p (err code) = silent-Outcome db q p _
    authority-Outcome db q p (ok u) =
        legacy-Outcome db q p (legacy_of s lib s.injected p.channel_agent_id)

    -- A send of an input that was read.
    pub send-Outcome :
        (db : Db) (input : Json) (p : Principal) (q : SendInput)
        → parse_input input ≡ ok q
        → Outcome db q p (send s lib db t input (some p))
    unfolding send parse_input authorize
    send-Outcome db input p q h =
        subst (λ m. Outcome db q p (by_input s lib db t p m)) (sym h)
          (authority-Outcome db q p (authorize lib db q p))
