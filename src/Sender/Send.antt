-- ===== src/Sender/Send.antt =====
-- `ChannelSender.send` of channel_delivery.py. Each part that opens a connection reads a database of its
-- own; what the others commit during the calls of Discord is an input. The trace of an answer has
-- an entry where the bus is called.
use coordinate.Base.{
  String, Bool, true, false, not, ◌&&◌, Option, none, some, List, [], ◌∷◌, ◌==◌, string_dec_eq,
  if◌then◌else◌, ok, err, ◌>>=◌, ◌>>◌,
}
use coordinate.Json.{Json, Fields, text, arr, obj, nil, cons, end, field, get, put}
use coordinate.Table.{find?}
use coordinate.Schema.{Db, Delivery}
use coordinate.Resources.{Platform}
use coordinate.Deliveries.Ledger.{has_message_key, is_text_value}
use coordinate.Deliveries.Channel.{
  C, ChannelIoError, Reservation, ReserveInput, FinishInput, ChannelDeliveryReservation,
  inspect_channel_delivery, reserve_channel_delivery, finish_channel_delivery,
}
use coordinate.Sender.Input.{
  SendCode, invalid_input, forbidden, idempotency_conflict, upstream_unavailable, R, SendInput,
  Principal, parse_input, authorize, message_key_of, fingerprint_of, is_snowflake, or_null,
}
use coordinate.Sender.Receipt.{
  Reply, failure, data_of, receipt, reply_data, snapshot_of, removeprefix,
}

-- What `send` of the bus answers: an id, `ChannelDeliveryRejected`, or another exception.
pub data BusAnswer : Type 0 where
  accepted : String → BusAnswer
  refused broken : BusAnswer

pub record History : Type 0 where
  -- validate_send_channel or validate_channel, if there is one
  pub validate_channel : String → R (Unit {0})
  pub get_message : String → String → R Fields

pub record Context : Type 0 where
  pub history : History
  pub bus : String → Fields → String → BusAnswer
  pub snapshot : Option Fields

-- The resolver of identities, and an injected pair of history and bus.
pub record Services : Type 0 where
  pub sha : Json → String
  pub resolve : Principal → R Context
  pub binding_current : Principal → Option Fields → Bool
  pub injected : Option Context

pub record SendTimes : Type 0 where
  pub before_reserve : Db → Db
  pub during_post : Db → Db
  pub reserving : ReserveInput
  pub finishing : FinishInput

-- adapter.send(destination=..., payload=..., message_key=...), and the database at that time
pub record BusCall : Type 0 where
  pub destination : String
  pub payload : Fields
  pub message_key : String
  pub seen : Db

pub record Sent : Type 0 where
  pub reply : Reply
  pub db : Db
  pub calls : List BusCall

abbrev pub silent : Reply → Db → Sent
silent reply db = record { reply = reply; db = db; calls = [] }

-- The bus answers a call, which the trace keeps.
abbrev pub call_bus : Context → BusCall → BusAnswer × List BusCall
call_bus ctx c = (ctx.bus c.destination c.payload c.message_key, c ∷ [])

-- The codes of the exceptions that `send` tells apart.
abbrev pub code_of : ChannelIoError → SendCode
code_of ChannelIoError.forbidden = forbidden
code_of ChannelIoError.idempotency_conflict = idempotency_conflict
code_of _ = upstream_unavailable

-- re.fullmatch(r"discord:[0-9]{1,20}", id)
abbrev pub is_message_id : String → Bool
unfolding is_snowflake
is_message_id id = let rest = removeprefix id "discord:" in not (rest == id) && is_snowflake rest

abbrev pub with_snapshot : Option Fields → Fields → Fields
with_snapshot none m = m
with_snapshot (some s) m = put m "sender_identity" (obj s)

module _ (s : Services) where
  abbrev pub row_receipt : Delivery → Principal → Bool → Reply
  row_receipt row p replayed = receipt row replayed (s.binding_current p (snapshot_of row))

  abbrev pub reservation_of : SendInput → Principal → Option Fields → Reservation
  unfolding message_key_of fingerprint_of
  reservation_of q p snapshot = record {
    actor = p.actor;
    workspace_id = q.workspace_id;
    platform = q.platform;
    channel_id = q.channel_id;
    message_key = message_key_of s.sha q p.actor;
    fingerprint = fingerprint_of s.sha q p.actor snapshot;
    payload = with_snapshot snapshot (
        field "text" (text "[multinexus-channel]") (
          field "embeds" (arr (cons (obj (field "description" (text q.text) end)) nil))
            (field "reply_to_message_id" (or_null q.reply_to_message_id) end)));
  }

  -- snapshot is not None and not receipt["data"]["binding_current"]
  abbrev stale : Option Fields → Bool → Bool
  stale none current = false
  stale (some m) current = not current

  -- The answer of a row, after the strict check of the replay.
  abbrev pub replay_answer : Delivery → Principal → C (Option Delivery) → R (Option Reply)
  replay_answer row p (err ChannelIoError.idempotency_conflict) =
      ok (some (failure idempotency_conflict (reply_data (row_receipt row p true))))
  replay_answer row p (err e) = err (code_of e)
  replay_answer row p (ok _) =
      let snapshot = snapshot_of row in
      ok (
        some (
          if stale snapshot (data_of row true (s.binding_current p snapshot)).binding_current
          then failure idempotency_conflict (reply_data (row_receipt row p true))
          else row_receipt row p true))

  module _ (lib : Platform) where
    abbrev inspect_row : Db → SendInput → Principal → Option Delivery → R (Option Reply)
    unfolding inspect_channel_delivery
    inspect_row db q p none = ok none
    inspect_row db q p (some row) =
        replay_answer row p (inspect_channel_delivery lib db (reservation_of q p (snapshot_of row)))

    unfoldable pub inspect : Db → SendInput → Principal → R (Option Reply)
    unfolding message_key_of inspect_channel_delivery
    inspect db q p =
        inspect_row db q p (find? (has_message_key (message_key_of s.sha q p.actor)) db.deliveries)

    abbrev fail : SendCode → Db → Sent
    fail code db = silent (failure code none) db

    -- The outcome is stored if it can be.
    abbrev pub stored : Db → Delivery → Principal → C (Delivery × Db) → Reply × Db
    stored db row p (ok (saved, after)) = (row_receipt saved p false, after)
    stored db row p (err e) = (row_receipt row p false, db)

    abbrev pub answered : Db → SendTimes → Delivery → Principal → BusAnswer → Reply × Db
    unfolding is_snowflake finish_channel_delivery
    answered db t row p (accepted id) =
        if is_message_id id
        then stored db row p (finish_channel_delivery db t.finishing row.id (some id) false)
        else (row_receipt row p false, db)
    answered db t row p refused =
        stored db row p (finish_channel_delivery db t.finishing row.id none true)
    answered db t row p broken = (row_receipt row p false, db)

    unfoldable pub post_reserved : Db → SendTimes → Context → Principal → Delivery → Sent
    unfolding is_snowflake finish_channel_delivery
    post_reserved db t ctx p row =
        let (answer, calls) = call_bus ctx (record {
          destination = row.destination;
          payload = row.payload;
          message_key = row.message_key;
          seen = db;
        }) in
        let (reply, after) = answered (t.during_post db) t row p answer in
        record { reply = reply; db = after; calls = calls }

    -- The look at a message that another call reserved since the first inspection.
    abbrev pub conflicted : Db → R (Option Reply) → Sent
    conflicted db (ok (some reply)) = silent reply db
    conflicted db (ok none) = fail idempotency_conflict db
    conflicted db (err code) = fail code db

    abbrev pub by_reservation :
        Db
        → SendTimes
        → SendInput
        → Context
        → Principal
        → C (ChannelDeliveryReservation × Db)
        → Sent
    unfolding inspect post_reserved
    by_reservation db t q ctx p (ok (r, after)) =
        if r.claimed
        then post_reserved after t ctx p r.delivery
        else silent (row_receipt r.delivery p true) after
    by_reservation db t q ctx p (err ChannelIoError.idempotency_conflict) =
        conflicted db (inspect db q p)
    by_reservation db t q ctx p (err e) = fail (code_of e) db

    unfoldable pub validate_reply : SendInput → History → R (Unit {0})
    validate_reply q history = elim q.reply_to_message_id [
      | none ↦ ok tt
      | some id ↦ history.get_message q.channel_id id >>= λ m.
          if is_text_value q.channel_id (get m "channel_id") && is_text_value id (get m "id")
          then ok tt
          else err invalid_input
    ]

    abbrev pub by_reply : Db → SendTimes → SendInput → Context → Principal → R (Unit {0}) → Sent
    unfolding reserve_channel_delivery
    by_reply db t q ctx p (err code) = fail code db
    by_reply db t q ctx p (ok _) =
        let mid = t.before_reserve db in
        by_reservation mid t q ctx p
          (reserve_channel_delivery lib mid t.reserving (reservation_of q p ctx.snapshot))

    abbrev pub by_context : Db → SendTimes → SendInput → Principal → R Context → Sent
    unfolding validate_reply
    by_context db t q p (err code) = fail code db
    by_context db t q p (ok ctx) = by_reply db t q ctx p (validate_reply q ctx.history)

    abbrev pub by_replay :
        Db → SendTimes → SendInput → Principal → R Context → R (Option Reply) → Sent
    by_replay db t q p m (err code) = fail code db
    by_replay db t q p m (ok (some reply)) = silent reply db
    by_replay db t q p m (ok none) = by_context db t q p m

    -- The injected services serve a principal without an agent of its own, and have no snapshot.
    abbrev pub legacy_of : Option Context → Option String → Option Context
    legacy_of (some ctx) none = some (record ctx { snapshot = none })
    legacy_of _ _ = none

    abbrev pub by_channel : Db → SendTimes → SendInput → Principal → Context → R (Unit {0}) → Sent
    unfolding inspect
    by_channel db t q p ctx (err code) = fail code db
    by_channel db t q p ctx (ok _) = by_replay db t q p (ok ctx) (inspect db q p)

    abbrev pub by_legacy : Db → SendTimes → SendInput → Principal → Option Context → Sent
    unfolding inspect
    by_legacy db t q p (some ctx) =
        by_channel db t q p ctx (ctx.history.validate_channel q.channel_id)
    by_legacy db t q p none =
        by_replay db t q p
          (s.resolve p >>= λ ctx. ctx.history.validate_channel q.channel_id >> ok ctx)
          (inspect db q p)

    abbrev pub by_authority : Db → SendTimes → SendInput → Principal → R (Unit {0}) → Sent
    by_authority db t q p (err code) = fail code db
    by_authority db t q p (ok _) = by_legacy db t q p (legacy_of s.injected p.channel_agent_id)

    abbrev pub by_input : Db → SendTimes → Principal → R SendInput → Sent
    unfolding authorize
    by_input db t p (err code) = fail code db
    by_input db t p (ok q) = by_authority db t q p (authorize lib db q p)

    unfoldable pub send : Db → SendTimes → Json → Option Principal → Sent
    unfolding parse_input
    send db t input none = fail forbidden db
    send db t input (some p) = by_input db t p (parse_input input)
