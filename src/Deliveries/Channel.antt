-- ===== src/Deliveries/Channel.antt =====
-- The one-shot channel messages of db.py: `inspect_channel_delivery`, `reserve_channel_delivery` and
-- `finish_channel_delivery`. Each is one transaction of a fresh connection: an error rolls back.
use Prim.Native.String.{◌++◌ as ◌⧺◌}
use coordinate.Base.{
  ℕ, suc, String, Bool, true, false, not, ◌&&◌, Option, none, some, ◌==◌, string_dec_eq, nat_dec_eq,
  if◌then◌else◌, Result, ok, err, ◌>>=◌, ◌>>◌, guard,
}
use coordinate.Json.{Json, Fields, end, field, get, put, text, null}
use coordinate.Table.{find?, count_where, update, is_some}
use coordinate.Schema.{Db, Delivery, ChannelBinding, pending, sending, sent, dead}
use coordinate.Resources.{Platform}
use coordinate.Events.Log.{DbError, NewEvent, append_event}
use coordinate.Channels.Names.{ChannelError, resolve_channel_workspace, canonical_channel_target}
use coordinate.Deliveries.Ledger.{
  NewDelivery, create_delivery, get_delivery, is_channel_delivery, is_text_value, channel_purpose,
  same_status, has_id, has_message_key,
}

pub data ChannelIoError : Type 0 where
  forbidden idempotency_conflict claim_failed : ChannelIoError
  one_outcome_required not_sending payload_incomplete : ChannelIoError
  channel : ChannelError → ChannelIoError
  store : DbError → ChannelIoError

abbrev pub C : Type 0 → Type 0
C A = Result ChannelIoError A

abbrev pub from_channel : {A : Type 0} → Result ChannelError A → C A
from_channel (ok a) = ok a
from_channel (err e) = err (channel e)

abbrev pub from_store : {A : Type 0} → Result DbError A → C A
from_store (ok a) = ok a
from_store (err e) = err (store e)

-- binding is None or binding.workspace_id != workspace_id
abbrev pub allows : String → Option ChannelBinding → Bool
allows workspace_id none = false
allows workspace_id (some b) = b.workspace_id == workspace_id

pub record Reservation : Type 0 where
  pub actor : String
  pub workspace_id : String
  pub platform : String
  pub channel_id : String
  pub message_key : String
  pub fingerprint : String
  pub payload : Fields

-- The row is a one-shot message of the same content for the same channel.
abbrev pub same_message : Reservation → Delivery → Bool
unfolding is_channel_delivery
same_message q d =
    is_channel_delivery d
    && is_text_value q.fingerprint (get d.payload "fingerprint")
    && d.platform == q.platform
    && d.destination == q.channel_id

abbrev pub strict_replay : Reservation → Option Delivery → C (Option Delivery)
strict_replay q none = ok none
strict_replay q (some d) = if same_message q d then ok (some d) else err idempotency_conflict

pub record ReserveInput : Type 0 where
  pub event_now : ℕ
  pub event_id : String
  pub delivery_now : ℕ
  pub delivery_id : String
  pub claim_now : ℕ

abbrev pub requested_event : Reservation → NewEvent
requested_event q = record {
  event_type = "channel.message.requested";
  actor = q.actor;
  workspace_id = some q.workspace_id;
  target = some (canonical_channel_target q.platform q.channel_id);
  task_id = none;
  causation_id = none;
  idempotency_key = some (q.message_key ⧺ ":requested");
  payload = field "purpose" (text channel_purpose) (field "fingerprint" (text q.fingerprint) end);
}

-- {**payload, "purpose": ..., "fingerprint": ..., "actor": ..., "workspace_id": ...}
abbrev pub channel_payload : Reservation → Fields
channel_payload q =
    put
      (put (put (put q.payload "purpose" (text channel_purpose)) "fingerprint" (text q.fingerprint))
        "actor" (text q.actor))
      "workspace_id" (text q.workspace_id)

abbrev pub channel_message : Reservation → String → NewDelivery
channel_message q event_id = record {
  platform = q.platform;
  destination = q.channel_id;
  message_key = q.message_key;
  payload = channel_payload q;
  event_id = some event_id;
}

pub record ChannelDeliveryReservation : Type 0 where
  pub delivery : Delivery
  pub claimed : Bool

-- WHERE id = ? AND status = 'pending'
abbrev pub claimable : String → Delivery → Bool
claimable id d = has_id id d && same_status d.status pending

abbrev pub claimed_row : ℕ → Delivery → Delivery
claimed_row now d = record d {
  status = sending;
  attempt_count = suc d.attempt_count;
  updated_at = now;
}

-- The row just written becomes `sending`.
unfoldable pub claim_delivery : Db → ℕ → String → C (ChannelDeliveryReservation × Db)
claim_delivery db now id = do
  guard (count_where (claimable id) db.deliveries == 1) claim_failed
  let after = record db { deliveries = update (claimable id) (claimed_row now) db.deliveries }
  row ← from_store (get_delivery after id)
  ok (record { delivery = row; claimed = true }, after)

unfoldable pub reserve_fresh : Db → ReserveInput → Reservation → C (ChannelDeliveryReservation × Db)
unfolding claim_delivery
reserve_fresh db i q = do
  (audit, logged) ← from_store (append_event db i.event_now i.event_id (requested_event q))
  guard audit.created idempotency_conflict
  ((row, created), written) ←
      from_store
        (create_delivery logged i.delivery_now i.delivery_id (channel_message q audit.row.id))
  guard created idempotency_conflict
  claim_delivery written i.claim_now row.id

-- A prior row is a replay and is only read.
abbrev pub replay_or :
    C (ChannelDeliveryReservation × Db) → Db → Option Delivery → C (ChannelDeliveryReservation × Db)
replay_or fresh db none = fresh
replay_or fresh db (some d) = ok (record { delivery = d; claimed = false }, db)

module _ (lib : Platform) where
  unfoldable pub inspect_channel_delivery : Db → Reservation → C (Option Delivery)
  inspect_channel_delivery db q = do
    binding ← from_channel (resolve_channel_workspace lib db q.platform q.channel_id)
    guard (allows q.workspace_id binding) forbidden
    strict_replay q (find? (has_message_key q.message_key) db.deliveries)

  unfoldable pub reserve_channel_delivery :
      Db → ReserveInput → Reservation → C (ChannelDeliveryReservation × Db)
  unfolding inspect_channel_delivery reserve_fresh
  reserve_channel_delivery db i q =
      inspect_channel_delivery db q >>= λ prior. replay_or (reserve_fresh db i q) db prior

-- payload[key] where it is text
abbrev pub payload_text : Option Json → C String
payload_text (some (text t)) = ok t
payload_text _ = err payload_incomplete

pub record FinishInput : Type 0 where
  pub event_now : ℕ
  pub event_id : String
  pub finished_now : ℕ

abbrev pub optional_text : Option String → Json
optional_text none = null
optional_text (some t) = text t

-- The event of a definite outcome.
abbrev pub outcome_event : String → Delivery → String → String → Option String → Bool → NewEvent
outcome_event id d actor workspace_id message_id rejected =
    let outcome = if rejected then "rejected" else "sent" in
    record {
      event_type = "channel.message." ⧺ outcome;
      actor = actor;
      workspace_id = some workspace_id;
      target = some (canonical_channel_target d.platform d.destination);
      task_id = none;
      causation_id = d.event_id;
      idempotency_key = some (d.message_key ⧺ (":" ⧺ outcome));
      payload = field "purpose" (text channel_purpose) (
          field "delivery_id" (text d.id)
            (field "platform_message_id" (optional_text message_id) end));
    }

-- WHERE id = ? AND status = 'sending'
abbrev pub in_flight : String → Delivery → Bool
in_flight id d = has_id id d && same_status d.status sending

abbrev pub finished_row : ℕ → Option String → Bool → Delivery → Delivery
finished_row now message_id rejected d = record d {
  status = if rejected then dead else sent;
  platform_message_id = message_id;
  last_error = if rejected then some "delivery_rejected" else none;
  updated_at = now;
}

-- The row that is read back, with the database.
abbrev pub with_row : Db → C Delivery → C (Delivery × Db)
with_row after (ok d) = ok (d, after)
with_row after (err e) = err e

unfoldable pub finish_channel_delivery :
    Db → FinishInput → String → Option String → Bool → C (Delivery × Db)
finish_channel_delivery db i id message_id rejected = do
  guard (not (if is_some message_id then rejected else not rejected)) one_outcome_required
  row ← from_store (get_delivery db id)
  guard (is_channel_delivery row && same_status row.status sending) not_sending
  actor ← payload_text (get row.payload "actor")
  workspace_id ← payload_text (get row.payload "workspace_id")
  (_, logged) ← from_store (
      append_event db i.event_now i.event_id
        (outcome_event id row actor workspace_id message_id rejected))
  let after = record logged {
    deliveries =
        update (in_flight id) (finished_row i.finished_now message_id rejected) logged.deliveries;
  }
  with_row after (from_store (get_delivery after id))
