-- ===== src/Sender/Receipt.antt =====
-- The answer of a channel message: `_receipt` and `_error` of channel_delivery.py. A snapshot in a
-- payload is one that `SenderIdentity.snapshot` made, or there is none.
use Prim.Native.Char.{code}
use coordinate.Base.{
  String, Bool, true, false, Option, none, some, ◌==◌, nat_dec_eq, string_dec_eq, if◌then◌else◌,
}
use coordinate.Text.{is_empty}
use coordinate.Json.{Json, Fields, obj, end, get}
use coordinate.Schema.{Delivery, DeliveryStatus, dead}
use coordinate.Sender.Input.{SendCode, delivery_rejected, delivery_uncertain}

pub data SendStatus : Type 0 where
  sent rejected unknown : SendStatus

pub data IdentityStatus : Type 0 where
  legacy_unattributed verified unconfirmed : IdentityStatus

pub record Receipt : Type 0 where
  pub delivery_id : String
  pub message_id : Option String
  pub status : SendStatus
  pub replayed : Bool
  pub sender_identity : Option Fields
  pub actual_author_bot_id : Option Json
  pub identity_status : IdentityStatus
  pub binding_current : Bool

-- {"ok": True, "data": ..., "error": None}, and `_error`
pub data Reply : Type 0 where
  success : Receipt → Reply
  failure : SendCode → Option Receipt → Reply

-- s.removeprefix(prefix), s if the prefix is not there
abbrev cut : String → String → String → String
cut String.[] rest s = rest
cut (String.◌∷◌ c p) String.[] s = s
cut (String.◌∷◌ c p) (String.◌∷◌ d rest) s =
    let shorter = cut p rest s in if code c == code d then shorter else s

abbrev pub removeprefix : String → String → String
removeprefix s prefix = cut prefix s s

abbrev snapshot_in : Option Json → Option Fields
snapshot_in (some (obj m)) = some m
snapshot_in _ = none

abbrev pub snapshot_of : Delivery → Option Fields
snapshot_of row = snapshot_in (get row.payload "sender_identity")

-- row["status"] == "sent" and bool(row["platform_message_id"])
abbrev pub sent_id : DeliveryStatus → Option String → Option String
sent_id DeliveryStatus.sent (some id) = if is_empty id then none else some id
sent_id _ _ = none

abbrev pub status_of : Option String → DeliveryStatus → SendStatus
status_of (some id) s = SendStatus.sent
status_of none dead = rejected
status_of none _ = unknown

abbrev cut_id : Option String → Option String
cut_id none = none
cut_id (some id) = some (removeprefix id "discord:")

-- if snapshot: an empty dictionary counts as none
abbrev has_snapshot : Option Fields → Bool
has_snapshot none = false
has_snapshot (some end) = false
has_snapshot (some _) = true

abbrev author_of : Option Fields → Option String → Option Json
author_of none _ = none
author_of (some m) none = none
author_of (some m) (some id) = get m "discord_user_id"

abbrev identity_status_of : Option Fields → Option String → IdentityStatus
identity_status_of none _ = legacy_unattributed
identity_status_of (some m) (some id) = verified
identity_status_of (some m) none = unconfirmed

abbrev pub data_of : Delivery → Bool → Bool → Receipt
data_of row replayed binding_current =
    let id = sent_id row.status row.platform_message_id in
    let snapshot = snapshot_of row in
    record {
      delivery_id = row.id;
      message_id = cut_id id;
      status = status_of id row.status;
      replayed = replayed;
      sender_identity = snapshot;
      actual_author_bot_id = author_of snapshot id;
      identity_status = identity_status_of snapshot id;
      binding_current = if has_snapshot snapshot then binding_current else false;
    }

abbrev pub reply_by : SendStatus → Receipt → Reply
reply_by SendStatus.sent r = success r
reply_by rejected r = failure delivery_rejected (some r)
reply_by unknown r = failure delivery_uncertain (some r)

abbrev pub receipt : Delivery → Bool → Bool → Reply
receipt row replayed binding_current =
    let r = data_of row replayed binding_current in reply_by r.status r

-- receipt["data"]
abbrev pub reply_data : Reply → Option Receipt
reply_data (success r) = some r
reply_data (failure code r) = r
