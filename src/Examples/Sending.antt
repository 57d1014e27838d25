-- ===== src/Examples/Sending.antt =====
-- The channel sender, at one message that is sent twice.
use Prim.Native.Nat.{◌+◌}
use native.Mathlib.Decide.{ℕ_discrete}
use coordinate.Base.{
  ◌≡◌, ◌≤◌, refl, sym, subst, inl, ok, some, none, [], ◌∷◌, string_dec_eq, nat_dec_eq,
  string_discrete, arith, true,
}
use coordinate.Json.{Json, Fields, null, text, arr, nil, cons, obj, end, field}
use coordinate.Table.{length}
use coordinate.Text.{is_space, char_count, any_char, all_chars, is_control, has_control, strip}
use coordinate.Schema.{Db, Delivery, sending}
use coordinate.Channels.Names.{
  normalize_channel_platform, normalize_channel_id, resolve_channel_workspace,
}
use coordinate.Events.Log.{append_event}
use coordinate.Deliveries.Ledger.{create_delivery, get_delivery, is_channel_delivery}
use coordinate.Deliveries.Channel.{
  inspect_channel_delivery, reserve_channel_delivery, reserve_fresh, claim_delivery,
  finish_channel_delivery,
}
use coordinate.Deliveries.Moves.{IsOneShot}
use coordinate.Deliveries.Steps.{Steps, start, onward, reserved}
use coordinate.Sender.Input.{
  SendInput, Principal, parse_input, keys_allowed, is_snowflake, utf16_units, authorize,
  message_key_of, fingerprint_of,
}
use coordinate.Sender.Send.{
  Services, SendTimes, BusCall, reservation_of, Context, History, accepted, inspect, post_reserved,
  validate_reply, send,
}
use coordinate.Sender.Posting.{IsAfter, no_call, one_more, send_once, send-Steps}
use coordinate.Examples.World.{lib, world}

abbrev channel_open : Db
channel_open = record world {
  channel_bindings =
      record { platform = "discord"; channel_id = "7"; workspace_id = "w"; bound_at = 1 } ∷ [];
}

abbrev input : Json
input = obj (
    field "workspace_id" (text "w")
      (field "channel_id" (text "7") (field "text" (text "hi") (field "send_key" (text "k") end))))

abbrev parsed : SendInput
parsed = record {
  workspace_id = "w";
  channel_id = "7";
  platform = "discord";
  text = "hi";
  send_key = "k";
  reply_to_message_id = none;
}

abbrev client : Principal
client = record {
  actor = "ann";
  tools = "coordinate.channel_send" ∷ [];
  workspace_ids = "w" ∷ [];
  platforms = "discord" ∷ [];
  channel_agent_id = some "ann";
}

abbrev open_history : History
open_history = record { validate_channel = λ _. ok tt; get_message = λ _ _. ok end }

abbrev context : Context
context = record { history = open_history; bus = λ _ _ _. accepted "discord:9"; snapshot = none }

abbrev services : Services
services = record {
  sha = λ _. "h";
  resolve = λ _. ok context;
  binding_current = λ _ _. true;
  injected = none;
}

abbrev times : SendTimes
times = record {
  before_reserve = λ x. x;
  during_post = λ x. x;
  reserving = record {
    event_now = 1;
    event_id = "e1";
    delivery_now = 2;
    delivery_id = "d1";
    claim_now = 3;
  };
  finishing = record { event_now = 4; event_id = "e2"; finished_now = 5 };
}

reads : parse_input input ≡ ok parsed
unfolding parse_input keys_allowed is_snowflake utf16_units strip is_space char_count all_chars
    string_discrete ℕ_discrete
reads = refl

abbrev posted : Fields
posted = field "text" (text "[multinexus-channel]") (
    field "embeds" (arr (cons (obj (field "description" (text "hi") end)) nil)) (
      field "reply_to_message_id" null (
        field "purpose" (text "channel_io.v1") (
          field "fingerprint" (text "h")
            (field "actor" (text "ann") (field "workspace_id" (text "w") end))))))

abbrev row : Delivery
row = record {
  id = "d1";
  event_id = some "e1";
  platform = "discord";
  destination = "7";
  message_key = "channel-io:h";
  status = sending;
  platform_message_id = none;
  attempt_count = 1;
  last_error = none;
  payload = posted;
  created_at = 2;
  updated_at = 3;
}

-- Where the first send calls the bus.
abbrev claimed : Db
claimed = record channel_open {
  events =
      record {
        id = "e1";
        workspace_id = some "w";
        event_type = "channel.message.requested";
        actor = "ann";
        target = some "discord:7";
        task_id = none;
        causation_id = none;
        idempotency_key = "channel-io:h:requested";
        payload = field "purpose" (text "channel_io.v1") (field "fingerprint" (text "h") end);
        created_at = 1;
      }
      ∷ [];
  deliveries = row ∷ [];
}

abbrev first_call : BusCall
first_call = record {
  destination = "7";
  payload = posted;
  message_key = "channel-io:h";
  seen = claimed;
}

posts : (send services lib channel_open times input (some client)).calls ≡ first_call ∷ []
unfolding send parse_input keys_allowed is_snowflake utf16_units authorize message_key_of
    fingerprint_of inspect post_reserved validate_reply reserve_channel_delivery
    inspect_channel_delivery reserve_fresh claim_delivery finish_channel_delivery
    resolve_channel_workspace normalize_channel_platform normalize_channel_id create_delivery
    get_delivery append_event is_channel_delivery strip is_space char_count all_chars has_control
    any_char is_control string_discrete ℕ_discrete
posts = refl

claims :
    reserve_channel_delivery lib channel_open times.reserving
      (reservation_of services parsed client none)
    ≡ ok (record { delivery = row; claimed = true }, claimed)
unfolding keys_allowed is_snowflake utf16_units authorize message_key_of fingerprint_of
    reserve_channel_delivery inspect_channel_delivery reserve_fresh claim_delivery
    resolve_channel_workspace normalize_channel_platform normalize_channel_id create_delivery
    get_delivery append_event is_channel_delivery strip is_space char_count all_chars has_control
    any_char is_control string_discrete ℕ_discrete
claims = refl

none-IsOneShot : IsOneShot channel_open.deliveries
none-IsOneShot = record { one_id = λ i. omega arith; one_key = λ k. omega arith; posted = tt }

-- The client sends the message once more. The second send looks at the outbox together with the
-- first, and reserves while the first calls the bus.
abbrev second : SendTimes
second = record times { before_reserve = λ _. claimed }

send_once_example :
    length (send services lib channel_open times input (some client)).calls
      + length (send services lib channel_open second input (some client)).calls
    ≤ 1
send_once_example =
    send_once services lib times second channel_open channel_open input input client client parsed
      parsed start
      (onward start
        (reserved times.reserving (reservation_of services parsed client none) _ claims))
      none-IsOneShot none-IsOneShot reads reads refl
      (inl (subst (IsAfter lib claimed) (sym posts) (one_more start no_call)))

send-Steps_example :
    Steps lib channel_open (send services lib channel_open times input (some client)).db
send-Steps_example =
    send-Steps services lib times channel_open input (some client) (λ x. start) (λ x. start)
