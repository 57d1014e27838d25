-- ===== src/Examples/Posting.antt =====
-- The theorems on the outbox, at one delivery to the terminal and one channel message.
use native.Mathlib.Decide.{ℕ_discrete}
use coordinate.Base.{
  ◌≤◌, ◌≡◌, refl, ok, err, some, none, true, false, [], ◌∷◌, string_dec_eq, nat_dec_eq,
  string_discrete, arith, ℕ,
}
use coordinate.Json.{end, field, text}
use coordinate.Table.{count_where, length}
use coordinate.Text.{is_space, char_count, any_char, is_control, has_control, strip}
use coordinate.Schema.{Db, Delivery, DeliveryStatus, dead}
use coordinate.Channels.Names.{
  normalize_channel_platform, normalize_channel_id, resolve_channel_workspace,
}
use coordinate.Events.Log.{append_event, event_row}
use coordinate.Deliveries.Ledger.{
  NewDelivery, create_delivery, delivery_row, get_delivery, is_channel_delivery,
  mark_delivery_sending, mark_delivery_sent, recover_sending_deliveries, list_deliveries,
}
use coordinate.Deliveries.Bus.{
  Transport, Buses, SendInput, send_delivery, pump_deliveries, not_sendable, PumpResult, settle,
  retryable_deliveries, send_loop, bus_for_platform, is_retryable,
}
use coordinate.Deliveries.Channel.{
  Reservation, ReserveInput, requested_event, channel_message, claimed_row,
  inspect_channel_delivery, reserve_channel_delivery, reserve_fresh, claim_delivery,
}
use coordinate.Deliveries.Moves.{IsOneShot, Moves-IsOneShot, here, next}
use coordinate.Deliveries.Writes.{create_delivery-Move}
use coordinate.Deliveries.Steps.{Steps, start, onward, recovered, created}
use coordinate.Deliveries.Once.{reserve_once, Steps-IsOneShot}
use coordinate.Deliveries.Pumps.{pump_deliveries-Steps}
use coordinate.Deliveries.Failing.{failing-dies, send_times}
use coordinate.Deliveries.Figures.{is_sent, is_refused}
use coordinate.Deliveries.Worker.{Turn, run_delivery_worker}
use coordinate.Deliveries.Working.{IsEnded, worker-ends}
use coordinate.Deliveries.Pumped.{pump_deliveries-figures}
use coordinate.Examples.World.{lib, world}

abbrev hello : NewDelivery
hello = record {
  platform = "stdout";
  destination = "local";
  message_key = "hello";
  payload = field "text" (text "hello") end;
  event_id = none;
}

abbrev greeting : Delivery
greeting = delivery_row 1 "d1" hello

abbrev outbox : Db
outbox = record world { deliveries = greeting ∷ [] }

writes : create_delivery world 1 "d1" hello ≡ ok ((greeting, true), outbox)
unfolding create_delivery string_discrete
writes = refl

none-IsOneShot : IsOneShot []
none-IsOneShot = record { one_id = λ i. omega arith; one_key = λ k. omega arith; posted = tt }

Steps-IsOneShot_example : IsOneShot outbox.deliveries
Steps-IsOneShot_example =
    Steps-IsOneShot lib world outbox none-IsOneShot
      (onward start (created 1 "d1" hello (greeting, true) writes))

outbox-IsOneShot : IsOneShot outbox.deliveries
outbox-IsOneShot =
    Moves-IsOneShot
      (next here (create_delivery-Move world 1 "d1" hello (greeting, true) outbox writes))
      none-IsOneShot

abbrev printer : Transport
printer _ _ _ = ok "stdout:1"

abbrev down : Transport
down _ _ _ = err "down"

abbrev buses : Buses
buses = record { stdout_bus = printer; discord_bus = none; kook_bus = none; webhook_bus = none }

abbrev alone : SendInput
alone = record { sending_now = 5; finished_now = 6; meanwhile = λ x. x }

pump_deliveries-Steps_example :
    Steps lib outbox (pump_deliveries none buses (λ _. alone) outbox 4 none 10 true).1
pump_deliveries-Steps_example =
    pump_deliveries-Steps lib none buses (λ _. alone) (λ d x. start) outbox 4 none 10 true
      (pump_deliveries none buses (λ _. alone) outbox 4 none 10 true).0
      (pump_deliveries none buses (λ _. alone) outbox 4 none 10 true).1 outbox-IsOneShot refl

abbrev greeted : Delivery
greeted = record greeting {
  status = DeliveryStatus.sent;
  platform_message_id = some "stdout:1";
  attempt_count = 1;
  updated_at = 6;
}

abbrev report : PumpResult
report = record { processed = 1; sent = 1; failed = 0; deliveries = greeted ∷ [] }

pumps :
    pump_deliveries none buses (λ _. alone) outbox 4 none 10 false
    ≡ (ok report, record outbox { deliveries = greeted ∷ [] })
unfolding pump_deliveries send_loop send_delivery settle get_delivery mark_delivery_sending
    mark_delivery_sent is_channel_delivery retryable_deliveries list_deliveries bus_for_platform
    string_discrete
pumps = refl

pump_deliveries-figures_example :
    (1 ≤ 10)
    × (length report.deliveries ≡ 1)
    × (1 ≡ count_where is_sent report.deliveries)
    × (0 ≡ count_where is_refused report.deliveries)
pump_deliveries-figures_example =
    pump_deliveries-figures none buses (λ _. alone) outbox 4 none 10 false report
      (record outbox { deliveries = greeted ∷ [] }) pumps

there : get_delivery outbox "d1" ≡ ok greeting
unfolding get_delivery string_discrete
there = refl

plain : is_channel_delivery greeting ≡ false
unfolding is_channel_delivery string_discrete
plain = refl

failing-dies_example :
    (row : Delivery) × (get_delivery
        (send_times (some down) buses (λ _. alone) 3 "d1" 3 outbox)
        "d1"
      ≡ ok row)
    × (row.status ≡ dead)
    × (row.attempt_count ≡ 3)
    × ((i : SendInput)
        → send_delivery
            (some down)
            buses
            i
            3
            (send_times (some down) buses (λ _. alone) 3 "d1" 3 outbox)
            "d1"
          ≡ (err (not_sendable dead), send_times (some down) buses (λ _. alone) 3 "d1" 3 outbox))
unfolding bus_for_platform
failing-dies_example =
    failing-dies (some down) buses (λ _. alone) 3 "d1" down "down" (λ n x d h. h) (λ _ _ _. refl) 2
      outbox greeting there plain refl refl refl

abbrev office : Db
office = record world {
  channel_bindings =
      record { platform = "discord"; channel_id = "7"; workspace_id = "w"; bound_at = 1 } ∷ [];
}

abbrev message : Reservation
message = record {
  actor = "ann";
  workspace_id = "w";
  platform = "discord";
  channel_id = "7";
  message_key = "k";
  fingerprint = "f";
  payload = end;
}

abbrev reading : ReserveInput
reading = record {
  event_now = 1;
  event_id = "e1";
  delivery_now = 2;
  delivery_id = "d1";
  claim_now = 3;
}

abbrev posted : Delivery
posted = claimed_row 3 (delivery_row 2 "d1" (channel_message message "e1"))

abbrev posted_db : Db
posted_db = record office {
  events = event_row 1 "e1" (requested_event message) ∷ [];
  deliveries = posted ∷ [];
}

claims :
    reserve_channel_delivery lib office reading message
    ≡ ok (record { delivery = posted; claimed = true }, posted_db)
unfolding reserve_channel_delivery inspect_channel_delivery reserve_fresh claim_delivery
    resolve_channel_workspace normalize_channel_platform normalize_channel_id create_delivery
    get_delivery append_event is_channel_delivery strip is_space char_count has_control any_char
    is_control string_discrete ℕ_discrete
claims = refl

recovers : recover_sending_deliveries posted_db 8 none "late" ≡ (ok [], posted_db)
unfolding recover_sending_deliveries is_channel_delivery get_delivery string_discrete
recovers = refl

abbrev second : ReserveInput
second = record {
  event_now = 9;
  event_id = "e2";
  delivery_now = 9;
  delivery_id = "d2";
  claim_now = 9;
}

reads :
    reserve_channel_delivery lib posted_db second message
    ≡ ok (record { delivery = posted; claimed = false }, posted_db)
unfolding reserve_channel_delivery inspect_channel_delivery reserve_fresh claim_delivery
    resolve_channel_workspace normalize_channel_platform normalize_channel_id create_delivery
    get_delivery append_event is_channel_delivery strip is_space char_count has_control any_char
    is_control string_discrete ℕ_discrete
reads = refl

reserve_once_example :
    (false ≡ false)
    × (posted_db ≡ posted_db)
    × (posted.id ≡ posted.id)
    × (posted.attempt_count ≡ 1)
    × (is_retryable posted.status ≡ false)
reserve_once_example =
    reserve_once lib office posted_db posted_db posted_db reading second message message
      (record { delivery = posted; claimed = true }) (record { delivery = posted; claimed = false })
      none-IsOneShot claims refl (onward start (recovered 8 none "late" (ok []) recovers)) reads
      refl

abbrev turn : ℕ → Turn
turn _ = record { now = 4; sends = λ _. alone; interrupted = false; while_asleep = λ x. x }

worker-ends_example : IsEnded 2 (run_delivery_worker none buses turn none 10 (some 2) true 5 outbox)
worker-ends_example =
    worker-ends none buses turn none 10 2 true 5 outbox (omega arith) (omega arith) (omega arith)
