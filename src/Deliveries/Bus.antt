-- ===== src/Deliveries/Bus.antt =====
-- `send_delivery`, `pump_deliveries` and `bus_for_platform` of bus.py. A transport's `send` is what
-- the platform answers: a message id, or the text of the exception. While it runs the other
-- connections may commit: `meanwhile`. An exception leaves the database as committed by then.
use coordinate.Base.{
  ℕ, suc, String, Bool, true, false, not, Option, none, some, List, [], ◌∷◌, ◌++◌, ◌==◌,
  string_dec_eq, if◌then◌else◌, leb, Result, ok, err,
}
use coordinate.Json.{Fields}
use coordinate.Table.{select, take, length}
use coordinate.Schema.{Db, Delivery, DeliveryStatus, pending, failed}
use coordinate.Events.Log.{DbError}
use coordinate.Deliveries.Ledger.{
  get_delivery, list_deliveries, is_channel_delivery, mark_delivery_sending, mark_delivery_sent,
  mark_delivery_failed, recover_sending_deliveries,
}

-- `send` of a message bus: destination, payload and message key.
abbrev pub Transport : Type 0
Transport = String → Fields → String → Result String String

pub data BusError : Type 0 where
  one_shot unsupported_platform token_required : BusError
  not_sendable : DeliveryStatus → BusError
  store : DbError → BusError

-- The buses that the environment variables allow to build.
pub record Buses : Type 0 where
  pub stdout_bus : Transport
  pub discord_bus : Option Transport
  pub kook_bus : Option Transport
  pub webhook_bus : Option Transport

abbrev pub configured : Option Transport → Result BusError Transport
configured none = err token_required
configured (some t) = ok t

unfoldable pub bus_for_platform : Buses → String → Result BusError Transport
bus_for_platform env platform =
    if platform == "stdout"
    then ok env.stdout_bus
    else (if platform == "discord"
        then configured env.discord_bus
        else (if platform == "kook"
            then configured env.kook_bus
            else (if platform == "discord_webhook"
                then configured env.webhook_bus
                else err unsupported_platform)))

-- bus or bus_for_platform(...)
abbrev pub adapter_for : Option Transport → Buses → String → Result BusError Transport
unfolding bus_for_platform
adapter_for none env platform = bus_for_platform env platform
adapter_for (some t) env platform = ok t

pub record SendInput : Type 0 where
  pub sending_now : ℕ
  pub finished_now : ℕ
  pub meanwhile : Db → Db

pub record SendDeliveryResult : Type 0 where
  pub delivery : Delivery
  pub sent : Bool

abbrev pub B : Type 0 → Type 0
B A = Result BusError A

abbrev pub is_retryable : DeliveryStatus → Bool
is_retryable pending = true
is_retryable failed = true
is_retryable _ = false

-- The result of the last mark.
abbrev pub send_result : Bool → Db → Result DbError (Delivery × Db) → B SendDeliveryResult × Db
send_result is_sent db (ok (d, after)) = (ok (record { delivery = d; sent = is_sent }), after)
send_result is_sent db (err e) = (err (store e), db)

-- What is written when the transport has answered.
unfoldable pub settle :
    Db → ℕ → ℕ → String → Delivery → Result String String → B SendDeliveryResult × Db
settle db now max_attempts id d (ok message_id) =
    send_result true db (mark_delivery_sent db now id message_id)
settle db now max_attempts id d (err error) =
    send_result false db (mark_delivery_failed db now id error (leb max_attempts d.attempt_count))

abbrev pub post :
    Transport
    → SendInput
    → ℕ
    → Db
    → String
    → Result DbError (Delivery × Db)
    → B SendDeliveryResult × Db
unfolding settle
post adapter i max_attempts db id (ok (d, marked_db)) =
    settle (i.meanwhile marked_db) i.finished_now max_attempts id d
      (adapter d.destination d.payload d.message_key)
post adapter i max_attempts db id (err e) = (err (store e), db)

abbrev pub post_by : SendInput → ℕ → Db → String → B Transport → B SendDeliveryResult × Db
post_by i max_attempts db id (ok adapter) =
    post adapter i max_attempts db id (mark_delivery_sending db i.sending_now id)
post_by i max_attempts db id (err e) = (err e, db)

abbrev pub checked_send :
    Option Transport
    → Buses
    → SendInput
    → ℕ
    → Db
    → String
    → Result DbError Delivery
    → B SendDeliveryResult × Db
unfolding is_channel_delivery
checked_send bus env i max_attempts db id (err e) = (err (store e), db)
checked_send bus env i max_attempts db id (ok d) =
    if is_channel_delivery d
    then (err one_shot, db)
    else (if is_retryable d.status
        then post_by i max_attempts db id (adapter_for bus env d.platform)
        else (err (not_sendable d.status), db))

unfoldable pub send_delivery :
    Option Transport → Buses → SendInput → ℕ → Db → String → B SendDeliveryResult × Db
send_delivery bus env i max_attempts db id =
    checked_send bus env i max_attempts db id (get_delivery db id)

pub record PumpResult : Type 0 where
  pub processed : ℕ
  pub sent : ℕ
  pub failed : ℕ
  pub deliveries : List Delivery

-- The counts and the list of the loop, put together from behind.
pub record Tally : Type 0 where
  pub sent_count : ℕ
  pub failed_count : ℕ
  pub results : List Delivery

abbrev pub no_tally : Tally
no_tally = record { sent_count = 0; failed_count = 0; results = [] }

abbrev pub tallied : SendDeliveryResult → Tally → Tally
tallied r t =
    if r.sent
    then record t { sent_count = suc t.sent_count; results = r.delivery ∷ t.results }
    else record t { failed_count = suc t.failed_count; results = r.delivery ∷ t.results }

abbrev pub add_result : SendDeliveryResult → B Tally × Db → B Tally × Db
add_result r (ok t, db) = (ok (tallied r t), db)
add_result r (err e, db) = (err e, db)

-- An exception of a send ends the loop.
abbrev pub send_turn : B SendDeliveryResult × Db → (Db → B Tally × Db) → B Tally × Db
send_turn (ok r, db) rest = add_result r (rest db)
send_turn (err e, db) rest = (err e, db)

-- max_attempts = 3
abbrev pub default_max_attempts : ℕ
default_max_attempts = 3

abbrev pub recovery_reason : String
recovery_reason = "recovered from sending state; platform delivery may need audit"

abbrev pub pump_summary : ℕ → B Tally × Db → B PumpResult × Db
pump_summary n (ok t, db) = (
  ok (record {
    processed = n;
    sent = t.sent_count;
    failed = t.failed_count;
    deliveries = t.results;
  }),
  db,
)
pump_summary n (err e, db) = (err e, db)

-- Rows of platform `none` are left out when no platform is given.
abbrev pub in_scope : Option String → Delivery → Bool
in_scope none d = not (d.platform == "none")
in_scope (some p) d = true

unfoldable pub retryable_deliveries : Db → Option String → List Delivery
unfolding is_channel_delivery
retryable_deliveries db platform = select (in_scope platform) (
    select (λ d. not (is_channel_delivery d))
      (list_deliveries db (some pending) platform none
        ++ list_deliveries db (some failed) platform none))

module _ (bus : Option Transport) (env : Buses) (inputs : Delivery → SendInput) where
  unfoldable pub send_loop : Db → List Delivery → B Tally × Db
  send_loop db [] = (ok no_tally, db)
  send_loop db (d ∷ rows) =
      send_turn (send_delivery bus env (inputs d) default_max_attempts db d.id)
        (λ after. send_loop after rows)

  abbrev pub pump_from : Option String → ℕ → Db → B PumpResult × Db
  unfolding send_loop
  pump_from platform limit db =
      let rows = take limit (retryable_deliveries db platform) in
      pump_summary (length rows) (send_loop db rows)

  -- if recover_sending: ..., whose exception ends the call
  abbrev pub pump_recovered :
      Option String → ℕ → Result DbError (List Delivery) × Db → B PumpResult × Db
  pump_recovered platform limit (ok rows, db) = pump_from platform limit db
  pump_recovered platform limit (err e, db) = (err (store e), db)

  -- `limit` is not negative.
  unfoldable pub pump_deliveries : Db → ℕ → Option String → ℕ → Bool → B PumpResult × Db
  pump_deliveries db now platform limit recover_sending =
      if recover_sending
      then pump_recovered platform limit
          (recover_sending_deliveries db now platform recovery_reason)
      else pump_from platform limit db
