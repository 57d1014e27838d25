-- ===== src/Deliveries/Ledger.antt =====
-- The delivery table of db.py: `create_delivery`, `get_delivery`, `list_deliveries`, the marks and
-- `recover_sending_deliveries`. The two statements of one mark see the same database. A failed
-- call writes nothing.
use coordinate.Base.{
  ℕ, ◌+◌, String, Bool, true, false, not, ◌&&◌, ◌||◌, Option, none, some, List, [], ◌∷◌, ◌++◌, ◌==◌,
  string_dec_eq, if◌then◌else◌, Result, ok, err, ◌>>=◌, require,
}
use coordinate.Text.{is_empty}
use coordinate.Json.{Json, Fields, get, text}
use coordinate.Table.{find?, select, update, is_some}
use coordinate.Schema.{Db, Event, Delivery, DeliveryStatus, pending, sending, sent, failed, dead}
use coordinate.Events.Log.{DbError, integrity, key_error}

pub record NewDelivery : Type 0 where
  pub platform : String
  pub destination : String
  pub message_key : String
  pub payload : Fields
  pub event_id : Option String

abbrev pub has_id : String → Delivery → Bool
has_id id d = d.id == id

abbrev pub has_message_key : String → Delivery → Bool
has_message_key key d = d.message_key == key

abbrev pub delivery_row : ℕ → String → NewDelivery → Delivery
delivery_row now id n = record {
  id = id;
  event_id = n.event_id;
  platform = n.platform;
  destination = n.destination;
  message_key = n.message_key;
  status = pending;
  platform_message_id = none;
  attempt_count = 0;
  last_error = none;
  payload = n.payload;
  created_at = now;
  updated_at = now;
}

abbrev pub get_event : Db → String → Result DbError Event
get_event db id = require (find? (λ (e : Event). e.id == id) db.events) (key_error id)

-- if event_id is not None: get_event(conn, event_id)
abbrev pub known_event : Db → Option String → Result DbError (Unit {0})
known_event db none = ok tt
known_event db (some id) = get_event db id >>= λ _. ok tt

-- The row that answers for a refused INSERT.
abbrev pub prior_delivery : Db → Option Delivery → Result DbError ((Delivery × Bool) × Db)
prior_delivery db none = err integrity
prior_delivery db (some d) = ok ((d, false), db)

-- The primary key and the unique message key. The foreign key was looked up before.
abbrev pub deliverable : Db → Delivery → Bool
deliverable db d =
    not (is_some (find? (has_id d.id) db.deliveries))
    && not (is_some (find? (has_message_key d.message_key) db.deliveries))

unfoldable pub create_delivery :
    Db → ℕ → String → NewDelivery → Result DbError ((Delivery × Bool) × Db)
create_delivery db now id n = known_event db n.event_id >>= λ _.
    let d = delivery_row now id n in
    if deliverable db d
    then ok ((d, true), record db { deliveries = db.deliveries ++ d ∷ [] })
    else prior_delivery db (find? (has_message_key d.message_key) db.deliveries)

unfoldable pub get_delivery : Db → String → Result DbError Delivery
get_delivery db id = require (find? (has_id id) db.deliveries) (key_error id)

pub data DeliveryType : Type 0 where
  dry_run live : DeliveryType

abbrev pub same_status : DeliveryStatus → DeliveryStatus → Bool
same_status pending pending = true
same_status sending sending = true
same_status sent sent = true
same_status failed failed = true
same_status dead dead = true
same_status _ _ = false

abbrev pub of_status : Option DeliveryStatus → Delivery → Bool
of_status none d = true
of_status (some s) d = same_status d.status s

-- if platform: platform = ?
abbrev pub of_platform : Option String → Delivery → Bool
of_platform none d = true
of_platform (some p) d = is_empty p || d.platform == p

abbrev pub is_local : Delivery → Bool
is_local d = d.platform == "stdout" && d.destination == "local"

abbrev pub of_type : Option DeliveryType → Delivery → Bool
of_type none d = true
of_type (some dry_run) d = is_local d
of_type (some live) d = not (is_local d)

unfoldable pub list_deliveries :
    Db → Option DeliveryStatus → Option String → Option DeliveryType → List Delivery
list_deliveries db status platform delivery_type =
    select (λ d. of_status status d && of_platform platform d && of_type delivery_type d)
      db.deliveries

abbrev pub sending_row : ℕ → ℕ → Delivery → Delivery
sending_row now attempts d = record d {
  status = sending;
  attempt_count = attempts;
  last_error = none;
  updated_at = now;
}

abbrev pub sent_row : ℕ → String → Delivery → Delivery
sent_row now message_id d = record d {
  status = sent;
  platform_message_id = some message_id;
  last_error = none;
  updated_at = now;
}

abbrev pub failed_row : ℕ → String → Bool → Delivery → Delivery
failed_row now error is_dead d = record d {
  status = if is_dead then dead else failed;
  last_error = some error;
  updated_at = now;
}

abbrev pub pending_row : ℕ → String → Delivery → Delivery
pending_row now reason d = record d { status = pending; last_error = some reason; updated_at = now }

-- UPDATE deliveries SET ... WHERE id = ?
abbrev pub update_delivery : Db → String → (Delivery → Delivery) → Db
update_delivery db id f = record db { deliveries = update (has_id id) f db.deliveries }

-- An UPDATE by id with the row read back.
abbrev pub marked : Db → String → (Delivery → Delivery) → Result DbError (Delivery × Db)
unfolding get_delivery
marked db id f = let after = update_delivery db id f in get_delivery after id >>= λ d. ok (d, after)

unfoldable pub mark_delivery_sending : Db → ℕ → String → Result DbError (Delivery × Db)
mark_delivery_sending db now id =
    get_delivery db id >>= λ d. marked db id (sending_row now (d.attempt_count + 1))

unfoldable pub mark_delivery_sent : Db → ℕ → String → String → Result DbError (Delivery × Db)
mark_delivery_sent db now id message_id = marked db id (sent_row now message_id)

unfoldable pub mark_delivery_failed :
    Db → ℕ → String → String → Bool → Result DbError (Delivery × Db)
mark_delivery_failed db now id error is_dead = marked db id (failed_row now error is_dead)

abbrev pub is_text_value : String → Option Json → Bool
is_text_value s (some (text t)) = t == s
is_text_value s _ = false

abbrev pub channel_purpose : String
channel_purpose = "channel_io.v1"

unfoldable pub is_channel_delivery : Delivery → Bool
is_channel_delivery d = is_text_value channel_purpose (get d.payload "purpose")

-- The rows that a recovery turns back, those of the one-shot messages left out.
abbrev pub recoverable : Option String → Delivery → Bool
unfolding is_channel_delivery
recoverable platform d =
    same_status d.status sending && of_platform platform d && not (is_channel_delivery d)

-- for row in rows: UPDATE ... WHERE id = ?
abbrev pub recover_rows : ℕ → String → List Delivery → Db → Db
recover_rows now reason [] db = db
recover_rows now reason (row ∷ rows) db =
    recover_rows now reason rows (update_delivery db row.id (pending_row now reason))

-- [get_delivery(conn, row["id"]) for row in rows]
abbrev pub read_rows : Db → List Delivery → Result DbError (List Delivery)
unfolding get_delivery
read_rows db [] = ok []
read_rows db (row ∷ rows) = get_delivery db row.id >>= λ d. read_rows db rows >>= λ ds. ok (d ∷ ds)

unfoldable pub recover_sending_deliveries :
    Db → ℕ → Option String → String → Result DbError (List Delivery) × Db
recover_sending_deliveries db now platform reason =
    let rows = select (recoverable platform) db.deliveries in
    let after = recover_rows now reason rows db in (read_rows after rows, after)
