-- ===== src/Events/Log.antt =====
-- `append_event`: an INSERT that falls back to the event with the same idempotency key.
use coordinate.Base.{
  ℕ, String, Bool, true, false, not, ◌&&◌, Option, none, some, [], ◌∷◌, ◌++◌, ◌==◌, string_dec_eq,
  if◌then◌else◌, Result, ok, err,
}
use coordinate.Text.{is_empty}
use coordinate.Json.{Fields}
use coordinate.Table.{find?, exists, is_some}
use coordinate.Schema.{Db, Event, Workspace}

-- `sqlite3.IntegrityError` that no caller turns into a result, and `KeyError`.
pub data DbError : Type 0 where
  integrity : DbError
  key_error : String → DbError

-- The keyword arguments of the call.
pub record NewEvent : Type 0 where
  pub event_type : String
  pub actor : String
  pub workspace_id : Option String
  pub target : Option String
  pub task_id : Option String
  pub causation_id : Option String
  pub idempotency_key : Option String
  pub payload : Fields

pub record AppendEventResult : Type 0 where
  pub row : Event
  pub created : Bool

-- idempotency_key or event_id
abbrev pub event_key : Option String → String → String
event_key none event_id = event_id
event_key (some k) event_id = if is_empty k then event_id else k

abbrev pub event_row : ℕ → String → NewEvent → Event
event_row now event_id e = record {
  id = event_id;
  workspace_id = e.workspace_id;
  event_type = e.event_type;
  actor = e.actor;
  target = e.target;
  task_id = e.task_id;
  causation_id = e.causation_id;
  idempotency_key = event_key e.idempotency_key event_id;
  payload = e.payload;
  created_at = now;
}

abbrev pub has_key : String → Event → Bool
has_key key x = x.idempotency_key == key

-- FOREIGN KEY(workspace_id) REFERENCES workspaces(id)
abbrev pub workspace_known : Db → Option String → Bool
workspace_known db none = true
workspace_known db (some w) = exists (λ (x : Workspace). x.id == w) db.workspaces

-- Whether the INSERT meets the primary key, the unique key and the foreign key.
abbrev pub insertable : Db → Event → Bool
insertable db x =
    not (is_some (find? (λ (y : Event). y.id == x.id) db.events))
    && not (is_some (find? (has_key x.idempotency_key) db.events))
    && workspace_known db x.workspace_id

-- The event that answers for a refused INSERT.
abbrev pub prior_event : Db → Option Event → Result DbError (AppendEventResult × Db)
prior_event db none = err integrity
prior_event db (some x) = ok (record { row = x; created = false }, db)

unfoldable pub append_event : Db → ℕ → String → NewEvent → Result DbError (AppendEventResult × Db)
append_event db now event_id e =
    let x = event_row now event_id e in
    if insertable db x
    then ok (record { row = x; created = true }, record db { events = db.events ++ x ∷ [] })
    else prior_event db (find? (has_key x.idempotency_key) db.events)
