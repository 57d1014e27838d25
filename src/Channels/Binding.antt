-- ===== src/Channels/Binding.antt =====
-- `bind_channel_workspace` and `release_channel_workspace` of db.py. The checks read the database
-- before the transaction: `meanwhile` is what the other connections commit in between. The receipt of
-- a failed call is an error, and the transaction is rolled back. `dumps` stands for `json.dumps`, by
-- which stored payloads are compared.
use coordinate.Base.{
  ℕ, String, Bool, not, ◌&&◌, Option, none, some, [], ◌∷◌, ◌++◌, ◌==◌, nat_dec_eq, string_dec_eq,
  if◌then◌else◌, Result, ok, err, ◌>>=◌, ◌>>◌, guard, false,
}
use coordinate.Json.{Fields, end, field, text}
use coordinate.Table.{find?, select, count_where, exists, is_some}
use coordinate.Schema.{Db, Event, Workspace, ChannelBinding}
use coordinate.Resources.{Platform}
use coordinate.Events.Log.{DbError, integrity, NewEvent, append_event, has_key}
use coordinate.Channels.Names.{
  R, unknown_workspace, key_conflict, bound_elsewhere, other_workspace, changed_concurrently,
  store_failed, normalize_channel_platform, normalize_channel_id, require_non_empty,
  canonical_channel_target, of_channel,
}

-- The keyword arguments; `workspace_id` is the expected one of a release.
pub record BindingRequest : Type 0 where
  pub platform : String
  pub channel_id : String
  pub workspace_id : String
  pub actor : String
  pub reason : String
  pub idempotency_key : String

pub record BindingInput : Type 0 where
  pub meanwhile : Db → Db
  pub event_now : ℕ
  pub event_id : String
  pub bound_at : ℕ

pub data BindingStatus : Type 0 where
  bound already_bound released already_unbound replayed : BindingStatus

pub record BindingReceipt : Type 0 where
  pub platform : String
  pub channel_id : String
  pub workspace_id : String
  pub target : String
  pub idempotency_key : String
  pub status : BindingStatus
  pub event_id : Option String

abbrev pub known_workspace : String → Workspace → Bool
known_workspace id w = w.id == id

abbrev pub from_db : {A : Type 0} → Result DbError A → R A
from_db (ok a) = ok a
from_db (err e) = err (store_failed e)

abbrev pub target_of : BindingRequest → String
target_of c = canonical_channel_target c.platform c.channel_id

abbrev pub binding_payload : BindingRequest → Fields
binding_payload c = field "platform" (text c.platform) (
    field "channel_id" (text c.channel_id)
      (field "workspace_id" (text c.workspace_id) (field "reason" (text c.reason) end)))

abbrev pub binding_event : String → BindingRequest → NewEvent
binding_event event_type c = record {
  event_type = event_type;
  actor = c.actor;
  workspace_id = some c.workspace_id;
  target = some (target_of c);
  task_id = none;
  causation_id = none;
  idempotency_key = some c.idempotency_key;
  payload = binding_payload c;
}

abbrev pub binding_receipt : BindingRequest → BindingStatus → Option String → BindingReceipt
binding_receipt c s event_id = record {
  platform = c.platform;
  channel_id = c.channel_id;
  workspace_id = c.workspace_id;
  target = target_of c;
  idempotency_key = c.idempotency_key;
  status = s;
  event_id = event_id;
}

abbrev pub bound_event : String
bound_event = "channel.binding.bound"

abbrev pub released_event : String
released_event = "channel.binding.released"

abbrev pub is_text : Option String → String → Bool
is_text none s = false
is_text (some t) s = t == s

abbrev pub new_binding : BindingInput → BindingRequest → ChannelBinding
new_binding i c = record {
  platform = c.platform;
  channel_id = c.channel_id;
  workspace_id = c.workspace_id;
  bound_at = i.bound_at;
}

-- The answer of a transaction that is committed.
abbrev pub with_receipt : BindingRequest → BindingStatus → String → R Db → R (BindingReceipt × Db)
with_receipt c s event_id (ok after) = ok (binding_receipt c s (some event_id), after)
with_receipt c s event_id (err e) = err e

module _ (dumps : Fields → String) where
  abbrev pub event_matches : String → BindingRequest → Event → Bool
  event_matches event_type c e =
      e.event_type == event_type
      && is_text e.workspace_id c.workspace_id
      && is_text e.target (target_of c)
      && dumps e.payload == dumps (binding_payload c)

  unfoldable pub check_idempotency : Db → String → BindingRequest → R (Option Event)
  check_idempotency db event_type c = elim (find? (has_key c.idempotency_key) db.events) [
    | none ↦ ok none
    | some e ↦ if event_matches event_type c e then ok (some e) else err key_conflict
  ]

  -- An event that `append_event` found and did not create: a mutation that came first.
  unfoldable pub replay_winner : Db → String → BindingRequest → Event → R (BindingReceipt × Db)
  replay_winner db event_type c e =
      if event_matches event_type c e
      then ok (binding_receipt c replayed (some e.id), db)
      else err key_conflict

  -- The rows that the INSERT would conflict with are looked for as SQLite does.
  unfoldable pub insert_binding : Db → BindingInput → BindingRequest → R Db
  insert_binding db i c = do
    guard (not (is_some (find? (of_channel c.platform c.channel_id) db.channel_bindings)))
        (store_failed integrity)
    guard (exists (known_workspace c.workspace_id) db.workspaces) (store_failed integrity)
    ok (record db { channel_bindings = db.channel_bindings ++ new_binding i c ∷ [] })

  unfoldable pub commit_bind : Db → BindingInput → BindingRequest → R (BindingReceipt × Db)
  commit_bind db i c = do
    (event, logged) ← from_db (append_event db i.event_now i.event_id (binding_event bound_event c))
    if event.created
        then with_receipt c bound event.row.id (insert_binding logged i c)
        else replay_winner logged bound_event c event.row

  -- DELETE ... WHERE platform = ? AND channel_id = ? AND workspace_id = ?
  abbrev pub held_binding : BindingRequest → ChannelBinding → Bool
  held_binding c b = of_channel c.platform c.channel_id b && b.workspace_id == c.workspace_id

  unfoldable pub delete_binding : Db → BindingRequest → R Db
  delete_binding db c = do
    guard (count_where (held_binding c) db.channel_bindings == 1) changed_concurrently
    ok (record db { channel_bindings = select (λ b. not (held_binding c b)) db.channel_bindings })

  unfoldable pub commit_release : Db → BindingInput → BindingRequest → R (BindingReceipt × Db)
  commit_release db i c = do
    (event, logged) ←
        from_db (append_event db i.event_now i.event_id (binding_event released_event c))
    if event.created
        then with_receipt c released event.row.id (delete_binding logged c)
        else replay_winner logged released_event c event.row

  -- With a fresh key.
  unfoldable pub bind_fresh : Db → BindingInput → BindingRequest → R (BindingReceipt × Db)
  unfolding commit_bind
  bind_fresh db i c = elim (find? (of_channel c.platform c.channel_id) db.channel_bindings) [
    | none ↦ commit_bind (i.meanwhile db) i c
    | some b ↦
        if b.workspace_id == c.workspace_id
        then ok (binding_receipt c already_bound none, db)
        else err bound_elsewhere
  ]

  unfoldable pub release_fresh : Db → BindingInput → BindingRequest → R (BindingReceipt × Db)
  unfolding commit_release
  release_fresh db i c = elim (find? (of_channel c.platform c.channel_id) db.channel_bindings) [
    | none ↦ ok (binding_receipt c already_unbound none, db)
    | some b ↦
        if b.workspace_id == c.workspace_id
        then commit_release (i.meanwhile db) i c
        else err other_workspace
  ]

  abbrev pub answer_prior :
      BindingRequest → Db → Option Event → R (BindingReceipt × Db) → R (BindingReceipt × Db)
  answer_prior c db (some e) fresh = ok (binding_receipt c replayed (some e.id), db)
  answer_prior c db none fresh = fresh

  module _ (lib : Platform) where
    -- The arguments in canonical form, for a workspace that exists.
    unfoldable pub canonical_request : Db → BindingRequest → R BindingRequest
    canonical_request db q = do
      platform ← normalize_channel_platform lib q.platform
      channel_id ← normalize_channel_id q.channel_id
      workspace_id ← require_non_empty q.workspace_id
      actor ← require_non_empty q.actor
      reason ← require_non_empty q.reason
      key ← require_non_empty q.idempotency_key
      guard (exists (known_workspace workspace_id) db.workspaces) unknown_workspace
      ok (record {
        platform = platform;
        channel_id = channel_id;
        workspace_id = workspace_id;
        actor = actor;
        reason = reason;
        idempotency_key = key;
      })

    unfoldable pub bind_channel_workspace :
        Db → BindingInput → BindingRequest → R (BindingReceipt × Db)
    bind_channel_workspace db i q = do
      c ← canonical_request db q
      prior ← check_idempotency db bound_event c
      answer_prior c db prior (bind_fresh db i c)

    unfoldable pub release_channel_workspace :
        Db → BindingInput → BindingRequest → R (BindingReceipt × Db)
    release_channel_workspace db i q = do
      c ← canonical_request db q
      prior ← check_idempotency db released_event c
      answer_prior c db prior (release_fresh db i c)
