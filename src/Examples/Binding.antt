-- ===== src/Examples/Binding.antt =====
-- The theorems on channel bindings, at one channel that is bound, released and bound anew.
use native.Mathlib.Decide.{ℕ_discrete}
use coordinate.Base.{
  String, ◌≡◌, refl, ok, some, [], ◌∷◌, string_dec_eq, nat_dec_eq, string_discrete, true,
}
use coordinate.Json.{Fields}
use coordinate.Table.{exists}
use coordinate.Text.{is_space, char_count, any_char, is_control, has_control, strip}
use coordinate.Schema.{Db, ChannelBinding}
use coordinate.Events.Log.{append_event, event_row}
use coordinate.Channels.Names.{
  normalize_channel_platform, normalize_channel_id, require_non_empty, resolve_channel_workspace,
}
use coordinate.Channels.Binding.{
  known_workspace, BindingRequest, BindingInput, bound, released, replayed, binding_receipt,
  binding_event, bound_event, released_event, new_binding, canonical_request, check_idempotency,
  bind_fresh, commit_bind, insert_binding, bind_channel_workspace, release_fresh, commit_release,
  delete_binding, release_channel_workspace,
}
use coordinate.Channels.Replay.{bind-LeadsTo}
use coordinate.Channels.Historic.{release_replayed}
use coordinate.Examples.World.{lib, world}

abbrev dumps : Fields → String
dumps _ = "{}"

abbrev ask : BindingRequest
ask = record {
  platform = "kook";
  channel_id = "7";
  workspace_id = "w";
  actor = "ann";
  reason = "r";
  idempotency_key = "k1";
}

abbrev leave : BindingRequest
leave = record ask { idempotency_key = "k2" }

abbrev first : BindingInput
first = record { meanwhile = λ x. x; event_now = 1; event_id = "e1"; bound_at = 2 }

abbrev second : BindingInput
second = record { meanwhile = λ x. x; event_now = 3; event_id = "e2"; bound_at = 4 }

abbrev bound_db : Db
bound_db = record world {
  events = event_row 1 "e1" (binding_event bound_event ask) ∷ [];
  channel_bindings = new_binding first ask ∷ [];
}

binds :
    bind_channel_workspace dumps lib world first ask
    ≡ ok (binding_receipt ask bound (some "e1"), bound_db)
unfolding bind_channel_workspace canonical_request check_idempotency bind_fresh commit_bind
    insert_binding normalize_channel_platform normalize_channel_id require_non_empty append_event
    strip is_space char_count has_control any_char is_control string_discrete ℕ_discrete
binds = refl

bind-LeadsTo_example :
    (b : ChannelBinding) × (resolve_channel_workspace lib bound_db "kook" "7" ≡ ok (some b))
    × (b.workspace_id ≡ ask.workspace_id)
bind-LeadsTo_example =
    bind-LeadsTo dumps lib world first ask (binding_receipt ask bound (some "e1")) bound_db binds tt

abbrev released_db : Db
released_db = record bound_db {
  events =
      event_row 1 "e1" (binding_event bound_event ask)
      ∷ event_row 3 "e2" (binding_event released_event leave)
      ∷ [];
  channel_bindings = [];
}

releases :
    release_channel_workspace dumps lib bound_db second leave
    ≡ ok (binding_receipt leave released (some "e2"), released_db)
unfolding release_channel_workspace canonical_request check_idempotency release_fresh commit_release
    delete_binding normalize_channel_platform normalize_channel_id require_non_empty append_event
    strip is_space char_count has_control any_char is_control string_discrete ℕ_discrete
releases = refl

-- The channel bound once more, to the same workspace.
abbrev rebound_db : Db
rebound_db = record released_db { channel_bindings = new_binding second ask ∷ [] }

known : exists (known_workspace "w") rebound_db.workspaces ≡ true
unfolding string_discrete
known = refl

release_replayed_example :
    release_channel_workspace dumps lib rebound_db first leave
    ≡ ok (binding_receipt leave replayed (some "e2"), rebound_db)
release_replayed_example =
    release_replayed dumps lib bound_db rebound_db second first leave
      (binding_receipt leave released (some "e2")) released_db releases refl refl known
