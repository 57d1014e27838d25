-- ===== src/Channels/Historic.antt =====
-- A release that comes again, after the channel may have been bound anew.
use coordinate.Base.{
  String, true, ◌≡◌, refl, sym, ap, ◌∙◌, subst, some, ok, >>=-eq-ok, arith, string_dec_eq,
}
use coordinate.Json.{Fields}
use coordinate.Table.{find?, exists}
use coordinate.Schema.{Db, Event}
use coordinate.Resources.{Platform}
use coordinate.Events.Log.{has_key}
use coordinate.Channels.Replay.{canonical-names}
use coordinate.Channels.Binding.{
  BindingRequest, BindingInput, BindingReceipt, released, replayed, binding_receipt, released_event,
  event_matches, check_idempotency, canonical_request, release_channel_workspace, known_workspace,
}
use coordinate.Channels.Releasing.{require_non_empty-given, answered-Carried}

module _ (dumps : Fields → String) where
  check_idempotency-matching :
      (db : Db) (c : BindingRequest) (event : Event)
      → find? (has_key c.idempotency_key) db.events ≡ some event
      → event_matches dumps released_event c event ≡ true
      → check_idempotency dumps db released_event c ≡ ok (some event)
  unfolding check_idempotency
  check_idempotency-matching db c event found matches = ground arith

  module _ (lib : Platform) where
    -- The same arguments have the same canonical form wherever the workspace exists.
    canonical_request-elsewhere :
        (db later : Db) (q c : BindingRequest)
        → canonical_request dumps lib db q ≡ ok c
        → exists (known_workspace c.workspace_id) later.workspaces ≡ true
        → canonical_request dumps lib later q ≡ ok c
    unfolding canonical_request
    canonical_request-elsewhere db later q c e known = ground arith

    again :
        (db later : Db) (i' : BindingInput) (q c : BindingRequest) (event : Event)
        → canonical_request dumps lib db q ≡ ok c
        → event_matches dumps released_event c event ≡ true
        → find? (has_key c.idempotency_key) later.events ≡ some event
        → exists (known_workspace c.workspace_id) later.workspaces ≡ true
        → release_channel_workspace dumps lib later i' q
          ≡ ok (binding_receipt c replayed (some event.id), later)
    unfolding release_channel_workspace
    again db later i' q c event canon matches found known =
        rw
          (
            canonical_request-elsewhere db later q c canon known,
            check_idempotency-matching later c event found matches,
          )
          refl

    -- When a release was carried out, the same request at any later time, on a database where the
    -- event of its key is still the one found and its workspace still exists, is answered as replayed
    -- with the event of the release and changes nothing, whatever the channel is bound to by then.
    pub release_replayed :
        (db later : Db) (i i' : BindingInput) (q : BindingRequest) (r : BindingReceipt) (after : Db)
        → release_channel_workspace dumps lib db i q ≡ ok (r, after)
        → r.status ≡ released
        → find? (has_key r.idempotency_key) later.events
          ≡ find? (has_key r.idempotency_key) after.events
        → exists (known_workspace r.workspace_id) later.workspaces ≡ true
        → release_channel_workspace dumps lib later i' q
          ≡ ok (record r { status = replayed }, later)
    unfolding release_channel_workspace
    release_replayed db later i i' q r after e is kept known =
        let (c, canon, e₁) = >>=-eq-ok (canonical_request dumps lib db q) _ e in
        let (prior, _, e₂) = >>=-eq-ok (check_idempotency dumps db released_event c) _ e₁ in
        let (_, _, key, _) = canonical-names dumps lib db q c canon in
        let given = require_non_empty-given q.idempotency_key c.idempotency_key key in
        let done = answered-Carried dumps db i c prior r after given e₂ is in
        let key_of : r.idempotency_key ≡ c.idempotency_key =
          ap (λ (x : BindingReceipt). x.idempotency_key) done.reply in
        let home_of : r.workspace_id ≡ c.workspace_id =
          ap (λ (x : BindingReceipt). x.workspace_id) done.reply in
        again db later i' q c done.event canon done.matches
          (subst (λ k. find? (has_key k) later.events ≡ find? (has_key k) after.events) key_of kept
            ∙ done.logged)
          (subst (λ w. exists (known_workspace w) later.workspaces ≡ true) home_of known)
        ∙ ap (λ (x : BindingReceipt). ok (record x { status = replayed }, later)) (sym done.reply)
