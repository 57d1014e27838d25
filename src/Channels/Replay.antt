-- ===== src/Channels/Replay.antt =====
-- What a bound channel resolves to, and what a release that comes again answers.
use coordinate.Base.{
  String, true, ◌≡◌, refl, sym, ap, subst, Option, none, some, ok, err, >>=-eq-ok, Bool-cases,
  Option-cases, inl, inr, arith, string_dec_eq, ==_refl, if◌then◌else◌,
}
use coordinate.Json.{Fields}
use coordinate.Table.{find?, exists, find?-append_new}
use coordinate.Schema.{Db, Event, ChannelBinding}
use coordinate.Resources.{Platform}
use coordinate.Events.Log.{AppendEventResult, append_event}
use coordinate.Channels.Names.{
  normalize_channel_platform, normalize_channel_id, require_non_empty, resolve_channel_workspace,
  of_channel, R,
}
use coordinate.Channels.Binding.{
  BindingRequest, BindingInput, BindingReceipt, BindingStatus, bound, already_bound, replayed,
  binding_receipt, binding_event, bound_event, check_idempotency, insert_binding, commit_bind,
  bind_fresh, canonical_request, bind_channel_workspace, known_workspace, from_db, new_binding,
  replay_winner, answer_prior, with_receipt,
}

-- The channel of the request leads to the workspace of the receipt.
abbrev LeadsTo : BindingRequest → BindingReceipt → Db → Type 0
LeadsTo c r after =
    (b : ChannelBinding) × (find? (of_channel c.platform c.channel_id) after.channel_bindings
      ≡ some b)
    × (b.workspace_id ≡ r.workspace_id)

-- The channel of a receipt that the call's own mutation or check of the row stands behind.
abbrev IsSettled : BindingStatus → Type 0
IsSettled bound = Unit
IsSettled already_bound = Unit
IsSettled _ = ⊥

module _ (dumps : Fields → String) where
  insert_binding-LeadsTo :
      (db : Db) (i : BindingInput) (c : BindingRequest) (s : BindingStatus)
      (event_id : Option String) (after : Db)
      → insert_binding dumps db i c ≡ ok after
      → LeadsTo c (binding_receipt c s event_id) after
  unfolding insert_binding
  insert_binding-LeadsTo db i c s event_id after e = (
    new_binding i c,
    ground (
      arith,
      find?-append_new (of_channel c.platform c.channel_id) db.channel_bindings (new_binding i c),
      ==_refl c.platform,
      ==_refl c.channel_id,
    ),
    refl,
  )

  not_settled :
      (db : Db) (event_type : String) (c : BindingRequest) (e : Event) (r : BindingReceipt)
      (after : Db)
      → replay_winner dumps db event_type c e ≡ ok (r, after)
      → IsSettled r.status
      → ⊥
  unfolding replay_winner
  not_settled db event_type c e r after h settled =
      let same : r ≡ binding_receipt c replayed (some e.id) = ground arith in
      subst (λ (x : BindingReceipt). IsSettled x.status) same settled

  inserted_leads :
      (db : Db) (i : BindingInput) (c : BindingRequest) (event_id : String) (r : BindingReceipt)
      (after : Db) (m : R Db)
      → insert_binding dumps db i c ≡ m
      → with_receipt c bound event_id m ≡ ok (r, after)
      → LeadsTo c r after
  inserted_leads db i c event_id r after (ok d) inserted h =
      subst (λ (p : BindingReceipt × Db). LeadsTo c p.0 p.1)
        {x = (binding_receipt c bound (some event_id), d)} {y = (r, after)} (ground arith)
        (insert_binding-LeadsTo db i c bound (some event_id) d inserted)
  inserted_leads db i c event_id r after (err e) inserted h = absurd (ground arith)

  logged-LeadsTo :
      (logged : Db) (i : BindingInput) (c : BindingRequest) (event : AppendEventResult)
      (r : BindingReceipt) (after : Db)
      → (if event.created
          then with_receipt c bound event.row.id (insert_binding dumps logged i c)
          else replay_winner dumps logged bound_event c event.row)
        ≡ ok (r, after)
      → IsSettled r.status
      → LeadsTo c r after
  logged-LeadsTo logged i c event r after e settled = elim (Bool-cases event.created) [
    | inl made ↦
        inserted_leads logged i c event.row.id r after (insert_binding dumps logged i c) refl
          (ground (arith, made))
    | inr found ↦
        absurd (not_settled logged bound_event c event.row r after (ground (arith, found)) settled)
  ]

  commit_bind-LeadsTo :
      (db : Db) (i : BindingInput) (c : BindingRequest) (r : BindingReceipt) (after : Db)
      → commit_bind dumps db i c ≡ ok (r, after)
      → IsSettled r.status
      → LeadsTo c r after
  unfolding commit_bind
  commit_bind-LeadsTo db i c r after e settled =
      let ((event, logged), _, rest) =
        >>=-eq-ok (from_db (append_event db i.event_now i.event_id (binding_event bound_event c))) _
          e in
      logged-LeadsTo logged i c event r after rest settled

  bind_fresh-LeadsTo :
      (db : Db) (i : BindingInput) (c : BindingRequest) (r : BindingReceipt) (after : Db)
      → bind_fresh dumps db i c ≡ ok (r, after)
      → IsSettled r.status
      → LeadsTo c r after
  unfolding bind_fresh
  bind_fresh-LeadsTo db i c r after e settled =
      elim (Option-cases (find? (of_channel c.platform c.channel_id) db.channel_bindings)) [
        | inl free ↦ commit_bind-LeadsTo (i.meanwhile db) i c r after (ground (arith, free)) settled
        | inr (b, held) ↦
            let ours : b.workspace_id ≡ c.workspace_id = ground (arith, held) in
            let same : (binding_receipt c already_bound none, db) ≡ (r, after) =
              ground (arith, held) in
            subst (λ (p : BindingReceipt × Db). LeadsTo c p.0 p.1) same (b, held, ours)
      ]

  module _ (lib : Platform) where
    -- What the canonical form keeps of the arguments.
    pub canonical-names :
        (db : Db) (q c : BindingRequest)
        → canonical_request dumps lib db q ≡ ok c
        → (normalize_channel_platform lib q.platform ≡ ok c.platform)
          × (normalize_channel_id q.channel_id ≡ ok c.channel_id)
          × (require_non_empty q.idempotency_key ≡ ok c.idempotency_key)
          × (exists (known_workspace c.workspace_id) db.workspaces ≡ true)
    unfolding canonical_request
    canonical-names db q c e = (ground arith, ground arith, ground arith, ground arith)

    answered-LeadsTo :
        (db : Db) (i : BindingInput) (c : BindingRequest) (prior : Option Event)
        (r : BindingReceipt) (after : Db)
        → answer_prior dumps c db prior (bind_fresh dumps db i c) ≡ ok (r, after)
        → IsSettled r.status
        → LeadsTo c r after
    answered-LeadsTo db i c none r after e settled = bind_fresh-LeadsTo db i c r after e settled
    answered-LeadsTo db i c (some x) r after e settled =
        let same : binding_receipt c replayed (some x.id) ≡ r = ground arith in
        absurd (subst (λ (y : BindingReceipt). IsSettled y.status) (sym same) settled)

    -- When a channel was bound, or was found bound to the workspace, it resolves to the workspace of
    -- the receipt.
    pub bind-LeadsTo :
        (db : Db) (i : BindingInput) (q : BindingRequest) (r : BindingReceipt) (after : Db)
        → bind_channel_workspace dumps lib db i q ≡ ok (r, after)
        → IsSettled r.status
        → (b : ChannelBinding) × (resolve_channel_workspace lib after q.platform q.channel_id
            ≡ ok (some b))
          × (b.workspace_id ≡ r.workspace_id)
    unfolding bind_channel_workspace resolve_channel_workspace
    bind-LeadsTo db i q r after e settled =
        let (c, canon, e₁) = >>=-eq-ok (canonical_request dumps lib db q) _ e in
        let (prior, checked, e₂) = >>=-eq-ok (check_idempotency dumps db bound_event c) _ e₁ in
        let (platform, channel, _, _) = canonical-names db q c canon in
        let (b, leads, ours) = answered-LeadsTo db i c prior r after e₂ settled in
        (b, rw (platform, channel) (ap ok leads), ours)
