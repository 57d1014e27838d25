-- ===== src/Channels/Releasing.antt =====
-- The event that a release leaves behind when it is carried out (`release_channel_workspace` of db.py).
use coordinate.Base.{
  ℕ, String, true, false, ◌≡◌, refl, sym, ap, ◌∙◌, Option, none, some, Result, ok, err, >>=-eq-ok,
  Bool-cases, Option-cases, inl, inr, arith, string_dec_eq, ==_refl, if◌then◌else◌,
}
use coordinate.Json.{Fields}
use coordinate.Text.{is_empty}
use coordinate.Table.{find?, find?-append_new}
use coordinate.Schema.{Db, Event}
use coordinate.Events.Log.{AppendEventResult, append_event, event_row, has_key, DbError}
use coordinate.Events.Idempotency.{append_event-cases}
use coordinate.Channels.Names.{R, require_non_empty, of_channel}
use coordinate.Channels.Binding.{
  BindingRequest, BindingInput, BindingReceipt, released, replayed, binding_receipt, binding_event,
  released_event, event_matches, delete_binding, commit_release, release_fresh, from_db,
  replay_winner, answer_prior, with_receipt, already_unbound, target_of, binding_payload,
}

-- An event that a created call has put into the log is found by its key.
created_event :
    (db : Db) (now : ℕ) (id : String) (c : BindingRequest) (event : AppendEventResult) (after : Db)
    → is_empty c.idempotency_key ≡ false
    → append_event db now id (binding_event released_event c) ≡ ok (event, after)
    → event.created ≡ true
    → (event.row ≡ event_row now id (binding_event released_event c))
      × (find? (has_key c.idempotency_key) after.events ≡ some event.row)
created_event db now id c event after given h made =
    elim (append_event-cases db now id (binding_event released_event c) event after h) [
      | inl (free, is, rows) ↦
          let row = event_row now id (binding_event released_event c) in
          let fresh : find? (has_key c.idempotency_key) db.events ≡ none = ground arith in
          (
            ap (λ (x : AppendEventResult). x.row) is,
            ap (λ (d : Db). find? (has_key c.idempotency_key) d.events) rows
                ∙ find?-append_new (has_key c.idempotency_key) db.events row fresh
                    (ground (arith, ==_refl c.idempotency_key))
                ∙ ap (λ (x : AppendEventResult). some x.row) (sym is),
          )
      | inr (_, old, _) ↦ cc
    ]

pub require_non_empty-given : (s t : String) → require_non_empty s ≡ ok t → is_empty t ≡ false
unfolding require_non_empty
require_non_empty-given s t h = ground arith

module _ (dumps : Fields → String) where
  own_event :
      (now : ℕ) (id : String) (c : BindingRequest)
      → event_matches dumps released_event c (event_row now id (binding_event released_event c))
        ≡ true
  own_event now id c = ground (
    arith,
    ==_refl released_event,
    ==_refl c.workspace_id,
    ==_refl (target_of c),
    ==_refl (dumps (binding_payload c)),
  )

  delete_binding-events :
      (db : Db) (c : BindingRequest) (after : Db)
      → delete_binding dumps db c ≡ ok after
      → after.events ≡ db.events
  unfolding delete_binding
  delete_binding-events db c after h = ground arith

  -- The event of a release that was carried out.
  pub record Carried (c : BindingRequest) (r : BindingReceipt) (after : Db) : Type 0 where
    pub event : Event
    pub logged : find? (has_key c.idempotency_key) after.events ≡ some event
    pub matches : event_matches dumps released_event c event ≡ true
    pub reply : r ≡ binding_receipt c released (some event.id)

  deleted-Carried :
      (logged : Db) (c : BindingRequest) (event : Event) (r : BindingReceipt) (after : Db)
      (m : R Db)
      → find? (has_key c.idempotency_key) logged.events ≡ some event
      → event_matches dumps released_event c event ≡ true
      → delete_binding dumps logged c ≡ m
      → with_receipt c released event.id m ≡ ok (r, after)
      → Carried c r after
  deleted-Carried logged c event r after (ok d) found matches deleted h =
      let same : d ≡ after = ground arith in
      record {
        event = event;
        logged =
            ap (λ (x : Db). find? (has_key c.idempotency_key) x.events) (sym same)
            ∙ ap (find? (has_key c.idempotency_key)) (delete_binding-events logged c d deleted)
            ∙ found;
        matches = matches;
        reply = ground arith;
      }
  deleted-Carried logged c event r after (err e) found matches deleted h = absurd (ground arith)

  not_replayed :
      (db : Db) (c : BindingRequest) (e : Event) (r : BindingReceipt) (after : Db)
      → replay_winner dumps db released_event c e ≡ ok (r, after)
      → r.status ≡ released
      → ⊥
  unfolding replay_winner
  not_replayed db c e r after h is =
      let same : r ≡ binding_receipt c replayed (some e.id) = ground arith in
      let two : replayed ≡ released = ap (λ (x : BindingReceipt). x.status) (sym same) ∙ is in
      cc two

  logged-Carried :
      (db : Db) (i : BindingInput) (c : BindingRequest) (event : AppendEventResult) (logged : Db)
      (r : BindingReceipt) (after : Db)
      → is_empty c.idempotency_key ≡ false
      → append_event db i.event_now i.event_id (binding_event released_event c) ≡ ok (event, logged)
      → (if event.created
          then with_receipt c released event.row.id (delete_binding dumps logged c)
          else replay_winner dumps logged released_event c event.row)
        ≡ ok (r, after)
      → r.status ≡ released
      → Carried c r after
  logged-Carried db i c event logged r after given appended e is = elim (Bool-cases event.created) [
    | inl made ↦
        let (row, found) =
          created_event db i.event_now i.event_id c event logged given appended made in
        deleted-Carried logged c event.row r after (delete_binding dumps logged c) found
          (ap (event_matches dumps released_event c) row ∙ own_event i.event_now i.event_id c) refl
          (ground (arith, made))
    | inr found ↦ absurd (not_replayed logged c event.row r after (ground (arith, found)) is)
  ]

  from_db-ok : {A : Type 0} (m : Result DbError A) (a : A) → from_db m ≡ ok a → m ≡ ok a
  from_db-ok (ok x) a h = ground arith
  from_db-ok (err x) a h = absurd (ground arith)

  commit_release-Carried :
      (db : Db) (i : BindingInput) (c : BindingRequest) (r : BindingReceipt) (after : Db)
      → is_empty c.idempotency_key ≡ false
      → commit_release dumps db i c ≡ ok (r, after)
      → r.status ≡ released
      → Carried c r after
  unfolding commit_release
  commit_release-Carried db i c r after given e is =
      let ((event, logged), appended, rest) =
        >>=-eq-ok
          (from_db (append_event db i.event_now i.event_id (binding_event released_event c))) _ e in
      logged-Carried db i c event logged r after given
        (from_db-ok (append_event db i.event_now i.event_id (binding_event released_event c))
          (event, logged) appended)
        rest is

  release_fresh-Carried :
      (db : Db) (i : BindingInput) (c : BindingRequest) (r : BindingReceipt) (after : Db)
      → is_empty c.idempotency_key ≡ false
      → release_fresh dumps db i c ≡ ok (r, after)
      → r.status ≡ released
      → Carried c r after
  unfolding release_fresh
  release_fresh-Carried db i c r after given e is =
      elim (Option-cases (find? (of_channel c.platform c.channel_id) db.channel_bindings)) [
        | inl free ↦
            let same : binding_receipt c already_unbound none ≡ r = ground (arith, free) in
            let two : already_unbound ≡ released =
              ap (λ (x : BindingReceipt). x.status) same ∙ is in
            cc two
        | inr (b, held) ↦
            commit_release-Carried (i.meanwhile db) i c r after given (ground (arith, held)) is
      ]

  pub answered-Carried :
      (db : Db) (i : BindingInput) (c : BindingRequest) (prior : Option Event) (r : BindingReceipt)
      (after : Db)
      → is_empty c.idempotency_key ≡ false
      → answer_prior dumps c db prior (release_fresh dumps db i c) ≡ ok (r, after)
      → r.status ≡ released
      → Carried c r after
  answered-Carried db i c none r after given e is = release_fresh-Carried db i c r after given e is
  answered-Carried db i c (some x) r after given e is =
      let same : binding_receipt c replayed (some x.id) ≡ r = ground arith in
      let two : replayed ≡ released = ap (λ (y : BindingReceipt). y.status) same ∙ is in cc two
