-- ===== src/Sender/Posting.antt =====
-- A message of the channel sender is posted at most once (`ChannelSender.send` of channel_delivery.py).
use Prim.Native.Nat.{◌+◌}
use coordinate.Base.{
  ◌≤◌, ◌≡◌, sym, subst, Option, none, Result-cases, ◌∙◌, some, arith, ok, ◌⊎◌, inl, inr, List, [],
  ◌∷◌,
}
use coordinate.Json.{Json}
use coordinate.Table.{length}
use coordinate.Schema.{Db}
use coordinate.Resources.{Platform}
use coordinate.Deliveries.Moves.{IsOneShot}
use coordinate.Deliveries.Steps.{Steps, start}
use coordinate.Deliveries.Once.{reserve_once, Steps-IsOneShot}
use coordinate.Sender.Input.{SendInput, Principal, parse_input, authorize, message_key_of}
use coordinate.Sender.Send.{Services, SendTimes, Sent, BusCall, by_input, send}
use coordinate.Sender.Claiming.{Posted, Outcome, send-Outcome}

-- Transactions on the outbox led to `mid` from where each of the calls was made.
pub data IsAfter (lib : Platform) (mid : Db) : List BusCall → Type 0 where
  no_call : IsAfter lib mid []
  one_more :
      {c : BusCall} {cs : List BusCall}
      → Steps lib c.seen mid
      → IsAfter lib mid cs
      → IsAfter lib mid (c ∷ cs)

module _ (s : Services) (lib : Platform) where
  head_after :
      {mid : Db} {c : BusCall} {cs : List BusCall} → IsAfter lib mid (c ∷ cs) → Steps lib c.seen mid
  head_after (one_more steps rest) = steps

  not_both :
      (mid mid' : Db) (q q' : SendInput) (p p' : Principal) (o o' : Sent)
      → IsOneShot mid.deliveries
      → message_key_of s.sha q' p'.actor ≡ message_key_of s.sha q p.actor
      → (a : Posted s lib mid q p o) → Steps lib a.call.seen mid'
      → Posted s lib mid' q' p' o'
      → ⊥
  not_both mid mid' q q' p p' o o' one same a steps b =
      let (idle, _, _, _, _) =
        reserve_once lib mid a.call.seen mid' b.call.seen a.input b.input a.request b.request
          a.reservation b.reservation one a.reserves a.claimed steps b.reserves
          (b.key ∙ same ∙ sym a.key) in
      cc (idle, b.claimed)

  in_order :
      (t t' : SendTimes) (db later : Db) (q q' : SendInput) (p p' : Principal) (o o' : Sent)
      → Steps lib db (t.before_reserve db)
      → IsOneShot db.deliveries
      → message_key_of s.sha q' p'.actor ≡ message_key_of s.sha q p.actor
      → Outcome s lib t db q p o
      → Outcome s lib t' later q' p' o'
      → IsAfter lib (t'.before_reserve later) o.calls
      → length o.calls + length o'.calls ≤ 1
  in_order t t' db later q q' p p' o o' early one same a b order = elim a.calls [
    | inl quiet ↦ elim b.calls [
      | inl quiet' ↦ rw (quiet, quiet') (omega arith)
      | inr y ↦ rw (quiet, y.once) (omega arith)
    ]
    | inr x ↦ elim b.calls [
      | inl quiet' ↦ rw (x.once, quiet') (omega arith)
      | inr y ↦ absurd (
          not_both (t.before_reserve db) (t'.before_reserve later) q q' p p' o o'
            (Steps-IsOneShot lib db (t.before_reserve db) one early) same x
            (head_after (subst (IsAfter lib (t'.before_reserve later)) x.once order)) y)
    ]
  ]

  -- Two sends of inputs that are read, with the same message key, call the bus at most once together.
  -- Either may reserve first, also while the other is still posting: the condition is that the
  -- database on which one of them reserves comes by transactions on the outbox from the one that
  -- each call of the other saw. Each send begins on an outbox where every channel message is posted
  -- at most once, and other connections commit only transactions on the outbox before it reserves.
  -- The key is that of the actor, the workspace, the platform, the channel and the send key.
  pub send_once :
      (t t' : SendTimes) (db later : Db) (input input' : Json) (p p' : Principal) (q q' : SendInput)
      → Steps lib db (t.before_reserve db)
      → Steps lib later (t'.before_reserve later)
      → IsOneShot db.deliveries
      → IsOneShot later.deliveries
      → parse_input input ≡ ok q
      → parse_input input' ≡ ok q'
      → message_key_of s.sha q' p'.actor ≡ message_key_of s.sha q p.actor
      → IsAfter lib (t'.before_reserve later) (send s lib db t input (some p)).calls
        ⊎ IsAfter lib (t.before_reserve db) (send s lib later t' input' (some p')).calls
      → length (send s lib db t input (some p)).calls
          + length (send s lib later t' input' (some p')).calls
        ≤ 1
  send_once t t' db later input input' p p' q q' early early' one one' reads reads' same order =
      let a = send-Outcome s lib t db input p q reads in
      let b = send-Outcome s lib t' later input' p' q' reads' in
      elim order [
        | inl behind ↦ in_order t t' db later q q' p p' _ _ early one same a b behind
        | inr before ↦
            omega (arith, in_order t' t later db q' q p' p _ _ early' one' (sym same) b a before)
      ]

  -- What a send commits is a sequence of transactions on the outbox, whatever the input is and
  -- whatever it answers, when what the other connections commit during it is one.
  pub send-Steps :
      (t : SendTimes) (db : Db) (input : Json) (o : Option Principal)
      → ((x : Db) → Steps lib x (t.before_reserve x))
      → ((x : Db) → Steps lib x (t.during_post x))
      → Steps lib db (send s lib db t input o).db
  unfolding send parse_input authorize
  send-Steps t db input none early late = start
  send-Steps t db input (some p) early late = elim (Result-cases (parse_input input)) [
    | inl (q, reads) ↦ (send-Outcome s lib t db input p q reads).steps early late
    | inr (e, refused) ↦ subst (λ m. Steps lib db (by_input s lib db t p m).db) (sym refused) start
  ]
