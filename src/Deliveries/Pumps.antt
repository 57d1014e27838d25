-- ===== src/Deliveries/Pumps.antt =====
-- A pump (`pump_deliveries` of bus.py) as a sequence of the outbox's transactions.
use coordinate.Base.{
  ℕ, String, ◌≡◌, refl, subst, ap, ◌∙◌, Bool, true, false, Option, List, [], ◌∷◌, Result, ok, err,
}
use coordinate.Table.{take, length}
use coordinate.Schema.{Db, Delivery}
use coordinate.Resources.{Platform}
use coordinate.Events.Log.{DbError}
use coordinate.Deliveries.Ledger.{recover_sending_deliveries}
use coordinate.Deliveries.Bus.{
  Transport, Buses, SendInput, SendDeliveryResult, B, send_delivery, Tally, add_result, send_turn,
  send_loop, retryable_deliveries, pump_from, pump_recovered, pump_deliveries, PumpResult,
  pump_summary, recovery_reason, default_max_attempts,
}
use coordinate.Deliveries.Moves.{IsOneShot, Moves-IsOneShot}
use coordinate.Deliveries.Steps.{recovered, Steps, start, onward}
use coordinate.Deliveries.Once.{Steps-Moves}
use coordinate.Deliveries.Sends.{Steps-append, send_delivery-Steps}

module _ (lib : Platform) where
  module _ (bus : Option Transport) (env : Buses) (inputs : Delivery → SendInput)
      (others : (d : Delivery) (x : Db) → Steps lib x ((inputs d).meanwhile x)) where
    turn-Steps :
        (o : B SendDeliveryResult × Db) (rest : Db → B Tally × Db) (res : B Tally) (after : Db)
        → ((res : B Tally) (after : Db) → rest o.1 ≡ (res, after) → Steps lib o.1 after)
        → send_turn o rest ≡ (res, after)
        → Steps lib o.1 after
    turn-Steps (ok r, db) rest res after inner h = tallied_steps (rest db) inner h
      where
        tallied_steps :
            (m : B Tally × Db)
            → ((res : B Tally) (after : Db) → m ≡ (res, after) → Steps lib db after)
            → add_result r m ≡ (res, after)
            → Steps lib db after
        tallied_steps (ok t, x) inner h =
            subst (Steps lib db) (ap (λ (p : B Tally × Db). p.1) h) (inner (ok t) x refl)
        tallied_steps (err e, x) inner h =
            subst (Steps lib db) (ap (λ (p : B Tally × Db). p.1) h) (inner (err e) x refl)
    turn-Steps (err e, db) rest res after inner h =
        subst (Steps lib db) (ap (λ (p : B Tally × Db). p.1) h) start

    send_loop-Steps :
        (rows : List Delivery) (db : Db) (res : B Tally) (after : Db)
        → IsOneShot db.deliveries
        → send_loop bus env inputs db rows ≡ (res, after)
        → Steps lib db after
    unfolding send_loop
    send_loop-Steps [] db res after one h =
        subst (Steps lib db) (ap (λ (p : B Tally × Db). p.1) h) start
    send_loop-Steps (d ∷ rows) db res after one h =
        let o = send_delivery bus env (inputs d) default_max_attempts db d.id in
        let first =
          send_delivery-Steps lib (inputs d) (others d) bus env default_max_attempts db d.id o.0 o.1
            one refl in
        let one' = Moves-IsOneShot (Steps-Moves lib one first) one in
        Steps-append lib first (
          turn-Steps o (λ x. send_loop bus env inputs x rows) res after
            (λ res after e. send_loop-Steps rows o.1 res after one' e) h)

    pump_from-Steps :
        (platform : Option String) (limit : ℕ) (db : Db) (res : B PumpResult) (after : Db)
        → IsOneShot db.deliveries
        → pump_from bus env inputs platform limit db ≡ (res, after)
        → Steps lib db after
    unfolding send_loop
    pump_from-Steps platform limit db res after one h =
        let rows = take limit (retryable_deliveries db platform) in
        let m = send_loop bus env inputs db rows in
        subst (Steps lib db) (summary_db (length rows) m ∙ ap (λ (p : B PumpResult × Db). p.1) h)
          (send_loop-Steps rows db m.0 m.1 one refl)
      where
        summary_db : (n : ℕ) (m : B Tally × Db) → m.1 ≡ (pump_summary n m).1
        summary_db n (ok t, x) = refl
        summary_db n (err e, x) = refl

    recovered-Steps :
        (now : ℕ) (platform : Option String) (limit : ℕ) (db : Db)
        (m : Result DbError (List Delivery) × Db) (res : B PumpResult) (after : Db)
        → IsOneShot db.deliveries
        → recover_sending_deliveries db now platform recovery_reason ≡ m
        → pump_recovered bus env inputs platform limit m ≡ (res, after)
        → Steps lib db after
    recovered-Steps now platform limit db (ok rows, x) res after one m h =
        let first : Steps lib db x =
          onward start (recovered now platform recovery_reason (ok rows) m) in
        Steps-append lib first (
          pump_from-Steps platform limit x res after
            (Moves-IsOneShot (Steps-Moves lib one first) one) h)
    recovered-Steps now platform limit db (err e, x) res after one m h =
        subst (Steps lib db) (ap (λ (p : B PumpResult × Db). p.1) h)
          (onward start (recovered now platform recovery_reason (err e) m))

    -- On an outbox where every channel message is posted at most once, a pump, whatever it returns, is
    -- a sequence of the outbox's transactions, when what the other connections commit during each
    -- transport call is one.
    pub pump_deliveries-Steps :
        (db : Db) (now : ℕ) (platform : Option String) (limit : ℕ) (recover : Bool)
        (res : B PumpResult) (after : Db)
        → IsOneShot db.deliveries
        → pump_deliveries bus env inputs db now platform limit recover ≡ (res, after)
        → Steps lib db after
    unfolding pump_deliveries
    pump_deliveries-Steps db now platform limit true res after one h =
        recovered-Steps now platform limit db
          (recover_sending_deliveries db now platform recovery_reason) res after one refl h
    pump_deliveries-Steps db now platform limit false res after one h =
        pump_from-Steps platform limit db res after one h
