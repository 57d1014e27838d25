-- ===== src/Deliveries/Pumped.antt =====
-- The figures of a pump (`pump_deliveries` of bus.py).
use coordinate.Base.{
  ℕ, suc, ◌≤◌, String, ◌≡◌, refl, subst, Bool, true, false, Option, List, [], ◌∷◌, arith,
  Bool-cases, inl, inr, Result, ok, err,
}
use coordinate.Table.{take, length, length-take-le, count_where}
use coordinate.Schema.{Db, Delivery}
use coordinate.Events.Log.{DbError}
use coordinate.Deliveries.Ledger.{recover_sending_deliveries}
use coordinate.Deliveries.Bus.{
  Transport, Buses, SendInput, SendDeliveryResult, B, send_delivery, Tally, tallied, add_result,
  send_turn, send_loop, retryable_deliveries, pump_from, pump_recovered, pump_deliveries,
  PumpResult, pump_summary, recovery_reason, default_max_attempts,
}
use coordinate.Deliveries.Figures.{is_sent, is_refused, Agrees, send_delivery-Agrees}

-- The counts are those of the rows in the list.
record IsCounted (n : ℕ) (t : Tally) : Type 0 where
  listed : length t.results ≡ n
  all_sent : t.sent_count ≡ count_where is_sent t.results
  all_failed : t.failed_count ≡ count_where is_refused t.results

tallied-IsCounted :
    (n : ℕ) (r : SendDeliveryResult) (t : Tally)
    → Agrees r
    → IsCounted n t
    → IsCounted (suc n) (tallied r t)
tallied-IsCounted n r t (yes_, no_) c = elim (Bool-cases r.sent) [
  | inl e ↦ record {
    listed = ground (arith, e, c.listed);
    all_sent = ground (arith, e, c.all_sent);
    all_failed = ground (arith, e, c.all_failed);
  }
  | inr e ↦ record {
    listed = ground (arith, e, c.listed);
    all_sent = ground (arith, e, c.all_sent);
    all_failed = ground (arith, e, c.all_failed);
  }
]

added-IsCounted :
    (n : ℕ) (r : SendDeliveryResult) (m : B Tally × Db) (t : Tally) (after : Db)
    → Agrees r
    → ((s : Tally) (x : Db) → m ≡ (ok s, x) → IsCounted n s)
    → add_result r m ≡ (ok t, after)
    → IsCounted (suc n) t
added-IsCounted n r (ok s, x) t after agrees inner h =
    subst (IsCounted (suc n)) {x = tallied r s} {y = t} (ground arith)
      (tallied-IsCounted n r s agrees (inner s x refl))
added-IsCounted n r (err e, x) t after agrees inner h = absurd (ground arith)

turn-IsCounted :
    (n : ℕ) (o : B SendDeliveryResult × Db) (rest : Db → B Tally × Db) (t : Tally) (after : Db)
    → ((r : SendDeliveryResult) (x : Db) → o ≡ (ok r, x) → Agrees r)
    → ((x : Db) (s : Tally) (y : Db) → rest x ≡ (ok s, y) → IsCounted n s)
    → send_turn o rest ≡ (ok t, after)
    → IsCounted (suc n) t
turn-IsCounted n (ok r, x) rest t after agrees inner h =
    added-IsCounted n r (rest x) t after (agrees r x refl) (inner x) h
turn-IsCounted n (err e, x) rest t after agrees inner h = absurd (ground arith)

summary-figures :
    (n : ℕ) (m : B Tally × Db) (r : PumpResult) (after : Db)
    → ((t : Tally) (x : Db) → m ≡ (ok t, x) → IsCounted n t)
    → pump_summary n m ≡ (ok r, after)
    → (r.processed ≡ n)
      × (length r.deliveries ≡ r.processed)
      × (r.sent ≡ count_where is_sent r.deliveries)
      × (r.failed ≡ count_where is_refused r.deliveries)
summary-figures n (ok t, x) r after inner h =
    let c = inner t x refl in
    subst
      (λ (r : PumpResult).
        (r.processed ≡ n)
        × (length r.deliveries ≡ r.processed)
        × (r.sent ≡ count_where is_sent r.deliveries)
        × (r.failed ≡ count_where is_refused r.deliveries))
      {x = record {
        processed = n;
        sent = t.sent_count;
        failed = t.failed_count;
        deliveries = t.results;
      }}
      {y = r} (ground arith) (refl, c.listed, c.all_sent, c.all_failed)
summary-figures n (err e, x) r after inner h = absurd (ground arith)

module _ (bus : Option Transport) (env : Buses) (inputs : Delivery → SendInput) where
  send_loop-IsCounted :
      (rows : List Delivery) (db : Db) (t : Tally) (after : Db)
      → send_loop bus env inputs db rows ≡ (ok t, after)
      → IsCounted (length rows) t
  unfolding send_loop
  send_loop-IsCounted [] db t after h = record {
    listed = ground arith;
    all_sent = ground arith;
    all_failed = ground arith;
  }
  send_loop-IsCounted (d ∷ rows) db t after h =
      turn-IsCounted (length rows) (send_delivery bus env (inputs d) default_max_attempts db d.id)
        (λ x. send_loop bus env inputs x rows) t after
        (λ r x e. send_delivery-Agrees bus env (inputs d) default_max_attempts db d.id r x e)
        (λ x s y e. send_loop-IsCounted rows x s y e) h

  -- What a pump that raises nothing reports.
  abbrev IsReport : ℕ → PumpResult → Type 0
  IsReport limit r =
      (r.processed ≤ limit)
      × (length r.deliveries ≡ r.processed)
      × (r.sent ≡ count_where is_sent r.deliveries)
      × (r.failed ≡ count_where is_refused r.deliveries)

  pump_from-IsReport :
      (platform : Option String) (limit : ℕ) (db : Db) (r : PumpResult) (after : Db)
      → pump_from bus env inputs platform limit db ≡ (ok r, after)
      → IsReport limit r
  unfolding send_loop
  pump_from-IsReport platform limit db r after h =
      let rows = take limit (retryable_deliveries db platform) in
      let (n, all, yes_, no_) =
        summary-figures (length rows) (send_loop bus env inputs db rows) r after
          (λ t x e. send_loop-IsCounted rows db t x e) h in
      (omega (arith, n, length-take-le limit (retryable_deliveries db platform)), all, yes_, no_)

  recovered-IsReport :
      (platform : Option String) (limit : ℕ) (m : Result DbError (List Delivery) × Db)
      (r : PumpResult) (after : Db)
      → pump_recovered bus env inputs platform limit m ≡ (ok r, after)
      → IsReport limit r
  recovered-IsReport platform limit (ok rows, db) r after h =
      pump_from-IsReport platform limit db r after h
  recovered-IsReport platform limit (err e, db) r after h = absurd (ground arith)

  -- A pump that raises nothing has processed at most `limit` deliveries and lists each of them as it is
  -- after its send: `sent` is the number of listed rows with status sent, `failed` that of the rows
  -- with status failed or dead.
  pub pump_deliveries-figures :
      (db : Db) (now : ℕ) (platform : Option String) (limit : ℕ) (recover : Bool) (r : PumpResult)
      (after : Db)
      → pump_deliveries bus env inputs db now platform limit recover ≡ (ok r, after)
      → (r.processed ≤ limit)
        × (length r.deliveries ≡ r.processed)
        × (r.sent ≡ count_where is_sent r.deliveries)
        × (r.failed ≡ count_where is_refused r.deliveries)
  unfolding pump_deliveries
  pump_deliveries-figures db now platform limit true r after h =
      recovered-IsReport platform limit (recover_sending_deliveries db now platform recovery_reason)
        r after h
  pump_deliveries-figures db now platform limit false r after h =
      pump_from-IsReport platform limit db r after h
