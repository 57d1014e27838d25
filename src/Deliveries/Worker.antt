-- ===== src/Deliveries/Worker.antt =====
-- `run_delivery_worker` of worker.py. Its loop has no bound of its own when no `max_iterations` is
-- given, so it runs on fuel. An interrupt comes, if it does, in the sleep after a pump (one
-- inside a pump is not modelled); the interval is not negative.
use coordinate.Base.{
  ℕ, zero, suc, ◌+◌, String, Bool, true, false, ◌&&◌, Option, none, some, List, [], ◌∷◌, ◌==◌,
  nat_dec_eq, leb, if◌then◌else◌, Result, ok, err,
}
use coordinate.Schema.{Db, Delivery}
use coordinate.Deliveries.Bus.{
  Transport, Buses, SendInput, B, BusError, PumpResult, pump_deliveries,
}

-- What the world does in one iteration.
pub record Turn : Type 0 where
  pub now : ℕ
  pub sends : Delivery → SendInput
  pub interrupted : Bool
  pub while_asleep : Db → Db

pub record DeliveryWorkerResult : Type 0 where
  pub iterations : ℕ
  pub processed : ℕ
  pub sent : ℕ
  pub failed : ℕ
  pub interrupted : Bool
  pub results : List PumpResult

pub data WorkerError : Type 0 where
  limit_too_small too_few_iterations out_of_fuel : WorkerError
  pump_failed : BusError → WorkerError

abbrev pub W : Type 0
W = Result WorkerError DeliveryWorkerResult × Db

abbrev pub single : PumpResult → Bool → DeliveryWorkerResult
single r interrupted = record {
  iterations = 1;
  processed = r.processed;
  sent = r.sent;
  failed = r.failed;
  interrupted = interrupted;
  results = r ∷ [];
}

-- A pump before the iterations that follow it.
abbrev pub put_before : PumpResult → W → W
put_before r (ok w, db) = (
  ok (record w {
    iterations = suc w.iterations;
    processed = r.processed + w.processed;
    sent = r.sent + w.sent;
    failed = r.failed + w.failed;
    results = r ∷ w.results;
  }),
  db,
)
put_before r (err e, db) = (err e, db)

-- max_iterations is not None and iterations >= max_iterations
abbrev pub is_last : Option ℕ → ℕ → Bool
is_last none iterations = false
is_last (some m) iterations = leb m iterations

abbrev pub after_pump : Option ℕ → ℕ → Turn → (Db → W) → B PumpResult × Db → W
after_pump max k turn rest (err e, db) = (err (pump_failed e), db)
after_pump max k turn rest (ok r, db) =
    if is_last max (suc k)
    then (ok (single r false), db)
    else (if turn.interrupted
        then (ok (single r true), db)
        else put_before r (rest (turn.while_asleep db)))

abbrev pub refused_iterations : Option ℕ → Bool
refused_iterations none = false
refused_iterations (some m) = leb m 0

module _ (bus : Option Transport) (env : Buses) (turns : ℕ → Turn) (platform : Option String)
    (limit : ℕ) (max : Option ℕ) (recover : Bool) where
  unfoldable pub worker_loop : ℕ → ℕ → Db → W
  unfolding pump_deliveries
  worker_loop zero k db = (err out_of_fuel, db)
  worker_loop (suc fuel) k db =
      after_pump max k (turns k) (λ next. worker_loop fuel (suc k) next)
        (pump_deliveries bus env (turns k).sends db (turns k).now platform limit
          (recover && k == 0))

  unfoldable pub run_delivery_worker : ℕ → Db → W
  unfolding worker_loop
  run_delivery_worker fuel db =
      if leb limit 0
      then (err limit_too_small, db)
      else (if refused_iterations max then (err too_few_iterations, db) else worker_loop fuel 0 db)
