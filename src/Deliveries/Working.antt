-- ===== src/Deliveries/Working.antt =====
-- The worker with a bound on its iterations comes to an end (`run_delivery_worker` of worker.py).
use coordinate.Base.{
  ℕ, zero, suc, ◌+◌, ◌≤◌, String, ◌≡◌, refl, sym, ap, subst, Bool, true, false, ◌&&◌, Option, some,
  ◌∷◌, ◌==◌, nat_dec_eq, leb, arith, Bool-cases, inl, inr, ◌⊎◌, ok, err,
}
use coordinate.Table.{length}
use coordinate.Schema.{Db}
use coordinate.Deliveries.Bus.{Transport, Buses, B, BusError, PumpResult, pump_deliveries}
use coordinate.Deliveries.Worker.{
  Turn, DeliveryWorkerResult, W, pump_failed, single, put_before, after_pump, worker_loop,
  run_delivery_worker,
}

-- At most `n` iterations, each with its result, and exactly `n` if no interrupt came.
pub record IsWithin (n : ℕ) (w : DeliveryWorkerResult) : Type 0 where
  pub few : w.iterations ≤ n
  pub each : length w.results ≡ w.iterations
  pub all : w.interrupted ≡ false → w.iterations ≡ n

-- The loop ends, with the exception of a pump or with a result.
abbrev pub IsEnded : ℕ → W → Type 0
IsEnded n o =
    ((e : BusError) × (o.0 ≡ err (pump_failed e)))
    ⊎ ((w : DeliveryWorkerResult) × (o.0 ≡ ok w) × IsWithin n w)

put_before-IsEnded :
    (n : ℕ) (r : PumpResult) (o : W) → IsEnded n o → IsEnded (suc n) (put_before r o)
put_before-IsEnded n r (ok w, db) (inl (e, h)) = absurd (ground arith)
put_before-IsEnded n r (ok w, db) (inr (v, h, c)) =
    let same : v ≡ w = ground arith in
    let d = subst (IsWithin n) same c in
    inr (
      record w {
        iterations = suc w.iterations;
        processed = r.processed + w.processed;
        sent = r.sent + w.sent;
        failed = r.failed + w.failed;
        results = r ∷ w.results;
      },
      refl,
      record {
        few = omega (arith, d.few);
        each = omega (arith, d.each);
        all = λ no. ap suc (d.all no);
      },
    )
put_before-IsEnded n r (err e, db) (inl (x, h)) = inl (x, h)
put_before-IsEnded n r (err e, db) (inr (v, h, c)) = absurd (ground arith)

after_pump-last :
    (m k : ℕ) (turn : Turn) (rest : Db → W) (o : B PumpResult × Db)
    → k + 1 ≡ m
    → IsEnded 1 (after_pump (some m) k turn rest o)
after_pump-last m k turn rest (err e, db) h = inl (e, refl)
after_pump-last m k turn rest (ok r, db) h =
    let last : leb m (suc k) ≡ true = ground arith in
    rw last (
      inr (single r false, refl, record { few = omega arith; each = omega arith; all = λ _. refl }))

after_pump-more :
    (m k n : ℕ) (turn : Turn) (rest : Db → W) (o : B PumpResult × Db)
    → k + suc (suc n) ≡ m
    → ((db : Db) → IsEnded (suc n) (rest db))
    → IsEnded (suc (suc n)) (after_pump (some m) k turn rest o)
after_pump-more m k n turn rest (err e, db) h inner = inl (e, refl)
after_pump-more m k n turn rest (ok r, db) h inner =
    let more : leb m (suc k) ≡ false = ground arith in
    elim (Bool-cases turn.interrupted) [
      | inl e ↦
          rw (more, e)
            (inr (
              single r true,
              refl,
              record { few = omega arith; each = omega arith; all = λ no. absurd (cc no) },
            ))
      | inr e ↦
          rw (more, e)
            (put_before-IsEnded (suc n) r (rest (turn.while_asleep db))
              (inner (turn.while_asleep db)))
    ]

positive : (m : ℕ) → 1 ≤ m → (n : ℕ) × (m ≡ suc n)
positive zero h = absurd (omega (arith, h))
positive (suc n) h = (n, refl)

module _ (bus : Option Transport) (env : Buses) (turns : ℕ → Turn) (platform : Option String)
    (limit m : ℕ) (recover : Bool) where
  worker_loop-IsEnded :
      (fuel n k : ℕ) (db : Db)
      → k + suc n ≡ m
      → suc n ≤ fuel
      → IsEnded (suc n) (worker_loop bus env turns platform limit (some m) recover fuel k db)
  unfolding worker_loop pump_deliveries
  worker_loop-IsEnded zero n k db h enough = absurd (omega (arith, enough))
  worker_loop-IsEnded (suc fuel) zero k db h enough =
      after_pump-last m k (turns k)
        (λ next. worker_loop bus env turns platform limit (some m) recover fuel (suc k) next)
        (pump_deliveries bus env (turns k).sends db (turns k).now platform limit
          (recover && k == 0))
        h
  worker_loop-IsEnded (suc fuel) (suc n) k db h enough =
      after_pump-more m k n (turns k)
        (λ next. worker_loop bus env turns platform limit (some m) recover fuel (suc k) next)
        (pump_deliveries bus env (turns k).sends db (turns k).now platform limit
          (recover && k == 0))
        h
        (λ next. worker_loop-IsEnded fuel n (suc k) next (omega (arith, h)) (omega (arith, enough)))

  -- With a positive limit and a positive bound on the iterations, the worker ends within as much fuel
  -- as the bound: with the exception of a pump, or with a result of at most that many iterations
  -- and as many results of pumps, and of exactly that many if no interrupt came.
  pub worker-ends :
      (fuel : ℕ) (db : Db)
      → 1 ≤ limit
      → 1 ≤ m
      → m ≤ fuel
      → IsEnded m (run_delivery_worker bus env turns platform limit (some m) recover fuel db)
  unfolding run_delivery_worker worker_loop pump_deliveries
  worker-ends fuel db some_limit some_bound enough =
      let (n, is) = positive m some_bound in
      let a : leb limit 0 ≡ false = ground (arith, some_limit) in
      let b : leb m 0 ≡ false = ground (arith, some_bound) in
      let within : suc n ≤ fuel = omega (arith, is, enough) in
      let loop = worker_loop-IsEnded fuel n 0 db (omega (arith, is)) within in
      rw (a, b)
        (subst
          (λ j. IsEnded j (worker_loop bus env turns platform limit (some m) recover fuel 0 db))
          (sym is) loop)
