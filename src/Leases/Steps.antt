-- ===== src/Leases/Steps.antt =====
-- The lease table from one transaction to the next: a step relation, the unique indexes as an
-- invariant of it, and the rows that no step changes.
use coordinate.Base.{
  ℕ, ◌≤◌, String, ◌≡◌, subst, Bool, true, false, none, some, List, [], ◌∷◌, ◌++◌, arith, nat_dec_eq,
  string_dec_eq, ==_sound,
}
use coordinate.Table.{
  find?, update, count_where, All, count_new-le, count-update-le, find?-update, find?-append_old,
  All-find?,
}
use coordinate.Schema.{Lease, is_active}
use coordinate.Leases.Store.{has_id, of_attempt, holds}

-- A write that leaves the unique columns of a row alone and makes no row active.
pub record IsFinishing (f : Lease → Lease) : Type 0 where
  pub same_id : (x : Lease) → (f x).lease_id ≡ x.lease_id
  pub same_job : (x : Lease) → (f x).job_id ≡ x.job_id
  pub same_token : (x : Lease) → (f x).attempt_token ≡ x.attempt_token
  pub same_key : (x : Lease) → (f x).resource_key ≡ x.resource_key
  pub no_revival : (x : Lease) → is_active (f x).status ≡ true → is_active x.status ≡ true

-- `write` may touch active rows alone.
pub data Step (rows : List Lease) : List Lease → Type 0 where
  stay : {after : List Lease} → after ≡ rows → Step rows after
  insert :
      {after : List Lease} (x : Lease)
      → find? (has_id x.lease_id) rows ≡ none
      → find? (of_attempt x.job_id x.attempt_token) rows ≡ none
      → find? (holds x.resource_key) rows ≡ none
      → after ≡ rows ++ x ∷ []
      → Step rows after
  write :
      {after : List Lease} (q : Lease → Bool) (f : Lease → Lease)
      → IsFinishing f
      → All (λ x. q x ≡ true → is_active x.status ≡ true) rows
      → after ≡ update q f rows
      → Step rows after

pub data Steps (rows : List Lease) : List Lease → Type 0 where
  here : Steps rows rows
  next : {mid after : List Lease} → Steps rows mid → Step mid after → Steps rows after

-- The primary key, UNIQUE(job_id, attempt_token) and the unique index on active resources.
pub record IsIndexed (rows : List Lease) : Type 0 where
  pub one_id : (i : String) → count_where (has_id i) rows ≤ 1
  pub one_attempt : (j : String) (t : ℕ) → count_where (of_attempt j t) rows ≤ 1
  pub one_holder : (k : String) → count_where (holds k) rows ≤ 1

insert-IsIndexed :
    (rows : List Lease) (x : Lease)
    → find? (has_id x.lease_id) rows ≡ none
    → find? (of_attempt x.job_id x.attempt_token) rows ≡ none
    → find? (holds x.resource_key) rows ≡ none
    → IsIndexed rows
    → IsIndexed (rows ++ x ∷ [])
insert-IsIndexed rows x id attempt free h = record {
  one_id = λ i.
      count_new-le (has_id i) rows x
        (λ e. subst (λ i. find? (has_id i) rows ≡ none) (==_sound x.lease_id i e) id) (h.one_id i);
  one_attempt = λ j t.
      count_new-le (of_attempt j t) rows x
        (λ e.
          subst (λ t. find? (of_attempt j t) rows ≡ none) (token_eq j t e)
            (subst (λ j. find? (of_attempt j x.attempt_token) rows ≡ none) (job_eq j t e) attempt))
        (h.one_attempt j t);
  one_holder = λ k.
      count_new-le (holds k) rows x
        (λ e. subst (λ k. find? (holds k) rows ≡ none) (key_eq k e) free) (h.one_holder k);
}
  where
    job_eq : (j : String) (t : ℕ) → of_attempt j t x ≡ true → x.job_id ≡ j
    job_eq j t e = ground arith

    token_eq : (j : String) (t : ℕ) → of_attempt j t x ≡ true → x.attempt_token ≡ t
    token_eq j t e = ground arith

    key_eq : (k : String) → holds k x ≡ true → x.resource_key ≡ k
    key_eq k e = ground arith

write-IsIndexed :
    (rows : List Lease) (q : Lease → Bool) (f : Lease → Lease)
    → IsFinishing f
    → IsIndexed rows
    → IsIndexed (update q f rows)
write-IsIndexed rows q f k h = record {
  one_id = λ i. omega (
    arith,
    count-update-le (has_id i) q f rows (λ x _ e. ground (arith, k.same_id x)),
    h.one_id i,
  );
  one_attempt = λ j t. omega (
    arith,
    count-update-le (of_attempt j t) q f rows
        (λ x _ e. ground (arith, k.same_job x, k.same_token x)),
    h.one_attempt j t,
  );
  one_holder = λ i. omega (
    arith,
    count-update-le (holds i) q f rows (λ x _ e. ground (arith, k.same_key x, k.no_revival x)),
    h.one_holder i,
  );
}

pub Step-IsIndexed : {rows after : List Lease} → Step rows after → IsIndexed rows → IsIndexed after
Step-IsIndexed (stay e) h = rw e h
Step-IsIndexed {rows} (insert x id attempt free e) h =
    rw e (insert-IsIndexed rows x id attempt free h)
Step-IsIndexed {rows} (write q f k on e) h = rw e (write-IsIndexed rows q f k h)

pub Steps-IsIndexed :
    {rows after : List Lease} → Steps rows after → IsIndexed rows → IsIndexed after
Steps-IsIndexed here h = h
Steps-IsIndexed (next s step) h = Step-IsIndexed step (Steps-IsIndexed s h)

-- A row that is released or expired stays as it is.
pub Step-frozen :
    {rows after : List Lease} {x : Lease} (i : String)
    → Step rows after
    → find? (has_id i) rows ≡ some x
    → is_active x.status ≡ false
    → find? (has_id i) after ≡ some x
Step-frozen i (stay e) found ended = rw e found
Step-frozen {rows} {x = x} i (insert y id attempt free e) found ended =
    rw e (find?-append_old (has_id i) rows (y ∷ []) x found)
Step-frozen {rows} {x = x} i (write q f k on e) found ended = rw e (
    ground (
      arith,
      find?-update (has_id i) q f rows (λ y. ground (arith, k.same_id y)),
      found,
      All-find? (λ y. q y ≡ true → is_active y.status ≡ true) (has_id i) rows on found,
    ))

pub Steps-frozen :
    {rows after : List Lease} {x : Lease} (i : String)
    → Steps rows after
    → find? (has_id i) rows ≡ some x
    → is_active x.status ≡ false
    → find? (has_id i) after ≡ some x
Steps-frozen i here found ended = found
Steps-frozen i (next s step) found ended = Step-frozen i step (Steps-frozen i s found ended) ended
