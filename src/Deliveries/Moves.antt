-- ===== src/Deliveries/Moves.antt =====
-- The delivery table from one transaction to the next: a step relation, its unique columns as an
-- invariant, and that a channel message is posted at most once.
use coordinate.Base.{
  ℕ, ◌≤◌, String, ◌≡◌, refl, sym, subst, ap, ◌∙◌, Bool, true, false, not, ◌||◌, none, some, List,
  [], ◌∷◌, ◌++◌, arith, ◌==◌, nat_dec_eq, string_dec_eq, ==_sound, Bool-cases, inl, inr,
}
use coordinate.Table.{
  find?, update, count_where, All, count_new-le, count-update-le, find?-update, find?-append_old,
  All-find?, All-append,
}
use coordinate.Schema.{Delivery, DeliveryStatus, pending, failed}
use coordinate.Deliveries.Ledger.{has_id, has_message_key, is_channel_delivery}

-- A reserved message is never `failed`, and `pending` only before its one attempt.
abbrev pub fits : DeliveryStatus → ℕ → Bool
fits pending n = n == 0
fits failed n = false
fits _ n = n == 1

abbrev pub posted_once : Delivery → Bool
unfolding is_channel_delivery
posted_once d = not (is_channel_delivery d) || fits d.status d.attempt_count

-- A write that leaves the unique columns and the payload alone.
pub record IsBookkeeping (f : Delivery → Delivery) : Type 0 where
  pub same_id : (x : Delivery) → (f x).id ≡ x.id
  pub same_key : (x : Delivery) → (f x).message_key ≡ x.message_key
  pub same_payload : (x : Delivery) → (f x).payload ≡ x.payload

pub record IsForward (x y : Delivery) : Type 0 where
  pub once : posted_once x ≡ true → posted_once y ≡ true
  pub attempts : x.attempt_count ≤ y.attempt_count

pub data Move (rows : List Delivery) : List Delivery → Type 0 where
  stay : {after : List Delivery} → after ≡ rows → Move rows after
  insert :
      {after : List Delivery} (d : Delivery)
      → find? (has_id d.id) rows ≡ none
      → find? (has_message_key d.message_key) rows ≡ none
      → posted_once d ≡ true
      → after ≡ rows ++ d ∷ []
      → Move rows after
  write :
      {after : List Delivery} (q : Delivery → Bool) (f : Delivery → Delivery)
      → IsBookkeeping f
      → All (λ x. q x ≡ true → IsForward x (f x)) rows
      → after ≡ update q f rows
      → Move rows after

pub data Moves (rows : List Delivery) : List Delivery → Type 0 where
  here : Moves rows rows
  next : {mid after : List Delivery} → Moves rows mid → Move mid after → Moves rows after

-- The primary key, UNIQUE(message_key), and the one attempt of every channel message.
pub record IsOneShot (rows : List Delivery) : Type 0 where
  pub one_id : (i : String) → count_where (has_id i) rows ≤ 1
  pub one_key : (k : String) → count_where (has_message_key k) rows ≤ 1
  pub posted : All (λ d. posted_once d ≡ true) rows

insert-IsOneShot :
    (rows : List Delivery) (d : Delivery)
    → find? (has_id d.id) rows ≡ none
    → find? (has_message_key d.message_key) rows ≡ none
    → posted_once d ≡ true
    → IsOneShot rows
    → IsOneShot (rows ++ d ∷ [])
insert-IsOneShot rows d id key once h = record {
  one_id = λ i.
      count_new-le (has_id i) rows d
        (λ e. subst (λ i. find? (has_id i) rows ≡ none) (==_sound d.id i e) id) (h.one_id i);
  one_key = λ k.
      count_new-le (has_message_key k) rows d
        (λ e. subst (λ k. find? (has_message_key k) rows ≡ none) (==_sound d.message_key k e) key)
        (h.one_key k);
  posted = All-append (λ d. posted_once d ≡ true) rows (d ∷ []) h.posted (once, tt);
}

forward-posted :
    (q : Delivery → Bool) (f : Delivery → Delivery) (rows : List Delivery)
    → All (λ x. q x ≡ true → IsForward x (f x)) rows
    → All (λ d. posted_once d ≡ true) rows
    → All (λ d. posted_once d ≡ true) (update q f rows)
forward-posted q f [] h posted = tt
forward-posted q f (x ∷ rows) h posted = elim (Bool-cases (q x)) [
  | inl e ↦ rw e ((h.0 e).once posted.0, forward-posted q f rows h.1 posted.1)
  | inr e ↦ rw e (posted.0, forward-posted q f rows h.1 posted.1)
]

write-IsOneShot :
    (rows : List Delivery) (q : Delivery → Bool) (f : Delivery → Delivery)
    → IsBookkeeping f
    → All (λ x. q x ≡ true → IsForward x (f x)) rows
    → IsOneShot rows
    → IsOneShot (update q f rows)
write-IsOneShot rows q f b forward h = record {
  one_id = λ i.
      let le = count-update-le (has_id i) q f rows (λ x _ e. rw (b.same_id x) at e) in
      omega (arith, le, h.one_id i);
  one_key = λ k.
      let le = count-update-le (has_message_key k) q f rows (λ x _ e. rw (b.same_key x) at e) in
      omega (arith, le, h.one_key k);
  posted = forward-posted q f rows forward h.posted;
}

Move-IsOneShot : {rows after : List Delivery} → Move rows after → IsOneShot rows → IsOneShot after
Move-IsOneShot (stay same) h = subst IsOneShot (sym same) h
Move-IsOneShot {rows} (insert d id key once is) h =
    subst IsOneShot (sym is) (insert-IsOneShot rows d id key once h)
Move-IsOneShot {rows} (write q f b forward is) h =
    subst IsOneShot (sym is) (write-IsOneShot rows q f b forward h)

pub Moves-IsOneShot :
    {rows after : List Delivery} → Moves rows after → IsOneShot rows → IsOneShot after
Moves-IsOneShot here h = h
Moves-IsOneShot (next before last) h = Move-IsOneShot last (Moves-IsOneShot before h)

pub Moves-then :
    {rows mid after : List Delivery} → Moves rows mid → Moves mid after → Moves rows after
Moves-then first here = first
Moves-then first (next before last) = next (Moves-then first before) last

-- The same row at a later time.
pub record Successor (x y : Delivery) : Type 0 where
  pub same_id : y.id ≡ x.id
  pub same_key : y.message_key ≡ x.message_key
  pub same_payload : y.payload ≡ x.payload
  pub attempts : x.attempt_count ≤ y.attempt_count

pub Successor-refl : (x : Delivery) → Successor x x
Successor-refl x = record {
  same_id = refl;
  same_key = refl;
  same_payload = refl;
  attempts = omega arith;
}

Successor-trans : {x y z : Delivery} → Successor x y → Successor y z → Successor x z
Successor-trans a b = record {
  same_id = b.same_id ∙ a.same_id;
  same_key = b.same_key ∙ a.same_key;
  same_payload = b.same_payload ∙ a.same_payload;
  attempts = omega (arith, a.attempts, b.attempts);
}

-- A condition on the unique columns.
abbrev pub IsColumn : (Delivery → Bool) → Type 0
IsColumn p = (f : Delivery → Delivery) → IsBookkeeping f → (x : Delivery) → p (f x) ≡ p x

pub has_id-IsColumn : (i : String) → IsColumn (has_id i)
has_id-IsColumn i f b x = ap (λ j. j == i) (b.same_id x)

pub has_message_key-IsColumn : (k : String) → IsColumn (has_message_key k)
has_message_key-IsColumn k f b x = ap (λ j. j == k) (b.same_key x)

module _ (p : Delivery → Bool) (column : IsColumn p) where
  write-Successor :
      (rows : List Delivery) (q : Delivery → Bool) (f : Delivery → Delivery) (d : Delivery)
      → IsBookkeeping f
      → All (λ x. q x ≡ true → IsForward x (f x)) rows
      → find? p rows ≡ some d
      → (e : Delivery) × (find? p (update q f rows) ≡ some e) × Successor d e
  write-Successor rows q f d b forward found =
      let moved = find?-update p q f rows (column f b) in
      elim (Bool-cases (q d)) [
        | inl e ↦ (
          f d,
          ground (arith, moved, found, e),
          record {
            same_id = b.same_id d;
            same_key = b.same_key d;
            same_payload = b.same_payload d;
            attempts =
                (All-find? (λ x. q x ≡ true → IsForward x (f x)) p rows forward found e).attempts;
          },
        )
        | inr e ↦ (d, ground (arith, moved, found, e), Successor-refl d)
      ]

  Move-Successor :
      {rows after : List Delivery} {d : Delivery}
      → Move rows after
      → find? p rows ≡ some d
      → (e : Delivery) × (find? p after ≡ some e) × Successor d e
  Move-Successor {rows} {after} {d} (stay same) found =
      (d, ap (find? p) same ∙ found, Successor-refl d)
  Move-Successor {rows} {after} {d} (insert x _ _ _ is) found =
      (d, ap (find? p) is ∙ find?-append_old p rows (x ∷ []) d found, Successor-refl d)
  Move-Successor {rows} {after} {d} (write q f b forward is) found =
      let (e, kept, next_of) = write-Successor rows q f d b forward found in
      (e, ap (find? p) is ∙ kept, next_of)

  -- A row that was found is found ever after.
  pub Moves-Successor :
      {rows after : List Delivery} {d : Delivery}
      → Moves rows after
      → find? p rows ≡ some d
      → (e : Delivery) × (find? p after ≡ some e) × Successor d e
  Moves-Successor {d = d} here found = (d, found, Successor-refl d)
  Moves-Successor (next before last) found =
      let (mid, there, first) = Moves-Successor before found in
      let (e, kept, second) = Move-Successor last there in (e, kept, Successor-trans first second)
