-- ===== src/Envelope/Interval.antt =====
-- The interval and the key of an envelope (src/coordinate/lease_envelope.py).
use coordinate.Base.{
  ℕ, ◌-◌, ◌+◌, ◌≤◌, ◌<◌, ◌≡◌, subst, true, Option, none, some, leb, ltb, ◌==◌, ==_sound, nat_dec_eq,
  string_dec_eq, arith, Result, ok, err, >>=-eq-ok, guard, guard-eq-ok, require,
}
use coordinate.Json.{Json, obj}
use coordinate.Resources.{
  Platform, WorktreeResource, ResourceError, build_worktree_resource, compute_resource_key,
}
use coordinate.Envelope.Fields.{
  wrong_keys, mismatch, not_canonical, expires_too_early, ttl_mismatch, now_too_early, now_too_late,
  Clock,
}
use coordinate.Envelope.Parse.{
  ExecutionLease, read_time, check_interval, read_fields, has_envelope_keys, parse_execution_lease,
  Expected, as_expected, token_as_expected, resource_of, matches_context, matches_binding,
  validate_execution_lease,
}

-- The server's time lies in the lease's interval, whose length is the time to live.
pub record IsLive (clock : Clock) (l : ExecutionLease) : Type 0 where
  pub acquired : ℕ
  pub expires : ℕ
  pub now : ℕ
  pub acquired_read : clock.strptime l.acquired_at ≡ some acquired
  pub expires_read : clock.strptime l.expires_at ≡ some expires
  pub now_read : clock.strptime l.server_now ≡ some now
  pub started : acquired ≤ now
  pub running : now < expires
  pub length : expires ≡ acquired + l.ttl_seconds

-- The resource of a lease is the canonical form of its host and path, and its key that resource's.
pub record IsKeyed (lib : Platform) (l : ExecutionLease) : Type 0 where
  pub resource : WorktreeResource
  pub built : build_worktree_resource lib l.host_id l.normalized_path ≡ ok resource
  pub canonical : resource.normalized_path ≡ l.normalized_path
  pub key : l.resource_key ≡ compute_resource_key lib resource

require-eq-ok {ℓ κ} :
    {E : Type ℓ} {X : Type κ} (o : Option X) (e : E) {x : X} → require o e ≡ ok x → o ≡ some x
require-eq-ok (some x) e h = cc
require-eq-ok none e h = cc

resource_of-eq-ok :
    (r : Result ResourceError WorktreeResource) {w : WorktreeResource}
    → resource_of r ≡ ok w
    → r ≡ ok w
resource_of-eq-ok (ok r) h = cc
resource_of-eq-ok (err e) h = cc

ok_injective {ℓ κ} :
    {E : Type ℓ} {A : Type κ} {a b : A} → ◌≡◌ {A = Result E A} (ok a) (ok b) → a ≡ b
ok_injective h = cc

within :
    (a e n t : ℕ)
    → ltb a e ≡ true
    → (e - a == t) ≡ true
    → leb a n ≡ true
    → ltb n e ≡ true
    → (a ≤ n) × (n < e) × (e ≡ a + t)
within a e n t h₁ h₂ h₃ h₄ = (ground arith, ground arith, ground arith)

check_interval-IsLive :
    (clock : Clock) (l l' : ExecutionLease) → check_interval clock l ≡ ok l' → IsLive clock l'
unfolding check_interval
check_interval-IsLive clock l l' h =
    let (a, ha, h₁) = >>=-eq-ok (read_time clock l.acquired_at) _ h in
    let (e, he, h₂) = >>=-eq-ok (read_time clock l.expires_at) _ h₁ in
    let (n, hn, h₃) = >>=-eq-ok (read_time clock l.server_now) _ h₂ in
    let (_, g₁, h₄) = >>=-eq-ok (guard (ltb a e) expires_too_early) _ h₃ in
    let (_, g₂, h₅) = >>=-eq-ok (guard (e - a == l.ttl_seconds) ttl_mismatch) _ h₄ in
    let (_, g₃, h₆) = >>=-eq-ok (guard (leb a n) now_too_early) _ h₅ in
    let (_, g₄, h₇) = >>=-eq-ok (guard (ltb n e) now_too_late) _ h₆ in
    let (w₁, w₂, w₃) =
      within a e n l.ttl_seconds (guard-eq-ok _ _ g₁) (guard-eq-ok _ _ g₂) (guard-eq-ok _ _ g₃)
        (guard-eq-ok _ _ g₄) in
    subst (IsLive clock) (ok_injective h₇) (record {
      acquired = a;
      expires = e;
      now = n;
      acquired_read = require-eq-ok _ _ ha;
      expires_read = require-eq-ok _ _ he;
      now_read = require-eq-ok _ _ hn;
      started = w₁;
      running = w₂;
      length = w₃;
    })

parse-IsLive :
    (clock : Clock) (json : Json) (l : ExecutionLease)
    → parse_execution_lease clock json ≡ ok l
    → IsLive clock l
unfolding parse_execution_lease
parse-IsLive clock (obj value) l h =
    let (_, _, h₁) = >>=-eq-ok (guard (has_envelope_keys value) wrong_keys) _ h in
    let (m, _, h₂) = >>=-eq-ok (read_fields clock value) _ h₁ in check_interval-IsLive clock m l h₂
parse-IsLive clock _ l h = cc

-- A lease that `validate_execution_lease` accepts is live, and its key is the one of the
-- canonical resource of its host and path.
pub validate_execution_lease-granted :
    (lib : Platform) (clock : Clock) (expected : Expected) (json : Json) (l : ExecutionLease)
    → validate_execution_lease lib clock expected json ≡ ok l
    → IsLive clock l × IsKeyed lib l
unfolding validate_execution_lease
validate_execution_lease-granted lib clock expected json l h =
    let (m, parsed, h₁) = >>=-eq-ok (parse_execution_lease clock json) _ h in
    let (_, _, h₂) = >>=-eq-ok (guard (as_expected expected.agent_id m.agent_id) mismatch) _ h₁ in
    let (_, _, h₃) = >>=-eq-ok (guard (as_expected expected.job_id m.job_id) mismatch) _ h₂ in
    let (_, _, h₄) =
      >>=-eq-ok (guard (token_as_expected expected.attempt_token m.attempt_token) mismatch) _ h₃ in
    let (r, built, h₅) =
      >>=-eq-ok (resource_of (build_worktree_resource lib m.host_id m.normalized_path)) _ h₄ in
    let (_, canonical, h₆) =
      >>=-eq-ok (guard (r.normalized_path == m.normalized_path) not_canonical) _ h₅ in
    let (_, key, h₇) =
      >>=-eq-ok (guard (m.resource_key == compute_resource_key lib r) mismatch) _ h₆ in
    let (_, _, h₈) =
      >>=-eq-ok (guard (matches_context expected.execution_context m) mismatch) _ h₇ in
    let (_, _, h₉) =
      >>=-eq-ok (guard (matches_binding expected.executor_binding m) mismatch) _ h₈ in
    subst (λ x. IsLive clock x × IsKeyed lib x) (ok_injective h₉)
      (
        parse-IsLive clock json m parsed,
        record {
          resource = r;
          built = resource_of-eq-ok _ built;
          canonical = ==_sound _ _ (guard-eq-ok _ _ canonical);
          key = ==_sound _ _ (guard-eq-ok _ _ key);
        },
      )
