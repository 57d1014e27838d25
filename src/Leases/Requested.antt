-- ===== src/Leases/Requested.antt =====
-- The row that a reservation asks for (`reserve_attempt_lease` of src/coordinate/execution_leases.py).
use coordinate.Base.{
  ℕ, ◌+◌, ◌≤◌, ◌≡◌, refl, ap, ◌∙◌, none, some, arith, ◌==◌, nat_dec_eq, string_dec_eq, ok,
  >>=-eq-ok, require,
}
use coordinate.Json.{Json}
use coordinate.Table.{find?}
use coordinate.Schema.{Db, Policy, Lease, active}
use coordinate.Resources.{Platform, WorktreeResource, build_worktree_resource, compute_resource_key}
use coordinate.Leases.Checks.{
  no_policy, wrap, resource_invalid, context_path_invalid, validate_ttl, validate_attempt_token,
}
use coordinate.Leases.Reserve.{
  Reading, Request, Grant, SnapshotCheck, authorize, check_job, check_resource, new_lease, Standing,
}

-- Column for column: the arguments of the call, the clock and the new id, the canonical resource of
-- the host and path, and the agent's policy.
pub record IsRequested (lib : Platform) (db : Db) (clock : Reading) (q : Request) (x : Lease)
    : Type 0 where
  pub resource : WorktreeResource
  pub policy : Policy
  pub ttl : ℕ
  pub ttl_given : validate_ttl q.ttl_seconds ≡ ok ttl
  pub token_given : validate_attempt_token q.attempt_token ≡ ok x.attempt_token
  pub resource_built : build_worktree_resource lib q.host_id q.worktree_path ≡ ok resource
  pub policy_found : find? (λ (p : Policy). p.agent_id == q.agent_id) db.policies ≡ some policy
  pub id : x.lease_id ≡ clock.uuid
  pub job : x.job_id ≡ q.job_id
  pub agent : x.agent_id ≡ q.agent_id
  pub runner : x.runner_profile_id ≡ q.runner_profile_id
  pub host : x.host_id ≡ q.host_id
  pub kind : x.resource_kind ≡ "worktree"
  pub key : x.resource_key ≡ compute_resource_key lib resource
  pub path : x.normalized_path ≡ resource.normalized_path
  pub capacity : x.capacity_policy_id ≡ policy.capacity_policy_id
  pub most : x.max_concurrent_jobs ≡ policy.max_concurrent_jobs
  pub live : x.status ≡ active
  pub acquired : x.acquired_at ≡ clock.now
  pub renewed : x.renewed_at ≡ clock.now
  pub expires : x.expires_at ≡ clock.now + ttl
  pub unreleased : x.released_at ≡ none
  pub no_reason : x.release_reason ≡ none

pub validate_ttl-bounds :
    (json : Json) (ttl : ℕ) → validate_ttl json ≡ ok ttl → (30 ≤ ttl) × (ttl ≤ 600)
unfolding validate_ttl
validate_ttl-bounds json ttl h = ground arith

module _ (lib : Platform) (snapshot : SnapshotCheck) where
  check_job-given :
      (db : Db) (q : Request) (s : Standing)
      → check_job lib snapshot db q ≡ ok s
      → (validate_ttl q.ttl_seconds ≡ ok s.ttl_seconds)
        × (validate_attempt_token q.attempt_token ≡ ok s.attempt_token)
  unfolding check_job validate_ttl validate_attempt_token
  check_job-given db q s e =
      let (ttl, is, e₁) = >>=-eq-ok (validate_ttl q.ttl_seconds) _ e in
      let (token, was, e₂) = >>=-eq-ok (validate_attempt_token q.attempt_token) _ e₁ in
      let same : ttl ≡ s.ttl_seconds = ground arith in
      let as_given : token ≡ s.attempt_token = ground arith in
      (is ∙ ap ok same, was ∙ ap ok as_given)

  pub authorize-IsRequested :
      (db : Db) (clock : Reading) (q : Request) (g : Grant)
      → authorize lib snapshot db q ≡ ok g
      → IsRequested lib db clock q (new_lease clock g)
  unfolding authorize check_resource
  authorize-IsRequested db clock q g e =
      let (s, job, e₁) = >>=-eq-ok (check_job lib snapshot db q) _ e in
      let (ttl, token) = check_job-given db q s job in
      let (p, found, e₂) =
        >>=-eq-ok (require (find? (λ (p : Policy). p.agent_id == q.agent_id) db.policies) no_policy)
          _ e₁ in
      let (w, built, e₃) =
        >>=-eq-ok (wrap resource_invalid (build_worktree_resource lib q.host_id q.worktree_path)) _
          e₂ in
      let (y, _, e₄) =
        >>=-eq-ok
          (wrap context_path_invalid (build_worktree_resource lib q.host_id s.worktree_path)) _
          e₃ in
      record {
        resource = w;
        policy = p;
        ttl = s.ttl_seconds;
        ttl_given = ttl;
        token_given = token ∙ ap ok (ground arith);
        resource_built = ground arith;
        policy_found = ground arith;
        id = refl;
        job = ground arith;
        agent = ground arith;
        runner = ground arith;
        host = ground arith;
        kind = refl;
        key = ground arith;
        path = ground arith;
        capacity = ground arith;
        most = ground arith;
        live = refl;
        acquired = refl;
        renewed = refl;
        expires = ground arith;
        unreleased = refl;
        no_reason = refl;
      }
