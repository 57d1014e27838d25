-- ===== src/Leases/Checks.antt =====
-- The validators of arguments that may have any type.
use coordinate.Base.{
  ℕ, String, not, ◌||◌, ltb, leb, ◌==◌, nat_dec_eq, string_dec_eq, if◌then◌else◌, Result, ok, err,
  ◌>>◌, guard,
}
use coordinate.Text.{strip, is_empty, has_control, char_count}
use coordinate.Json.{Json, int, neg, text}
use coordinate.Resources.{ResourceError}

-- `LeaseError`, by the condition that raises it, and the refusals of SQLite.
pub data LeaseError : Type 0 where
  token_not_integer token_not_positive : LeaseError
  reason_not_text reason_empty reason_whitespace reason_too_long reason_control : LeaseError
  ttl_not_integer ttl_out_of_range : LeaseError
  lease_id_invalid : LeaseError
  tampered : ResourceError → LeaseError
  not_found : LeaseError
  job_mismatch token_mismatch agent_mismatch : LeaseError
  not_active lease_expired lease_released : LeaseError
  job_not_found job_without_runner job_attempt_mismatch job_agent_mismatch : LeaseError
  job_runner_mismatch payload_malformed payload_not_object : LeaseError
  context_required context_invalid : LeaseError
  no_policy : LeaseError
  resource_invalid context_path_invalid : ResourceError → LeaseError
  path_mismatch replay_conflict : LeaseError
  blocked_by_due resource_held : String → LeaseError
  capacity_exhausted agent_missing runner_missing : LeaseError
  renewal_not_later other_reason : LeaseError
  unique_lease_id unique_attempt unique_active_resource check_failed : LeaseError

abbrev pub R : Type 0 → Type 0
R A = Result LeaseError A

abbrev pub min_ttl_seconds : ℕ
min_ttl_seconds = 30

abbrev pub max_ttl_seconds : ℕ
max_ttl_seconds = 600

abbrev pub max_release_reason_len : ℕ
max_release_reason_len = 256

-- `bool` is a subclass of `int` and is refused first.
unfoldable pub validate_attempt_token : Json → R ℕ
validate_attempt_token (int n) = if n == 0 then err token_not_positive else ok n
validate_attempt_token (neg n) = err token_not_positive
validate_attempt_token _ = err token_not_integer

unfoldable pub validate_ttl : Json → R ℕ
validate_ttl (int n) =
    if ltb n min_ttl_seconds || ltb max_ttl_seconds n then err ttl_out_of_range else ok n
validate_ttl (neg n) = err ttl_out_of_range
validate_ttl _ = err ttl_not_integer

unfoldable pub validate_lease_id : Json → R String
validate_lease_id (text s) = if is_empty s then err lease_id_invalid else ok s
validate_lease_id _ = err lease_id_invalid

unfoldable pub validate_release_reason : Json → R String
validate_release_reason (text s) = do
  guard (not (is_empty s)) reason_empty
  guard (s == strip s) reason_whitespace
  guard (leb (char_count s) max_release_reason_len) reason_too_long
  guard (not (has_control s)) reason_control
  ok s
validate_release_reason _ = err reason_not_text

-- `except E as exc: raise LeaseError(...) from exc`
abbrev pub wrap {ℓ} : {E : Type ℓ} {A : Type 0} → (E → LeaseError) → Result E A → R A
wrap f (ok a) = ok a
wrap f (err e) = err (f e)
