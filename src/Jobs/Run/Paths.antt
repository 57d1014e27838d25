-- ===== src/Jobs/Run/Paths.antt =====
-- The paths of a run (`_resolve_cwd`, `_resolve_log_path` and `_resolve_result_path` of jobs.py).
use Prim.Native.String.{◌++◌ as ◌⧺◌}
use coordinate.Base.{
  zero, suc, String, Bool, true, false, not, ◌||◌, Option, none, some, ◌==◌, string_dec_eq,
  if◌then◌else◌, ok, err, ◌>>=◌, ◌>>◌, guard,
}
use coordinate.Text.{is_empty}
use coordinate.Json.{Json, null, bool, int, neg, real, text, arr, obj, nil, cons, end, field}
use coordinate.Jobs.Errors.{J, job_error, no_worktree, cwd_missing}

-- The operations of `pathlib` and the answers of the file system.
pub record Files : Type 0 where
  -- str(Path(p)), str(Path(p).expanduser())
  pub path_text : String → String
  pub expanduser : String → String
  pub is_absolute : String → Bool
  -- str(Path(a) / b)
  pub join : String → String → String
  pub exists : String → Bool
  pub is_dir : String → Bool

abbrev pub given : Option String → Option String
given none = none
given (some s) = if is_empty s then none else some s

abbrev pub working_directory : Files → String → Option String → Bool → J String
working_directory files workspace_path none true = err (job_error no_worktree)
working_directory files workspace_path none false = ok (files.path_text workspace_path)
working_directory files workspace_path (some p) _ = ok (files.path_text p)

abbrev pub resolve_cwd : Files → String → Option String → String → J String
resolve_cwd files workspace_path worktree_path strategy = do
  cwd ← working_directory files workspace_path (given worktree_path) (strategy == "git_worktree")
  guard (files.exists cwd) (job_error cwd_missing)
  ok cwd

abbrev pub log_path_of : Files → String → String → Option String → String
log_path_of files workspace_path id none =
    files.join workspace_path (".coordinator/logs/jobs/" ⧺ (id ⧺ ".log"))
log_path_of files workspace_path id (some p) = files.path_text p

-- The truth of a decoded value; a real is the text that `str` gives.
abbrev pub truthy : Json → Bool
truthy null = false
truthy (bool b) = b
truthy (int zero) = false
truthy (int (suc n)) = true
truthy (neg n) = true
truthy (real s) = not (s == "0.0" || s == "-0.0")
truthy (text s) = not (is_empty s)
truthy (arr nil) = false
truthy (arr (cons _ _)) = true
truthy (obj end) = false
truthy (obj (field _ _ _)) = true

abbrev pub configured_path : (Json → String) → Option Json → Option String
configured_path str_of none = none
configured_path str_of (some v) = if truthy v then some (str_of v) else none

abbrev pub result_path_of : Files → String → String → Option String → String
result_path_of files workspace_path id none =
    files.join workspace_path (".coordinator/results/jobs/" ⧺ (id ⧺ ".json"))
result_path_of files workspace_path id (some c) =
    let p = files.expanduser c in if files.is_absolute p then p else files.join workspace_path p
