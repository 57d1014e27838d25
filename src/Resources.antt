-- ===== src/Resources.antt =====
-- The host-scoped identity of a worktree (src/coordinate/execution_resources.py).
-- `Platform` is what the program takes from Python's library: path normalisation, Unicode
-- normalisation and case folding, and the digest of a JSON object.
use coordinate.Base.{
  ℕ, String, Bool, false, not, ◌&&◌, ◌||◌, Option, none, some, leb, ◌==◌, nat_dec_eq, string_dec_eq,
  if◌then◌else◌, Result, ok, ◌>>=◌, ◌>>◌, guard,
}
use Prim.Native.Char.{Char, code}
use Prim.Native.String.{◌++◌}
use coordinate.Text.{strip, is_empty, has_control, char_count, all_chars}
use coordinate.Json.{Fields, end, field, text, int}

pub record Platform : Type 0 where
  -- posixpath.normpath and ntpath.normpath
  pub posix_normpath : String → String
  pub nt_normpath : String → String
  -- unicodedata.normalize("NFC", s), s.casefold(), s[0].lower() of a drive letter
  pub nfc : String → String
  pub casefold : String → String
  pub lower : String → String
  -- s[0].isalpha()
  pub is_alpha : Char → Bool
  -- s.replace("/", "\\")
  pub to_backslash : String → String
  -- hashlib.sha256(json.dumps(d, sort_keys=True, ...).encode("utf-8")).hexdigest()
  pub digest : Fields → String

pub data ResourceError : Type 0 where
  host_id_required host_id_whitespace host_id_too_long host_id_control : ResourceError
  path_required path_too_long path_control : ResourceError
  unc_collapsed drive_not_absolute drive_collapsed posix_not_absolute posix_collapsed :
      ResourceError
  key_malformed kind_not_worktree path_not_canonical digest_mismatch : ResourceError

abbrev R : Type 0 → Type 0
R A = Result ResourceError A

abbrev max_path_len : ℕ
max_path_len = 4096

abbrev max_host_id_len : ℕ
max_host_id_len = 64

pub record WorktreeResource : Type 0 where
  pub host_id : String
  pub normalized_path : String

unfoldable pub validate_host_id : String → R String
validate_host_id host_id = do
  guard (not (is_empty host_id)) ResourceError.host_id_required
  guard (host_id == strip host_id) ResourceError.host_id_whitespace
  guard (leb (char_count host_id) max_host_id_len) ResourceError.host_id_too_long
  guard (not (has_control host_id)) ResourceError.host_id_control
  ok host_id

abbrev is_separator : Char → Bool
is_separator c = code c == 92 || code c == b'/'

-- path[:2] in ("\\\\", "//")
is_windows_unc : String → Bool
is_windows_unc (String.◌∷◌ a (String.◌∷◌ b s)) =
    (code a == 92 && code b == 92) || (code a == b'/' && code b == b'/')
is_windows_unc _ = false

-- An absolute drive path has a separator in its third place.
drive_is_absolute : String → Bool
drive_is_absolute (String.◌∷◌ a (String.◌∷◌ b (String.◌∷◌ c s))) = is_separator c
drive_is_absolute _ = false

starts_with_slash : String → Bool
starts_with_slash String.[] = false
starts_with_slash (String.◌∷◌ c s) = code c == b'/'

module _ (lib : Platform) where
  open lib use {posix_normpath, nt_normpath, nfc, casefold, lower, is_alpha, to_backslash, digest}

  is_windows_drive : String → Bool
  is_windows_drive (String.◌∷◌ a (String.◌∷◌ b s)) = is_alpha a && code b == b':'
  is_windows_drive _ = false

  normalize_unc : String → R String
  normalize_unc path = do
    let normalized = nt_normpath path
    guard (not (normalized == "." || is_empty normalized)) unc_collapsed
    ok (casefold (nfc (to_backslash normalized)))

  -- drive = normalized[0].lower(); rest = normalized[2:]
  lower_drive : String → String
  lower_drive (String.◌∷◌ a (String.◌∷◌ b rest)) = lower (String.◌∷◌ a String.[]) ++ (":" ++ rest)
  lower_drive (String.◌∷◌ a String.[]) = lower (String.◌∷◌ a String.[]) ++ ":"
  lower_drive String.[] = ":"

  normalize_drive : String → R String
  unfolding drive_is_absolute lower_drive
  normalize_drive path = do
    guard (drive_is_absolute path) drive_not_absolute
    let normalized = nt_normpath path
    guard (not (normalized == "." || is_empty normalized)) drive_collapsed
    ok (casefold (nfc (lower_drive (to_backslash normalized))))

  normalize_posix : String → R String
  unfolding starts_with_slash
  normalize_posix path = do
    guard (starts_with_slash path) posix_not_absolute
    let normalized = posix_normpath path
    guard (not (normalized == ".")) posix_collapsed
    ok (nfc (if is_empty normalized then "/" else normalized))

  unfoldable pub normalize_worktree_path : String → R String
  unfolding is_windows_unc is_windows_drive normalize_unc normalize_drive normalize_posix
  normalize_worktree_path raw = do
    let path = strip raw
    guard (not (is_empty path)) path_required
    guard (leb (char_count path) max_path_len) path_too_long
    guard (not (has_control path)) path_control
    if is_windows_unc path
        then normalize_unc path
        else if is_windows_drive path
        then normalize_drive path
        else normalize_posix path

  unfoldable pub build_worktree_resource : String → String → R WorktreeResource
  build_worktree_resource host_id worktree_path = do
    host ← validate_host_id host_id
    path ← normalize_worktree_path worktree_path
    ok (record { host_id = host; normalized_path = path })

  -- `WorktreeResource.canonical_dict`
  abbrev canonical_dict : String → String → Fields
  canonical_dict host_id normalized_path = field "contract_version" (int 1) (
      field "resource_kind" (text "worktree")
        (field "host_id" (text host_id) (field "normalized_path" (text normalized_path) end)))

  unfoldable pub compute_resource_key : WorktreeResource → String
  compute_resource_key r = "sha256:" ++ digest (canonical_dict r.host_id r.normalized_path)

  is_lower_hex : ℕ → Bool
  is_lower_hex c = (leb b'0' c && leb c b'9') || (leb b'a' c && leb c b'f')

  -- ^sha256:[0-9a-f]{64}$
  drop_prefix : String → String → Option String
  drop_prefix String.[] s = some s
  drop_prefix (String.◌∷◌ c p) String.[] = none
  drop_prefix (String.◌∷◌ c p) (String.◌∷◌ d s) =
      let rest = drop_prefix p s in if code c == code d then rest else none

  hex_64 : Option String → Bool
  unfolding is_lower_hex
  hex_64 none = false
  hex_64 (some s) = char_count s == 64 && all_chars is_lower_hex s

  -- `RESOURCE_CONTRACT_VERSION` is written by the caller, so its test always passes.
  unfoldable pub validate_resource_key_matches : String → String → String → String → R Unit
  unfolding drop_prefix hex_64
  validate_resource_key_matches kind host_id path key = do
    guard (hex_64 (drop_prefix "sha256:" key)) key_malformed
    guard (kind == "worktree") kind_not_worktree
    host ← validate_host_id host_id
    normalized ← normalize_worktree_path path
    guard (normalized == path) path_not_canonical
    guard (key == "sha256:" ++ digest (canonical_dict host_id path)) digest_mismatch
