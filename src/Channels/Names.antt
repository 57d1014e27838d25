-- ===== src/Channels/Names.antt =====
-- The canonical channel, and the errors of its callers: `_normalize_channel_platform`,
-- `_normalize_channel_id`, `_require_non_empty` and `resolve_channel_workspace` of db.py.
use Prim.Native.String.{◌++◌ as ◌⧺◌}
use coordinate.Base.{
  ℕ, String, Bool, not, ◌&&◌, ◌||◌, Option, leb, ◌==◌, string_dec_eq, Result, ok, ◌>>=◌, ◌>>◌,
  guard,
}
use coordinate.Text.{is_empty, strip, char_count, has_control}
use coordinate.Table.{find?}
use coordinate.Schema.{Db, ChannelBinding}
use coordinate.Resources.{Platform}
use coordinate.Events.Log.{DbError}

pub data ChannelError : Type 0 where
  invalid_platform channel_id_required channel_id_padded channel_id_too_long : ChannelError
  channel_id_control field_required unknown_workspace key_conflict : ChannelError
  bound_elsewhere other_workspace changed_concurrently : ChannelError
  store_failed : DbError → ChannelError

abbrev pub R : Type 0 → Type 0
R A = Result ChannelError A

abbrev pub max_code_points : ℕ
max_code_points = 128

unfoldable pub normalize_channel_platform : Platform → String → R String
normalize_channel_platform lib value = do
  let platform = lib.lower (strip value)
  guard (platform == "discord" || platform == "kook") invalid_platform
  ok platform

unfoldable pub normalize_channel_id : String → R String
normalize_channel_id value = do
  guard (not (is_empty value)) channel_id_required
  guard (value == strip value) channel_id_padded
  guard (leb (char_count value) max_code_points) channel_id_too_long
  guard (not (has_control value)) channel_id_control
  ok value

unfoldable pub require_non_empty : String → R String
require_non_empty value = do let s = strip value; guard (not (is_empty s)) field_required; ok s

abbrev pub canonical_channel_target : String → String → String
canonical_channel_target platform channel_id = platform ⧺ (":" ⧺ channel_id)

-- WHERE platform = ? AND channel_id = ?
abbrev pub of_channel : String → String → ChannelBinding → Bool
of_channel platform channel_id b = b.platform == platform && b.channel_id == channel_id

unfoldable pub resolve_channel_workspace :
    Platform → Db → String → String → R (Option ChannelBinding)
resolve_channel_workspace lib db raw_platform raw_channel = do
  platform ← normalize_channel_platform lib raw_platform
  channel_id ← normalize_channel_id raw_channel
  ok (find? (of_channel platform channel_id) db.channel_bindings)
