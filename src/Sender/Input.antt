-- ===== src/Sender/Input.antt =====
-- The request of a channel message: `_parse_input`, `_authorize` and `_identity` of
-- channel_delivery.py. `sha` stands for SHA-256 over `json.dumps`.
use Prim.Native.String.{◌++◌ as ◌⧺◌}
use Prim.Native.Char.{code}
use coordinate.Base.{
  ℕ, ◌+◌, String, Bool, true, not, ◌&&◌, Option, none, some, List, [], ◌∷◌, leb, ◌==◌, nat_dec_eq,
  string_dec_eq, if◌then◌else◌, Result, ok, err, ◌>>=◌, ◌>>◌, guard,
}
use coordinate.Text.{is_empty, strip, char_count, all_chars}
use coordinate.Json.{Json, Items, Fields, null, text, arr, obj, nil, cons, end, field, get}
use coordinate.Table.{exists}
use coordinate.Schema.{Db}
use coordinate.Resources.{Platform}
use coordinate.Channels.Names.{ChannelError, resolve_channel_workspace}
use coordinate.Deliveries.Channel.{allows}

-- The codes of `_error`; `service_error` is a code that another service raised.
pub data SendCode : Type 0 where
  invalid_input forbidden unsupported_platform idempotency_conflict upstream_unavailable : SendCode
  delivery_rejected delivery_uncertain : SendCode
  service_error : String → SendCode

abbrev pub R : Type 0 → Type 0
R A = Result SendCode A

pub record SendInput : Type 0 where
  pub workspace_id : String
  pub channel_id : String
  pub platform : String
  pub text : String
  pub send_key : String
  pub reply_to_message_id : Option String

pub record Principal : Type 0 where
  pub actor : String
  pub tools : List String
  pub workspace_ids : List String
  pub platforms : List String
  pub channel_agent_id : Option String

abbrev pub one_of : List String → String → Bool
one_of names s = exists (λ n. n == s) names

abbrev pub allowed_keys : List String
allowed_keys =
    "workspace_id" ∷ "channel_id" ∷ "platform" ∷ "text" ∷ "send_key" ∷ "reply_to_message_id" ∷ []

unfoldable pub keys_allowed : Fields → Bool
keys_allowed end = true
keys_allowed (field k v m) = one_of allowed_keys k && keys_allowed m

-- re.fullmatch(r"[0-9]{1,20}", s)
unfoldable pub is_snowflake : String → Bool
is_snowflake s =
    leb 1 (char_count s) && leb (char_count s) 20 && all_chars (λ c. leb b'0' c && leb c b'9') s

-- len(s.encode("utf-16-le")) // 2
unfoldable pub utf16_units : String → ℕ
utf16_units String.[] = 0
utf16_units (String.◌∷◌ c s) = (if leb 65536 (code c) then 2 else 1) + utf16_units s

abbrev pub text_or : SendCode → Option Json → R String
text_or code (some (text s)) = ok s
text_or code _ = err code

-- value.get("platform", "discord")
abbrev pub platform_of : Option Json → R String
platform_of none = ok "discord"
platform_of o = text_or invalid_input o

abbrev pub reply_of : Option Json → R (Option String)
unfolding is_snowflake
reply_of none = ok none
reply_of (some null) = ok none
reply_of (some (text s)) = if is_snowflake s then ok (some s) else err invalid_input
reply_of _ = err invalid_input

unfoldable pub parse_input : Json → R SendInput
unfolding keys_allowed is_snowflake utf16_units
parse_input (obj value) = do
  guard (keys_allowed value) invalid_input
  platform ← platform_of (get value "platform")
  guard (platform == "discord") unsupported_platform
  workspace ← text_or invalid_input (get value "workspace_id")
  guard (not (is_empty workspace) && workspace == strip workspace) invalid_input
  channel ← text_or invalid_input (get value "channel_id")
  guard (is_snowflake channel) invalid_input
  body ← text_or invalid_input (get value "text")
  guard (not (is_empty (strip body))) invalid_input
  key ← text_or invalid_input (get value "send_key")
  guard (leb 1 (char_count key) && leb (char_count key) 128 && all_chars (λ c. leb c 127) key)
      invalid_input
  reply ← reply_of (get value "reply_to_message_id")
  guard (leb (utf16_units body) 1800) invalid_input
  ok (record {
    workspace_id = workspace;
    channel_id = channel;
    platform = platform;
    text = body;
    send_key = key;
    reply_to_message_id = reply;
  })
parse_input _ = err invalid_input

-- A lookup that raises is an error of the service.
abbrev pub looked_up : {A : Type 0} → Result ChannelError A → R A
looked_up (ok a) = ok a
looked_up (err e) = err upstream_unavailable

unfoldable pub authorize : Platform → Db → SendInput → Principal → R (Unit {0})
authorize lib db q p = do
  guard (not (is_empty p.actor)) forbidden
  guard (one_of p.tools "coordinate.channel_send") forbidden
  guard (one_of p.workspace_ids q.workspace_id) forbidden
  guard (one_of p.platforms q.platform) forbidden
  binding ← looked_up (resolve_channel_workspace lib db q.platform q.channel_id)
  guard (allows q.workspace_id binding) forbidden

abbrev pub texts : List String → Items → Items
texts [] rest = rest
texts (s ∷ ss) rest = cons (text s) (texts ss rest)

abbrev pub scope_of : SendInput → String → List String
scope_of q actor = actor ∷ q.workspace_id ∷ q.platform ∷ q.channel_id ∷ []

abbrev pub or_null : Option String → Json
or_null none = null
or_null (some s) = text s

abbrev pub json_or_null : Option Json → Json
json_or_null none = null
json_or_null (some j) = j

-- [sender_identity[key] for key in ("client_id", "agent_id", "discord_user_id")], of a snapshot that
-- `SenderIdentity.snapshot` made
abbrev pub identity_items : Option Fields → Items
identity_items none = nil
identity_items (some m) =
    cons
      (arr (
        cons (json_or_null (get m "client_id")) (
          cons (json_or_null (get m "agent_id"))
            (cons (json_or_null (get m "discord_user_id")) nil))))
      nil

module _ (sha : Json → String) where
  unfoldable pub message_key_of : SendInput → String → String
  message_key_of q actor =
      "channel-io:" ⧺ sha (arr (texts (scope_of q actor) (cons (text q.send_key) nil)))

  unfoldable pub fingerprint_of : SendInput → String → Option Fields → String
  fingerprint_of q actor sender_identity = sha (
      arr (
        texts (scope_of q actor) (
          cons (text q.text) (
            cons (or_null q.reply_to_message_id)
              (cons (text "channel_io.v1") (identity_items sender_identity))))))
