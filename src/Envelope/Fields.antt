-- ===== src/Envelope/Fields.antt =====
-- The validators of single values in src/coordinate/lease_envelope.py. A `$` of a regular expression also matches
-- before a newline at the end, so `match_end` drops one. `Clock` stands for the match of the
-- pattern of timestamps and for `datetime.strptime`.
use Prim.Native.Char.{code}
use Prim.Native.String.{◌++◌ as ◌⧺◌}
use coordinate.Base.{
  ℕ, zero, suc, String, Bool, true, false, not, ◌&&◌, ◌||◌, Option, none, some, List, [], ◌∷◌, leb,
  ◌==◌, nat_dec_eq, string_dec_eq, if◌then◌else◌, Result, ok, err, ◌>>=◌, ◌>>◌, guard,
}
use coordinate.Text.{is_empty, strip, char_count, any_char, all_chars}
use coordinate.Json.{Json, int, neg, text}
use coordinate.Table.{exists}

-- Each `LeaseEnvelopeError`, by the check that raises it.
pub data EnvelopeError : Type 0 where
  not_an_object wrong_keys unsupported_version required blank label_too_long unsafe_label :
      EnvelopeError
  not_a_lease_id not_a_digest not_a_timestamp not_absolute control_in_path traversal : EnvelopeError
  not_an_integer not_positive ttl_out_of_range too_many_jobs not_worktree : EnvelopeError
  renew_too_late expires_too_early ttl_mismatch now_too_early now_too_late : EnvelopeError
  mismatch invalid_resource not_canonical : EnvelopeError

abbrev pub R : Type 0 → Type 0
R A = Result EnvelopeError A

pub record Clock : Type 0 where
  pub is_timestamp : String → Bool
  pub strptime : String → Option ℕ

-- s without one newline at its end
unfoldable pub match_end : String → String
match_end String.[] = String.[]
match_end (String.◌∷◌ c s) =
    let rest = match_end s in if code c == 10 && is_empty s then String.[] else String.◌∷◌ c rest

unfoldable pub validate_required_string : Option Json → R String
validate_required_string (some (text s)) = do
  guard (not (is_empty s)) required
  guard (not (is_empty (strip s))) blank
  ok s
validate_required_string _ = err required

abbrev is_label_char : ℕ → Bool
is_label_char c =
    (leb b'A' c && leb c b'Z')
    || (leb b'a' c && leb c b'z')
    || (leb b'0' c && leb c b'9')
    || c == b'_'
    || c == b'.'
    || c == b'-'

-- ^[A-Za-z0-9_.\-]+$
unfoldable pub is_safe_label : String → Bool
unfolding match_end
is_safe_label s = let t = match_end s in not (is_empty t) && all_chars is_label_char t

unfoldable pub validate_bounded_label : Option Json → R String
unfolding validate_required_string is_safe_label
validate_bounded_label value = do
  s ← validate_required_string value
  guard (leb (char_count s) 256) label_too_long
  guard (is_safe_label s) unsafe_label
  ok s

abbrev is_lower_hex : ℕ → Bool
is_lower_hex c = (leb b'0' c && leb c b'9') || (leb b'a' c && leb c b'f')

-- What follows n hexadecimal digits, and what follows a given text.
abbrev after_hex : ℕ → String → Option String
after_hex zero s = some s
after_hex (suc n) String.[] = none
after_hex (suc n) (String.◌∷◌ c s) =
    let rest = after_hex n s in if is_lower_hex (code c) then rest else none

abbrev after_text : String → String → Option String
after_text String.[] s = some s
after_text (String.◌∷◌ c p) String.[] = none
after_text (String.◌∷◌ c p) (String.◌∷◌ d s) =
    let rest = after_text p s in if code c == code d then rest else none

abbrev and_then : Option String → (String → Option String) → Option String
and_then none f = none
and_then (some s) f = f s

abbrev is_end : Option String → Bool
is_end none = false
is_end (some s) = is_empty s

-- ^[0-9a-f]{8}-[0-9a-f]{4}-[0-9a-f]{4}-[0-9a-f]{4}-[0-9a-f]{12}$
unfoldable pub is_lease_id : String → Bool
unfolding match_end
is_lease_id s =
    let group =
      λ (n : ℕ) (o : Option String). and_then (and_then o (after_text "-")) (after_hex n) in
    is_end (group 12 (group 4 (group 4 (group 4 (after_hex 8 (match_end s))))))

unfoldable pub validate_lease_id : Option Json → R String
unfolding validate_required_string is_lease_id
validate_lease_id value = do
  s ← validate_required_string value
  guard (is_lease_id s) not_a_lease_id
  ok s

-- ^sha256:[0-9a-f]{64}$
unfoldable pub is_digest : String → Bool
unfolding match_end
is_digest s = is_end (and_then (after_text "sha256:" (match_end s)) (after_hex 64))

unfoldable pub validate_digest : Option Json → R String
unfolding validate_required_string is_digest
validate_digest value = do
  s ← validate_required_string value
  guard (is_digest s) not_a_digest
  ok s

abbrev parses : Option ℕ → Bool
parses none = false
parses (some n) = true

unfoldable pub validate_timestamp : Clock → Option Json → R String
unfolding validate_required_string
validate_timestamp clock value = do
  s ← validate_required_string value
  guard (clock.is_timestamp s) not_a_timestamp
  guard (parses (clock.strptime s)) not_a_timestamp
  ok s

abbrev is_slash : ℕ → Bool
is_slash c = c == b'/' || c == 92

abbrev is_letter : ℕ → Bool
is_letter c = (leb b'A' c && leb c b'Z') || (leb b'a' c && leb c b'z')

-- path.startswith("/") or ^([A-Za-z]:[\\/]|\\\\|//)
unfoldable pub is_abs : String → Bool
is_abs String.[] = false
is_abs (String.◌∷◌ c String.[]) = code c == b'/'
is_abs (String.◌∷◌ c (String.◌∷◌ d String.[])) = code c == b'/' || (code c == 92 && code d == 92)
is_abs (String.◌∷◌ c (String.◌∷◌ d (String.◌∷◌ e s))) =
    code c == b'/'
    || (code c == 92 && code d == 92)
    || (is_letter (code c) && code d == b':' && is_slash (code e))

abbrev put_first : String → List String → List String
put_first c [] = c ∷ []
put_first c (s ∷ ss) = (c ⧺ s) ∷ ss

-- s.replace("\\", "/").split("/")
unfoldable pub segments : String → List String
segments String.[] = "" ∷ []
segments (String.◌∷◌ c s) =
    let rest = segments s in
    if is_slash (code c) then "" ∷ rest else put_first (String.◌∷◌ c String.[]) rest

abbrev has_traversal : List String → Bool
has_traversal ss = exists (λ s. s == ".." || s == ".") ss

unfoldable pub validate_path : Option Json → R String
unfolding validate_required_string is_abs segments
validate_path value = do
  s ← validate_required_string value
  guard (not (any_char (λ c. c == 0 || c == 10 || c == 13) s)) control_in_path
  guard (is_abs s) not_absolute
  guard (not (has_traversal (segments s))) traversal
  ok s

unfoldable pub validate_positive_int : Option Json → R ℕ
validate_positive_int (some (int n)) = if leb n 0 then err not_positive else ok n
validate_positive_int (some (neg n)) = err not_positive
validate_positive_int _ = err not_an_integer

unfoldable pub validate_ttl : Option Json → R ℕ
unfolding validate_positive_int
validate_ttl value = do
  ttl ← validate_positive_int value
  guard (leb 30 ttl && leb ttl 600) ttl_out_of_range
  ok ttl

unfoldable pub validate_max_concurrent_jobs : Option Json → R ℕ
unfolding validate_positive_int
validate_max_concurrent_jobs value = do
  n ← validate_positive_int value
  guard (leb n 32) too_many_jobs
  ok n
