-- ===== src/Text.antt =====
-- Python's `str` operations that the program uses, over the code points of native strings.
use Prim.Native.Char.{Char, code}
use coordinate.Base.{
  nat_dec_eq, string_dec_eq, ℕ, suc, String, Bool, true, false, ◌&&◌, ◌||◌, leb, ◌==◌,
  if◌then◌else◌,
}

-- The code points that `str.strip` removes, those of `str.isspace`.
unfoldable pub is_space : ℕ → Bool
is_space c =
    (leb 9 c && leb c 13)
    || (leb 28 c && leb c 32)
    || c == 133
    || c == 160
    || c == 5760
    || (leb 8192 c && leb c 8202)
    || c == 8232
    || c == 8233
    || c == 8239
    || c == 8287
    || c == 12288

-- [\x00-\x1f\x7f]
unfoldable pub is_control : ℕ → Bool
is_control c = leb c 31 || c == 127

abbrev pub is_empty : String → Bool
is_empty String.[] = true
is_empty (String.◌∷◌ c s) = false

-- len(s)
unfoldable pub char_count : String → ℕ
char_count String.[] = 0
char_count (String.◌∷◌ c s) = suc (char_count s)

-- re.search over a class of characters
unfoldable pub any_char : (ℕ → Bool) → String → Bool
any_char p String.[] = false
any_char p (String.◌∷◌ c s) = p (code c) || any_char p s

unfoldable pub all_chars : (ℕ → Bool) → String → Bool
all_chars p String.[] = true
all_chars p (String.◌∷◌ c s) = p (code c) && all_chars p s

unfoldable pub has_control : String → Bool
unfolding any_char is_control
has_control s = any_char is_control s

-- s.lstrip()
lstrip : String → String
unfolding is_space
lstrip String.[] = String.[]
lstrip (String.◌∷◌ c s) = let rest = lstrip s in if is_space (code c) then rest else String.◌∷◌ c s

-- s.rstrip(): a space is kept only where something that is kept follows it
keep_before : Char → String → String
unfolding is_space
keep_before c String.[] = if is_space (code c) then String.[] else String.◌∷◌ c String.[]
keep_before c (String.◌∷◌ d s) = String.◌∷◌ c (String.◌∷◌ d s)

rstrip : String → String
unfolding keep_before
rstrip String.[] = String.[]
rstrip (String.◌∷◌ c s) = keep_before c (rstrip s)

-- s.strip()
unfoldable pub strip : String → String
unfolding lstrip rstrip
strip s = rstrip (lstrip s)

-- bool(s.strip())
unfoldable pub is_blank : String → Bool
unfolding is_space all_chars
is_blank s = all_chars is_space s
