-- ===== src/Prelude/Text.antt =====
-- Python's `str` methods on native texts, by recursion over the characters. `strip` removes every
-- character that Python counts as white space; `lower` changes the ASCII letters only.
use Prim.Native.Nat.{ℕ, zero, suc, ◌+◌, ◌-◌, ◌*◌}
use Prim.Native.Char.{Char, code}
use Prim.Native.String
use Prim.Native.String.{String}
use mathlib.Core.Bool.{Bool, true, false, ◌&&◌, ◌||◌}
use mathlib.Core.Option.{Option, none, some}
use mathlib.Core.List.{List, [], ◌∷◌}
use text.Mathlib.Text.{starts_with as text_starts_with}
use grantora.Prelude.Tests.{leb, ltb, ◌==◌, nat_eq, string_eq, if◌then◌else◌}

abbrev pub is_space : Char → Bool
is_space c =
    let n = code c in
    (leb 9 n && leb n 13)
    || (leb 28 n && leb n 32)
    || n == 133
    || n == 160
    || n == 5760
    || (leb 8192 n && leb n 8202)
    || n == 8232
    || n == 8233
    || n == 8239
    || n == 8287
    || n == 12288

-- `ch in "0123456789"`, and the ASCII letters.
abbrev pub is_digit : ℕ → Bool
is_digit n = leb b'0' n && leb n b'9'

abbrev pub is_lower : ℕ → Bool
is_lower n = leb b'a' n && leb n b'z'

abbrev pub is_upper : ℕ → Bool
is_upper n = leb b'A' n && leb n b'Z'

-- The code points of a text.
unfoldable pub codes : String → List ℕ
codes String.[] = []
codes (String.◌∷◌ c s) = code c ∷ codes s

-- `len(s)`.
unfoldable pub text_length : String → ℕ
text_length String.[] = 0
text_length (String.◌∷◌ c s) = suc (text_length s)

-- `s.partition(" ")`, as `None` where the separator is missing.
unfoldable pub partition_space : String → Option (String × String)
partition_space String.[] = none
partition_space (String.◌∷◌ c s) =
    let rest = partition_space s in
    if code c == 32
    then some ("", s)
    else elim rest [ none ↦ none | some (a, b) ↦ some (String.◌∷◌ c a, b) ]

unfoldable pub lstrip : String → String
lstrip String.[] = ""
lstrip (String.◌∷◌ c s) = if is_space c then lstrip s else String.◌∷◌ c s

unfoldable pub rstrip : String → String
rstrip String.[] = ""
rstrip (String.◌∷◌ c s) =
    let rest = rstrip s in if is_space c && rest == "" then "" else String.◌∷◌ c rest

-- `s.strip()`.
unfoldable pub strip : String → String
unfolding lstrip rstrip
strip s = rstrip (lstrip s)

-- `s.lower() == word`, for a word of lower-case ASCII letters.
unfoldable pub lower_codes : String → List ℕ
lower_codes String.[] = []
lower_codes (String.◌∷◌ c s) = (if is_upper (code c) then code c + 32 else code c) ∷ lower_codes s

-- `s.split(",")`.
unfoldable pub split_comma : String → List String
split_comma String.[] = "" ∷ []
split_comma (String.◌∷◌ c s) =
    let rest = split_comma s in
    if code c == 44
    then "" ∷ rest
    else elim rest [ [] ↦ String.◌∷◌ c "" ∷ [] | x ∷ xs ↦ String.◌∷◌ c x ∷ xs ]

infixr 66 ◌<>◌
abbrev pub ◌<>◌ : String → String → String
s <> t = String.◌++◌ s t

-- `s.startswith(prefix)`.
abbrev pub starts_with : String → String → Bool
starts_with s prefix = text_starts_with s prefix

-- `s.removeprefix(prefix)` where the prefix is there: the text behind its first `n` characters.
unfoldable pub drop_chars : ℕ → String → String
drop_chars zero s = s
drop_chars (suc n) String.[] = ""
drop_chars (suc n) (String.◌∷◌ c s) = drop_chars n s

-- Python's order on texts, by code points.
unfoldable pub text_leb : String → String → Bool
text_leb String.[] t = true
text_leb (String.◌∷◌ c s) String.[] = false
text_leb (String.◌∷◌ c s) (String.◌∷◌ d t) =
    let rest = text_leb s t in if code c == code d then rest else ltb (code c) (code d)

-- `word in s`.
unfoldable pub text_contains : String → String → Bool
text_contains word String.[] = word == ""
text_contains word (String.◌∷◌ c s) = text_starts_with (String.◌∷◌ c s) word || text_contains word s

-- `s[:n]`.
unfoldable pub take_chars : ℕ → String → String
take_chars zero s = ""
take_chars (suc n) String.[] = ""
take_chars (suc n) (String.◌∷◌ c s) = String.◌∷◌ c (take_chars n s)

-- `ch in "0-9A-Za-z"`.
abbrev pub is_alphanumeric : ℕ → Bool
is_alphanumeric n = is_digit n || is_upper n || is_lower n

-- `re.sub(r"[^0-9A-Za-z]+", "_", s)`; the flag says that the character before was replaced.
unfoldable pub sub_runs : Bool → String → String
sub_runs in_run String.[] = ""
sub_runs in_run (String.◌∷◌ c s) =
    let kept = String.◌∷◌ c (sub_runs false s) in
    let replaced = sub_runs true s in
    if is_alphanumeric (code c) then kept else if in_run then replaced else ("_" <> replaced)

-- `s.lstrip("_")`, `s.rstrip("_")` and `s.strip("_")`.
unfoldable pub lstrip_underscore : String → String
lstrip_underscore String.[] = ""
lstrip_underscore (String.◌∷◌ c s) =
    let rest = lstrip_underscore s in if code c == b'_' then rest else String.◌∷◌ c s

unfoldable pub rstrip_underscore : String → String
rstrip_underscore String.[] = ""
rstrip_underscore (String.◌∷◌ c s) =
    let rest = rstrip_underscore s in if code c == b'_' && rest == "" then "" else String.◌∷◌ c rest

unfoldable pub strip_underscore : String → String
unfolding lstrip_underscore rstrip_underscore
strip_underscore s = rstrip_underscore (lstrip_underscore s)

-- The letter at the place that `c` has among the first letters.
unfoldable pub letter_for : String → String → Char → Char
letter_for (String.◌∷◌ a s) (String.◌∷◌ b t) c =
    let later = letter_for s t c in if code a == code c then b else later
letter_for _ _ c = c

-- `s.lower()`, of the ASCII letters.
unfoldable pub lower : String → String
unfolding letter_for
lower String.[] = ""
lower (String.◌∷◌ c s) =
    String.◌∷◌ (letter_for "ABCDEFGHIJKLMNOPQRSTUVWXYZ" "abcdefghijklmnopqrstuvwxyz" c) (lower s)

-- `s[0].isdigit()` of a text of ASCII characters, `False` where it is empty.
unfoldable pub starts_with_digit : String → Bool
starts_with_digit String.[] = false
starts_with_digit (String.◌∷◌ c s) = is_digit (code c)

-- `s.split(sep, 1)[1]`, `None` where `sep` is not in `s`.
unfoldable pub text_after : String → String → Option String
unfolding drop_chars text_length
text_after sep String.[] = if sep == "" then some "" else none
text_after sep (String.◌∷◌ c s) =
    let rest = text_after sep s in
    if text_starts_with (String.◌∷◌ c s) sep
    then some (drop_chars (text_length sep) (String.◌∷◌ c s))
    else rest

-- `s.rstrip("/")`, and `s.rsplit("/", 1)[-1]`.
unfoldable pub rstrip_slash : String → String
rstrip_slash String.[] = ""
rstrip_slash (String.◌∷◌ c s) =
    let rest = rstrip_slash s in if code c == b'/' && rest == "" then "" else String.◌∷◌ c rest

unfoldable pub last_segment : String → String
unfolding text_contains
last_segment String.[] = ""
last_segment (String.◌∷◌ c s) =
    let rest = last_segment s in
    if text_contains "/" s then rest else if code c == b'/' then s else String.◌∷◌ c s

-- `int(s)` of a text of the digits 0 to 9, with the value of the digits before; `None` for another.
unfoldable pub read_digits : ℕ → String → Option ℕ
read_digits value String.[] = some value
read_digits value (String.◌∷◌ c s) =
    let rest = read_digits (value * 10 + (code c - b'0')) s in
    if is_digit (code c) then rest else none

-- `int(s)` where `s.isdigit()`, as far as the digits are those of ASCII.
unfoldable pub int_of_digits : String → Option ℕ
unfolding read_digits
int_of_digits s = if s == "" then none else read_digits 0 s
