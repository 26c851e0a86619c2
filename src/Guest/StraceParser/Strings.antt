-- ===== src/Guest/StraceParser/Strings.antt =====
-- src/guest/strace-parser.ts: quoted strings and their escapes.
pub mod Spelled
use Prim.Native.Nat.{◌*◌}
use script_jail.Base.{
  ℕ, zero, suc, ◌+◌, ◌-◌, Bool, true, false, ◌&&◌, ◌||◌, List, [], ◌∷◌, ◌++◌, Option, none, some,
  Text, codes, leb, ◌==◌, if◌then◌else◌, starts_with, length, drop,
}

abbrev pub backslash : ℕ
backslash = 92

abbrev pub double_quote : ℕ
double_quote = 34

-- The escapes of one letter.
unfoldable pub letter_escape : ℕ → Option ℕ
letter_escape e =
    if e == backslash
    then some backslash
    else (if e == double_quote
        then some double_quote
        else (if e == b'n'
            then some 10
            else (if e == b't'
                then some 9
                else (if e == b'r'
                    then some 13
                    else (if e == b'a'
                        then some 7
                        else (if e == b'b'
                            then some 8
                            else (if e == b'f'
                                then some 12
                                else (if e == b'v' then some 11 else none))))))))

unfoldable pub octal_digit : ℕ → Option ℕ
octal_digit c = if leb b'0' c && leb c b'7' then some (c - b'0') else none

unfoldable pub hex_digit : ℕ → Option ℕ
hex_digit c =
    if leb b'0' c && leb c b'9'
    then some (c - b'0')
    else (if leb b'a' c && leb c b'f'
        then some (c - b'a' + 10)
        else (if leb b'A' c && leb c b'F' then some (c - b'A' + 10) else none))

abbrev with_digit : Option ℕ → ℕ × ℕ → (ℕ → ℕ × ℕ) → ℕ × ℕ
with_digit none stop next = stop
with_digit (some d) stop next = next d

-- The value of at most `more` further digits, and the number of digits, given those before.
unfoldable pub read_digits : (ℕ → Option ℕ) → ℕ → ℕ → ℕ → ℕ → Text → ℕ × ℕ
read_digits digit base zero value count s = (value, count)
read_digits digit base (suc more) value count [] = (value, count)
read_digits digit base (suc more) value count (c ∷ s) =
    with_digit (digit c) (value, count)
      (λ d. read_digits digit base more (value * base + d) (suc count) s)

-- A numeric escape, if it has a digit: its unit, and its length with what stands before the digits.
abbrev pub numeric : ℕ → ℕ × ℕ → Option (ℕ × ℕ)
numeric before (value, zero) = none
numeric before (value, suc count) = some (value, before + suc count)

abbrev pub escape_by : Option ℕ → ℕ → Text → Option (ℕ × ℕ)
escape_by (some unit) e s = some (unit, 1)
escape_by none e s =
    if e == b'x'
    then numeric 1 (read_digits hex_digit 16 2 0 0 s)
    else numeric 0 (read_digits octal_digit 8 3 0 0 (e ∷ s))

-- What an escape stands for, and how many units behind the backslash belong to it.
unfoldable pub escape : Text → Option (ℕ × ℕ)
unfolding letter_escape octal_digit hex_digit read_digits
escape [] = none
escape (e ∷ s) = escape_by (letter_escape e) e s

abbrev pub escape_at : ℕ → Text → Option (ℕ × ℕ)
escape_at c s = if c == backslash then escape s else none

abbrev put : Option (ℕ × ℕ) → ℕ → (ℕ → Text) → Text
put none c next = c ∷ next 0
put (some (unit, length)) c next = unit ∷ next length

-- The replacement of the escapes, with the units of the last one that are still to be passed.
unfoldable pub unescape_from : ℕ → Text → Text
unfolding escape
unescape_from skip [] = []
unescape_from (suc skip) (c ∷ s) = unescape_from skip s
unescape_from zero (c ∷ s) = put (escape_at c s) c (λ skip. unescape_from skip s)

abbrev pub unescape : Text → Text
unescape s = unescape_from 0 s

abbrev pub unescape_strace_string : Text → Text
unescape_strace_string s = unescape s

-- The body of a string, as it is written, and what follows the closing quote.
abbrev Body : Type 0
Body = Option (Text × Text)

abbrev with_unit : ℕ → Body → Body
with_unit c none = none
with_unit c (some (raw, rest)) = some (c ∷ raw, rest)

-- The loop; `escaped` behind a backslash, whose next unit is taken as it is.
unfoldable pub body : Bool → Text → Body
body escaped [] = none
body true (c ∷ s) = with_unit c (body false s)
body false (c ∷ s) =
    let rest = with_unit c (body (c == backslash) s) in
    if c == double_quote then some ([], s) else rest

-- The dots of a truncated string are passed.
abbrev pub skip_dots : Text → Text
skip_dots s = if starts_with s (codes "...") then drop 3 s else s

abbrev unescape_body : Body → Option (Text × Text)
unescape_body none = none
unescape_body (some (raw, rest)) = some (unescape raw, skip_dots rest)

-- `extractQuotedString`, with what follows in place of its index
unfoldable pub extract_quoted_string : Text → Option (Text × Text)
unfolding body unescape_from starts_with
extract_quoted_string [] = none
extract_quoted_string (c ∷ s) = if c == double_quote then unescape_body (body false s) else none
