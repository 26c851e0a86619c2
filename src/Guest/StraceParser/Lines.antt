-- ===== src/Guest/StraceParser/Lines.antt =====
-- src/guest/strace-parser.ts: a line of strace, its arguments and what the call returned, and the stream
-- of the lines of a process.
pub mod Stream
pub mod Stamps
pub mod Numbered
pub mod Printed
pub mod Arguments
pub mod Results
pub mod Called
mod Tests
use script_jail.Base.{
  ℕ, zero, suc, ◌+◌, ◌-◌, Bool, true, false, not, ◌&&◌, ◌||◌, List, [], ◌∷◌, ◌++◌, Option, none,
  some, Text, codes, text_eq, starts_with, ends_with, includes, length, drop, trim, trim_start,
  is_white_space, leb, ◌==◌, if◌then◌else◌,
}
use script_jail.Lock.Schema.{RawEvent}
use script_jail.Guest.StraceParser.Strings.{double_quote, extract_quoted_string}
use script_jail.Guest.StraceParser.Syscalls.{RetVal, Parsed, if_some, is_decimal}
use script_jail.Guest.StraceParser.Calls.{skip_digits, or_further, find_after, parse_syscall}

-- `\d{2}`, with what follows
abbrev two_digits : Text → Option Text
two_digits [] = none
two_digits (a ∷ []) = none
two_digits (a ∷ b ∷ s) = if is_decimal a && is_decimal b then some s else none

abbrev colon : Text → Option Text
colon [] = none
colon (c ∷ s) = if c == b':' then some s else none

-- `(?:\.\d+)?`, passed
abbrev skip_fraction : Text → Text
skip_fraction [] = []
skip_fraction (c ∷ []) = c ∷ []
skip_fraction (c ∷ d ∷ s) = if c == b'.' && is_decimal d then skip_digits s else c ∷ d ∷ s

-- `\s+`, with what follows
abbrev some_blank : Text → Option Text
some_blank [] = none
some_blank (c ∷ s) = if is_white_space c then some (trim_start s) else none

abbrev or_line : Option Text → Text → Text
or_line none line = line
or_line (some rest) line = rest

unfoldable pub strip_timestamp : Text → Text
unfolding skip_digits is_white_space trim_start
strip_timestamp line =
    or_line
      (if_some (two_digits line) (λ a. if_some (colon a) (λ b. if_some (two_digits b) (λ c.
        if_some (colon c) (λ d. if_some (two_digits d) (λ e. some_blank (skip_fraction e)))))))
      line

-- How many units behind a quote belong to the string that it opens, if one is closed.
abbrev string_length : Text → Option (Text × Text) → Option ℕ
string_length s none = none
string_length s (some (content, rest)) = some (length s - length rest)

abbrev pub string_at : ℕ → Text → Option ℕ
string_at c s = if c == double_quote then string_length s (extract_quoted_string (c ∷ s)) else none

abbrev opens : ℕ → Bool
opens c = c == b'(' || c == b'[' || c == b'{'

abbrev closes : ℕ → Bool
closes c = c == b')' || c == b']' || c == b'}'

-- The variables of the loop: units to pass, brackets opened and closed, and the argument so far.
pub record ArgState : Type 0 where
  pub skip : ℕ
  pub openings : ℕ
  pub closings : ℕ
  pub cur : Text

abbrev add_unit : ArgState → ℕ → ArgState
add_unit st c = record st { cur = st.cur ++ c ∷ [] }

-- A unit outside of strings: the argument that it ends, if it does, and the new state.
abbrev outside_string : ArgState → ℕ → Option Text × ArgState
outside_string st c =
    if opens c
    then (none, record (add_unit st c) { openings = suc st.openings })
    else (if closes c
        then (none, record (add_unit st c) { closings = suc st.closings })
        else (if c == b',' && st.openings == st.closings
            then (some (trim st.cur), record st { cur = [] })
            else (none, add_unit st c)))

abbrev at_string : Option ℕ → ArgState → ℕ → Option Text × ArgState
at_string none st c = outside_string st c
at_string (some length) st c = (none, record (add_unit st c) { skip = length })

abbrev next_unit : ℕ → ArgState → ℕ → Text → Option Text × ArgState
next_unit zero st c s = at_string (string_at c s) st c
next_unit (suc skip) st c s = (none, record (add_unit st c) { skip = skip })

abbrev cons_some : Option Text → List Text → List Text
cons_some none args = args
cons_some (some a) args = a ∷ args

abbrev nonempty_arg : Text → List Text
nonempty_arg [] = []
nonempty_arg (c ∷ s) = (c ∷ s) ∷ []

unfoldable pub split_from : ArgState → Text → List Text
unfolding trim extract_quoted_string
split_from st [] = nonempty_arg (trim st.cur)
split_from st (c ∷ s) =
    let (ended, next) = next_unit st.skip st c s in cons_some ended (split_from next s)

unfoldable pub split_args : Text → List Text
unfolding split_from
split_args s = split_from (record { skip = 0; openings = 0; closings = 0; cur = [] }) s

abbrev is_word_unit : ℕ → Bool
is_word_unit c =
    is_decimal c || (leb b'a' c && leb c b'z') || (leb b'A' c && leb c b'Z') || c == b'_'

-- What follows the first unit `end`.
unfoldable pub behind : ℕ → Text → Option Text
behind end [] = none
behind end (c ∷ s) = let rest = behind end s in if c == end then some s else rest

abbrev is_blank : Text → Bool
is_blank s = text_eq (trim_start s) []

abbrev blank_behind : Option Text → Bool
blank_behind none = false
blank_behind (some s) = is_blank s

abbrev ends_here : Text → Bool
ends_here [] = true
ends_here (c ∷ s) = if c == b'<' then blank_behind (behind b'>' s) else false

-- `\s*(?:<[^>]*>)?\s*$`
abbrev line_ends : Text → Bool
line_ends s = ends_here (trim_start s)

abbrev with_word : ℕ → Text × Text → Text × Text
with_word c (word, rest) = (c ∷ word, rest)

-- `\w*`, with what follows
unfoldable pub word : Text → Text × Text
word [] = ([], [])
word (c ∷ s) = let longer = with_word c (word s) in if is_word_unit c then longer else ([], c ∷ s)

abbrev closed_explanation : Text → Option Text → Option Text
closed_explanation name none = none
closed_explanation name (some rest) = if line_ends rest then some name else none

abbrev explanation : Text → Text → Option Text
explanation name [] = none
explanation name (c ∷ s) = if c == b'(' then closed_explanation name (behind b')' s) else none

abbrev explained : Text × Text → Option Text
explained ([], rest) = none
explained (c ∷ name, rest) = explanation (c ∷ name) (trim_start rest)

-- `\s*(?:(\w+)\s*\([^)]*\))?` up to the end of the line: the name, if there is one
abbrev errno_at : Text → Option (Option Text)
errno_at s = found (explained (word (trim_start s)))
  where
    found : Option Text → Option (Option Text)
    found none = if line_ends s then some none else none
    found (some name) = some (some name)

abbrev pub ret_val : Text → Option Text → RetVal
ret_val raw errno = of_error (text_eq raw (codes "-1"))
  where
    of_error : Bool → RetVal
    of_error true = record { raw = raw; is_error = true; errno = errno }
    of_error false = record { raw = raw; is_error = false; errno = none }

abbrev with_errno : Text → Option (Option Text) → Option RetVal
with_errno raw none = none
with_errno raw (some errno) = some (ret_val raw errno)

-- `\w*` and the rest of the line, the longest word first
unfoldable pub raw_from : Text → Text → Option RetVal
unfolding word trim_start behind text_eq
raw_from raw [] = with_errno raw (errno_at [])
raw_from raw (c ∷ s) =
    let longer = raw_from (raw ++ c ∷ []) s in
    or_further (if is_word_unit c then longer else none) (with_errno raw (errno_at (c ∷ s)))

abbrev digit_at : Text → Text → Option RetVal
digit_at sign [] = none
digit_at sign (c ∷ s) = if is_decimal c then raw_from (sign ++ c ∷ []) s else none

-- `-?\d\w*` and the rest of the line
abbrev number_at : Text → Option RetVal
number_at [] = none
number_at (c ∷ s) = if c == b'-' then digit_at (c ∷ []) s else digit_at [] (c ∷ s)

unfoldable pub parse_ret_val : Text → Option RetVal
unfolding find_after raw_from is_white_space trim_start
parse_ret_val line = find_after (codes "=") (λ s. if_some (some_blank s) number_at) line

-- `line.slice(0, line.indexOf('('))`, and what follows the parenthesis
abbrev with_name : ℕ → Option (Text × Text) → Option (Text × Text)
with_name c none = none
with_name c (some (name, rest)) = some (c ∷ name, rest)

unfoldable pub open_paren : Text → Option (Text × Text)
open_paren [] = none
open_paren (c ∷ s) =
    let rest = with_name c (open_paren s) in if c == b'(' then some ([], s) else rest

-- Where the scan for the closing parenthesis goes on: units to pass, and open parentheses but one.
abbrev at_paren : ℕ → ℕ → Option (ℕ × ℕ)
at_paren depth c =
    if c == b'('
    then some (0, suc depth)
    else (if c == b')' then (shallower depth) else some (0, depth))
  where
    shallower : ℕ → Option (ℕ × ℕ)
    shallower zero = none
    shallower (suc d) = some (0, d)

abbrev paren_string : Option ℕ → ℕ → ℕ → Option (ℕ × ℕ)
paren_string none depth c = at_paren depth c
paren_string (some length) depth c = some (length, depth)

abbrev next_paren : ℕ → ℕ → ℕ → Text → Option (ℕ × ℕ)
next_paren zero depth c s = paren_string (string_at c s) depth c
next_paren (suc skip) depth c s = some (skip, depth)

abbrev scan_on : Option (ℕ × ℕ) → ℕ → Text → (ℕ → ℕ → Option (Text × Text)) → Option (Text × Text)
scan_on none c s next = some ([], s)
scan_on (some (skip, depth)) c s next = with_name c (next skip depth)

-- The arguments and what follows their closing parenthesis.
unfoldable pub close_paren : ℕ → ℕ → Text → Option (Text × Text)
unfolding extract_quoted_string
close_paren skip depth [] = none
close_paren skip depth (c ∷ s) =
    scan_on (next_paren skip depth c s) c s (λ skip' depth'. close_paren skip' depth' s)

-- Lines that are no call: signals, exits, halves of calls, noise.
unfoldable pub is_dropped_line : Text → Bool
unfolding starts_with ends_with includes
is_dropped_line line =
    (starts_with line (codes "---") && ends_with line (codes "---"))
    || (starts_with line (codes "+++") && ends_with line (codes "+++"))
    || includes line (codes "<unfinished ...>")
    || (starts_with line (codes "<...") && includes line (codes "resumed>"))
    || starts_with line (codes "strace: ")

abbrev pub parse_body : Text → ℕ → ℕ → Text × Text → Parsed
parse_body name pid ts (arg_body, suffix) =
    if_some (parse_ret_val suffix) (λ r. parse_syscall name (split_args arg_body) r pid ts)

abbrev pub parse_call : ℕ → ℕ → Text × Text → Parsed
parse_call pid ts (name, rest) = if_some (close_paren 0 0 rest) (parse_body (trim name) pid ts)

-- No part of the model throws.
unfoldable pub parse_strace_line : Text → ℕ → ℕ → Parsed
unfolding strip_timestamp trim is_dropped_line open_paren close_paren parse_ret_val split_args
    parse_syscall
parse_strace_line line pid ts =
    let text = strip_timestamp (trim line) in
    if is_dropped_line text then none else if_some (open_paren text) (parse_call pid ts)
