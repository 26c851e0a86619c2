-- ===== src/Guest/StraceParser/Argv.antt =====
-- src/guest/strace-parser.ts: `parseArgvToken`, the arguments of a call of exec as strace prints them.
pub mod Printed
use script_jail.Base.{
  ℕ, zero, suc, ◌+◌, ◌-◌, Bool, true, false, ◌||◌, List, [], ◌∷◌, ◌++◌, Option, none, some, Text,
  codes, starts_with, length, drop, trim, is_white_space, text_eq, ◌==◌, if◌then◌else◌,
}
use script_jail.Guest.StraceParser.Strings.{double_quote, extract_quoted_string}

-- `s.replace(/^\[/, '')`
abbrev pub strip_open : Text → Text
strip_open [] = []
strip_open (c ∷ s) = if c == b'[' then s else c ∷ s

-- `s.replace(/\]$/, '')`
unfoldable pub strip_close : Text → Text
strip_close [] = []
strip_close (c ∷ []) = if c == b']' then [] else c ∷ []
strip_close (c ∷ d ∷ s) = c ∷ strip_close (d ∷ s)

abbrev one_more : Option ℕ → Option ℕ
one_more none = none
one_more (some n) = some (suc n)

-- The number of units up to the end of a comment, the end included.
unfoldable pub comment_end : Text → Option ℕ
unfolding starts_with
comment_end [] = none
comment_end (c ∷ s) =
    let later = one_more (comment_end s) in
    if starts_with (c ∷ s) (codes "*/") then some 2 else later

-- The number of units of a comment behind its first one, where it begins with both its units.
abbrev pub comment_at : Text → Option ℕ
comment_at [] = none
comment_at (c ∷ s) =
    if starts_with (c ∷ s) (codes "/*") then one_more (comment_end (drop 1 s)) else none

abbrev pass_comment : Option ℕ → ℕ → (ℕ → Text) → Text
pass_comment none c next = c ∷ next 0
pass_comment (some skip) c next = next skip

-- `s.replace(/\/\*[\s\S]*?\*\//g, '')`, with the units of a comment that are still to be passed
unfoldable pub remove_comments : ℕ → Text → Text
unfolding comment_end starts_with
remove_comments skip [] = []
remove_comments (suc skip) (c ∷ s) = remove_comments skip s
remove_comments zero (c ∷ s) = pass_comment (comment_at (c ∷ s)) c (λ skip. remove_comments skip s)

abbrev pub is_between : ℕ → Bool
is_between c = c == b',' || is_white_space c

-- The units up to the next separator.
unfoldable pub unquoted : Text → Text
unfolding is_white_space
unquoted [] = []
unquoted (c ∷ s) = let rest = unquoted s in if is_between c then [] else c ∷ rest

-- What stands at a place: a unit to be passed, an argument with the number of units behind its first,
-- or the dots of a truncated array.
pub data FoundArgument : Type 0 where
  no_argument : FoundArgument
  argument : Text → ℕ → FoundArgument
  truncated : FoundArgument

abbrev found_string : Text → Option (Text × Text) → FoundArgument
found_string s none = no_argument
found_string s (some (val, rest)) = argument val (length s - length rest)

abbrev pub find_argument : ℕ → Text → FoundArgument
find_argument c s =
    if is_between c
    then no_argument
    else (if c == double_quote
        then found_string s (extract_quoted_string (c ∷ s))
        else (if starts_with (c ∷ s) (codes "...")
            then truncated
            else argument (unquoted (c ∷ s)) (length (unquoted s))))

abbrev add_argument : FoundArgument → (ℕ → List Text) → List Text
add_argument no_argument next = next 0
add_argument (argument val skip) next = val ∷ next skip
add_argument truncated next = []

-- The loop, with the units of the last argument that are still to be passed.
unfoldable pub arguments_from : ℕ → Text → List Text
unfolding is_white_space extract_quoted_string unquoted starts_with
arguments_from skip [] = []
arguments_from (suc skip) (c ∷ s) = arguments_from skip s
arguments_from zero (c ∷ s) = add_argument (find_argument c s) (λ skip. arguments_from skip s)

abbrev pub arguments_of : Text → List Text
arguments_of cleaned = if text_eq cleaned (codes "...") then [] else arguments_from 0 cleaned

unfoldable pub parse_argv_token : Text → List Text
unfolding strip_close remove_comments arguments_from trim text_eq
parse_argv_token token =
    arguments_of (trim (remove_comments 0 (trim (strip_close (strip_open token)))))
