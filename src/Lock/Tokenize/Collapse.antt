-- ===== src/Lock/Tokenize/Collapse.antt =====
-- src/lock/tokenize.ts, `collapseUnstable` and its three regular expressions, each as the scan that it
-- stands for: names that differ from run to run become `<hash>`.
pub mod Runs
pub mod Stable
pub mod Token
mod Tests
use script_jail.Base.{
  Bool, true, false, not, ◌&&◌, ◌||◌, List, [], ◌∷◌, ◌++◌, ℕ, Text, codes, length, take, drop, all,
  starts_with, leb, ◌==◌, if◌then◌else◌,
}

abbrev pub hash_mark : Text
hash_mark = codes "<hash>"

abbrev pub is_upper : ℕ → Bool
is_upper c = leb b'A' c && leb c b'Z'

abbrev pub is_lower : ℕ → Bool
is_lower c = leb b'a' c && leb c b'z'

abbrev pub is_digit : ℕ → Bool
is_digit c = leb b'0' c && leb c b'9'

abbrev pub is_letter : ℕ → Bool
is_letter c = is_upper c || is_lower c

abbrev pub is_alnum : ℕ → Bool
is_alnum c = is_letter c || is_digit c

-- `[A-Za-z0-9_-]`
pub is_word : ℕ → Bool
is_word c = is_alnum c || c == b'_' || c == b'-'

-- `/^[A-Z][A-Za-z]{15,}$/`
pub is_camel : Text → Bool
is_camel [] = false
is_camel (c ∷ s) = is_upper c && leb 15 (length s) && all is_letter s

-- what a run of word units becomes: the callback of `HASH_PATTERN`, `/[A-Za-z0-9_-]{16,}/g`
pub flush : Text → Text
unfolding is_camel
flush run = if leb 16 (length run) && not (is_camel run) then hash_mark else run

-- `out.replace(HASH_PATTERN, …)`: `run` holds the word units since the last other unit
pub collapse_runs : Text → Text → Text
unfolding flush is_word
collapse_runs run [] = flush run
collapse_runs run (c ∷ s) =
    let word = is_word c in
    let rest = collapse_runs (if word then run ++ c ∷ [] else []) s in
    if word then rest else flush run ++ c ∷ rest

-- `\.tmp(\.[A-Za-z0-9]+)?$` at the front of what is left
temp_rest : Text → Bool
temp_rest [] = true
temp_rest (c ∷ []) = false
temp_rest (c ∷ d ∷ s) = c == b'.' && all is_alnum (d ∷ s)

pub is_temp_suffix : Text → Bool
unfolding temp_rest starts_with
is_temp_suffix s = starts_with s (codes ".tmp") && temp_rest (drop 4 s)

-- `out.replace(TEMP_SUFFIX, '.tmp<hash>')`
pub collapse_temp : Text → Text
unfolding is_temp_suffix
collapse_temp [] = []
collapse_temp (c ∷ s) =
    let rest = collapse_temp s in if is_temp_suffix (c ∷ s) then codes ".tmp<hash>" else c ∷ rest

abbrev pub is_hex : ℕ → Bool
is_hex c = is_digit c || (leb b'a' c && leb c b'f')

-- `(?=\/|$)`
abbrev pub at_boundary : Text → Bool
at_boundary [] = true
at_boundary (c ∷ s) = c == b'/'

-- `[0-9a-f]{n}(?=\/|$)` at the front
hex_segment : ℕ → Text → Bool
hex_segment n s = length (take n s) == n && all is_hex (take n s) && at_boundary (drop n s)

-- `out.replace(YARN_FSLIB_TEMP, '$1<hash>')`: nine digits are tried before eight
pub collapse_launcher : Text → Text
unfolding hex_segment starts_with
collapse_launcher s =
    let rest = drop 12 s in
    if starts_with s (codes "$TMPDIR/xfs-")
    then (if hex_segment 9 rest
        then codes "$TMPDIR/<hash>" ++ drop 9 rest
        else if hex_segment 8 rest
        then codes "$TMPDIR/<hash>" ++ drop 8 rest
        else s)
    else s

unfoldable pub collapse_unstable : Text → Text
unfolding collapse_temp collapse_launcher collapse_runs
collapse_unstable path = collapse_runs [] (collapse_launcher (collapse_temp path))
