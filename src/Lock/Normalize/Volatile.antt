-- ===== src/Lock/Normalize/Volatile.antt =====
-- src/lock/normalize.ts, `normalizeVolatilePath`: the name of a debug log of npm holds a time.
pub mod Laws
use script_jail.Base.{
  Bool, true, false, ◌&&◌, ◌||◌, List, [], ◌∷◌, ◌++◌, ℕ, Option, none, some, Text, codes, length,
  drop, leb, ends_with, text_eq, ◌==◌, if◌then◌else◌,
}
use script_jail.Lock.Tokenize.Collapse.{is_digit}

-- `\d{4}-\d{2}-\d{2}T\d{2}_\d{2}_\d{2}_\d{3}Z-debug-`, where 0 stands for a digit
abbrev pub debug_log_template : Text
debug_log_template = codes "0000-00-00T00_00_00_000Z-debug-"

-- a text begins as the template says
unfoldable pub fits : Text → Text → Bool
fits [] s = true
fits (t ∷ template) [] = false
fits (t ∷ template) (c ∷ s) = (if t == b'0' then is_digit c else c == t) && fits template s

-- `(\d+)` and what follows it
unfoldable pub span_digits : Text → Text × Text
span_digits [] = ([], [])
span_digits (c ∷ s) =
    let (digits, rest) = span_digits s in if is_digit c then (c ∷ digits, rest) else ([], c ∷ s)

-- the digits of `(\d+)\.log$` at the front
unfoldable pub log_number : Text → Option Text
log_number s =
    let (digits, rest) = span_digits s in
    if leb 1 (length digits) && text_eq rest (codes ".log") then some digits else none

-- `NPM_DEBUG_LOG_BASENAME` at the front
unfoldable pub debug_log_at : Text → Option Text
debug_log_at s = if fits debug_log_template s then log_number (drop 31 s) else none

unfoldable pub is_npm_debug_log_dir : Text → Bool
is_npm_debug_log_dir prefix =
    ends_with prefix (codes "/.npm/_logs/")
    || ends_with prefix (codes "$HOME/.npm/_logs/")
    || ends_with prefix (codes "$CACHE/_logs/")

unfoldable pub debug_log_text : Text → Text → Text
debug_log_text prefix digits = prefix ++ (codes "<timestamp>-debug-" ++ (digits ++ codes ".log"))

abbrev pub or_match : Option Text → Text → Option (Text × Text) → Option (Text × Text)
or_match none seen later = later
or_match (some digits) seen later = some (seen, digits)

-- the first match of the expression: `seen` is the text before the place that is tried
unfoldable pub find_debug_log : Text → Text → Option (Text × Text)
find_debug_log seen [] = none
find_debug_log seen (c ∷ s) =
    or_match (debug_log_at (c ∷ s)) seen (find_debug_log (seen ++ c ∷ []) s)

abbrev pub rename_log : Text → Option (Text × Text) → Text
rename_log path none = path
rename_log path (some (prefix, digits)) =
    if is_npm_debug_log_dir prefix then debug_log_text prefix digits else path

unfoldable pub normalize_volatile_path : Text → Text
normalize_volatile_path path = rename_log path (find_debug_log [] path)
