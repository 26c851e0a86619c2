-- ===== src/Shared/PmCommands/Flags.antt =====
-- src/shared/pm-commands.ts, a single flag: its canonical key, its value, and the credentials that a
-- registry's URL may carry. The language's `toLowerCase` and `new URL` are parameters: their tables
-- and grammar stand in the platform.
use script_jail.Base.{
  trim, ℕ, zero, suc, Bool, true, false, not, ◌&&◌, ◌||◌, [], ◌∷◌, Option, none, some, Text, codes,
  starts_with, leb, ◌==◌, filter, length, drop, if◌then◌else◌,
}

-- What the platform provides. `new URL(s)` is `none` where it throws, and else the user name and
-- the password of the URL.
pub record Platform : Type 0 where
  pub to_lower_case : Text → Text
  pub url : Text → Option (Text × Text)

unfoldable pub has_unit : ℕ → Text → Bool
has_unit c [] = false
has_unit c (a ∷ s) = a == c || has_unit c s

-- `!token.includes('=')`
abbrev pub is_bare_flag : Text → Bool
is_bare_flag token = not (has_unit b'=' token)

-- `s.slice(0, s.indexOf('='))`, and all of `s` where there is none
unfoldable pub before_equals : Text → Text
before_equals [] = []
before_equals (a ∷ s) = let rest = before_equals s in if a == b'=' then [] else a ∷ rest

-- `s.slice(s.indexOf('=') + 1)`, where there is one
unfoldable pub joined_value : Text → Option Text
joined_value [] = none
joined_value (a ∷ s) = let rest = joined_value s in if a == b'=' then some s else rest

unfoldable pub skip_dashes : Text → Text
skip_dashes [] = []
skip_dashes (a ∷ s) = let rest = skip_dashes s in if a == b'-' then rest else a ∷ s

-- `if (body.startsWith(prefix)) body = body.slice(prefix.length)`
unfoldable pub peel : Text → Text → Text
unfolding starts_with
peel prefix body = if starts_with body prefix then drop (length prefix) body else body

abbrev is_separator : ℕ → Bool
is_separator c = c == b'-' || c == b'_' || c == b'.'

-- Step 4 of `canonicalFlagKey`, after step 3.
abbrev key_of_body : Text → Text
key_of_body body =
    filter (λ c. not (is_separator c)) (peel (codes "config.") (peel (codes "no-") body))

unfoldable pub canonical_flag_key : Platform → Text → Option Text
unfolding before_equals skip_dashes peel
canonical_flag_key platform [] = none
canonical_flag_key platform (a ∷ token) =
    if a == b'-'
    then some (key_of_body (platform.to_lower_case (before_equals (skip_dashes (a ∷ token)))))
    else none

abbrev is_latin : ℕ → Bool
is_latin c = (leb b'a' c && leb c b'z') || (leb b'A' c && leb c b'Z')

abbrev is_scheme_unit : ℕ → Bool
is_scheme_unit c = is_latin c || (leb b'0' c && leb c b'9') || c == b'+' || c == b'.' || c == b'-'

-- What stands behind the colon of `[a-z0-9+.-]{0,n}:`, none of whose units is a colon.
unfoldable pub after_scheme : ℕ → Text → Option Text
after_scheme n [] = none
after_scheme zero (a ∷ s) = if a == b':' then some s else none
after_scheme (suc n) (a ∷ s) =
    let rest = after_scheme n s in
    if a == b':' then some s else (if is_scheme_unit a then rest else none)

abbrev or_text : Option Text → Text → Text
or_text none s = s
or_text (some rest) s = rest

-- `/^[a-z][a-z0-9+.-]{0,31}:/i`, cut off
unfoldable pub strip_scheme : Text → Text
unfolding after_scheme
strip_scheme [] = []
strip_scheme (a ∷ s) = if is_latin a then or_text (after_scheme 31 s) (a ∷ s) else a ∷ s

-- `s.split(/[/?#]/, 1)[0]`
unfoldable pub authority : Text → Text
authority [] = []
authority (a ∷ s) =
    let rest = authority s in if a == b'/' || a == b'?' || a == b'#' then [] else a ∷ rest

abbrev is_nonempty : Text → Bool
is_nonempty [] = false
is_nonempty (a ∷ s) = true

abbrev pub has_userinfo : Option (Text × Text) → Bool
has_userinfo none = false
has_userinfo (some (username, password)) = is_nonempty username || is_nonempty password

-- The shape that is looked at where the URL has no user name and no password.
abbrev pub shape : Text → Text
shape value = authority (peel (codes "//") (strip_scheme (trim value)))

unfoldable pub registry_url_has_credentials : Platform → Text → Bool
unfolding has_unit trim strip_scheme peel authority
registry_url_has_credentials platform value =
    has_userinfo (platform.url value) || has_unit b'@' (shape value)
