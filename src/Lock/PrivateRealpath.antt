-- ===== src/Lock/PrivateRealpath.antt =====
-- src/lock/private-realpath.ts: on macOS `/var`, `/tmp` and `/etc` are links into `/private`.
use script_jail.Base.{
  ◌||◌, List, [], ◌∷◌, ◌++◌, Text, codes, length, drop, text_eq, starts_with, if◌then◌else◌,
}

abbrev private_realpath_prefixes : List (Text × Text)
private_realpath_prefixes =
    (codes "/private/var", codes "/var")
    ∷ (codes "/private/tmp", codes "/tmp")
    ∷ (codes "/private/etc", codes "/etc")
    ∷ []

-- the loop over the prefixes
pub canonicalize_by : List (Text × Text) → Text → Text
canonicalize_by [] path = path
canonicalize_by ((from, to) ∷ rest) path =
    let later = canonicalize_by rest path in
    if text_eq path from || starts_with path (from ++ codes "/")
    then to ++ drop (length from) path
    else later

unfoldable pub canonicalize_private_realpath : Text → Text
unfolding canonicalize_by text_eq starts_with
canonicalize_private_realpath path = canonicalize_by private_realpath_prefixes path
