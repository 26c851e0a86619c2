-- ===== src/Lock/Tokenize.antt =====
-- src/lock/tokenize.ts: an absolute path is rewritten by the longest root that holds it, and
-- unstable names under `$TMPDIR` and `$CACHE` are collapsed (Collapse).
pub mod Collapse
pub mod Prefix
pub mod Inside
pub mod Front
pub mod Roots
mod Tests
use script_jail.Base.{
  Bool, false, not, ◌&&◌, ◌||◌, List, [], ◌∷◌, ◌++◌, ℕ, zero, suc, Option, none, some, Text, codes,
  length, get_elem?, take, drop, starts_with, text_eq, ltb, ◌==◌, if◌then◌else◌, sort_by,
}
use mathlib.Core.Option
use Collapse.{collapse_unstable}

pub record TokenizeRoots : Type 0 where
  pub repo : Text
  pub node_modules : Text
  pub home : Text
  pub tmp : Text
  pub tmp_legacy : Option Text
  pub cache : Text

-- `path[i] === c`, where an index out of range is `undefined`
abbrev pub is_unit : Option ℕ → ℕ → Bool
is_unit none c = false
is_unit (some a) c = a == c

abbrev pub to_list {ℓ} : {A : Type ℓ} → Option A → List A
to_list none = []
to_list (some a) = a ∷ []

abbrev pub slash : Text
slash = codes "/"

-- the loop of `stripTrailingSlashes`: where `end` stops
unfoldable pub strip_end : Text → ℕ → ℕ
strip_end p zero = 0
strip_end p (suc zero) = 1
strip_end p (suc (suc n)) =
    let back = strip_end p (suc n) in
    if is_unit (get_elem? p (suc n)) b'/' then back else suc (suc n)

unfoldable pub strip_trailing_slashes : Text → Text
unfolding strip_end
strip_trailing_slashes p =
    let end = strip_end p (length p) in if end == length p then p else take end p

unfoldable pub canonicalize_tokenize_roots : TokenizeRoots → TokenizeRoots
unfolding strip_trailing_slashes
canonicalize_tokenize_roots roots = record {
  repo = strip_trailing_slashes roots.repo;
  node_modules = strip_trailing_slashes roots.node_modules;
  home = strip_trailing_slashes roots.home;
  tmp = strip_trailing_slashes roots.tmp;
  tmp_legacy = Option.map strip_trailing_slashes roots.tmp_legacy;
  cache = strip_trailing_slashes roots.cache;
}

-- `/work` holds `/work` and `/work/x` but not `/worker`.
unfoldable pub path_has_prefix : Text → Text → Bool
unfolding starts_with
path_has_prefix path prefix =
    starts_with path prefix
    && (length path == length prefix || is_unit (get_elem? path (length prefix)) b'/')

-- `currentPkgDir ? [currentPkgDir, '$PKG'] : null`: an empty text is false.
unfoldable pub pkg_prefix : Option Text → Option (Text × Text)
pkg_prefix none = none
pkg_prefix (some []) = none
pkg_prefix (some (c ∷ s)) = some (c ∷ s, codes "$PKG")

-- the array `prefixes`, its `null` entries filtered out
unfoldable pub candidates : TokenizeRoots → Option Text → List (Text × Text)
unfolding pkg_prefix
candidates roots pkg_dir =
    to_list (pkg_prefix pkg_dir)
    ++ (roots.node_modules, codes "$NODE_MODULES")
      ∷ (roots.repo, codes "$REPO")
      ∷ (roots.cache, codes "$CACHE")
      ∷ (roots.home, codes "$HOME")
      ∷ (roots.tmp, codes "$TMPDIR")
      ∷ to_list (Option.map (λ (p : Text). (p, codes "$TMPDIR")) roots.tmp_legacy)

-- `(a, b) => b[0].length - a[0].length`
abbrev pub longer : Text × Text → Text × Text → Bool
longer a b = ltb (length b.0) (length a.0)

-- the loop over `sorted`, up to the prefix that holds the path
unfoldable pub find_prefix : Text → List (Text × Text) → Option (Text × Text)
find_prefix path [] = none
find_prefix path ((prefix, token) ∷ rest) =
    let later = find_prefix path rest in
    if path_has_prefix path prefix then some (prefix, token) else later

-- Only names under `$TMPDIR` and `$CACHE` are collapsed.
unfoldable pub render_token : Text → Text → Text
unfolding collapse_unstable
render_token token tail =
    let tokenized = token ++ (if text_eq tail slash then [] else tail) in
    if text_eq token (codes "$TMPDIR") || text_eq token (codes "$CACHE")
    then collapse_unstable tokenized
    else tokenized

abbrev pub or_slash : Text → Text
or_slash [] = slash
or_slash (c ∷ s) = c ∷ s

-- `rawPath.slice(prefix.length) || '/'`
abbrev pub tail_of : Text → Text → Text
tail_of path prefix = or_slash (drop (length prefix) path)

-- the body of the loop, at the prefix that holds the path, and what follows the loop
unfoldable pub rewrite_by : Text → Option (Text × Text) → Text
unfolding render_token
rewrite_by path none = path
rewrite_by path (some (prefix, token)) = render_token token (tail_of path prefix)

unfoldable pub tokenize : Text → TokenizeRoots → Option Text → Text
unfolding candidates find_prefix rewrite_by path_has_prefix sort_by text_eq
tokenize path roots pkg_dir =
    if starts_with path slash
    then rewrite_by path (find_prefix path (sort_by longer (candidates roots pkg_dir)))
    else path

unfoldable pub is_inside_pkg : Text → Bool
unfolding text_eq starts_with
is_inside_pkg tokenized = text_eq tokenized (codes "$PKG") || starts_with tokenized (codes "$PKG/")

unfoldable pub is_cross_package : Text → Bool
unfolding is_inside_pkg
is_cross_package tokenized =
    not (is_inside_pkg tokenized)
    && (text_eq tokenized (codes "$NODE_MODULES") || starts_with tokenized (codes "$NODE_MODULES/"))
