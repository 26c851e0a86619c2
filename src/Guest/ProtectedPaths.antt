-- ===== src/Guest/ProtectedPaths.antt =====
-- src/guest/protected-paths.ts: the policy between attribution and emission. `is_match` is
-- `micromatch.isMatch(path, patterns, { dot: true })`.
pub mod Laws
pub mod Surfaces
mod Tests
use mathlib.Core.Option
use script_jail.Base.{
  Bool, true, false, not, ◌&&◌, ◌||◌, List, [], ◌∷◌, ◌++◌, map, Option, none, some, Text, codes,
  drop, text_eq, starts_with, if◌then◌else◌,
}
use script_jail.Lock.Schema.{
  RawEvent, read, write, env_read, spawn, dlopen, connect, exec, env_tamper, FsEvent, Errno, enoent,
  eacces, AttributedEvent,
}
use script_jail.Lock.Tokenize.{TokenizeRoots, slash, tokenize, canonicalize_tokenize_roots}
use script_jail.Lock.PrivateRealpath.{canonicalize_private_realpath}
use script_jail.Lock.Normalize.Noise.{Os, linux, is_darwin}

pub record ProtectedPathsMatcherInput : Type 0 where
  pub patterns : List Text
  pub roots : TokenizeRoots
  pub os : Option Os

-- the private fields of the class
pub record ProtectedPathsMatcher : Type 0 where
  pub tokenized_patterns : List Text
  pub roots : TokenizeRoots
  pub os : Os

unfoldable pub normalize_pattern : Text → Text
unfolding text_eq starts_with
normalize_pattern p =
    if text_eq p (codes "~")
    then codes "$HOME"
    else if starts_with p (codes "~/")
    then codes "$HOME/" ++ drop 2 p
    else p

-- the constructor
unfoldable pub matcher_of : ProtectedPathsMatcherInput → ProtectedPathsMatcher
matcher_of input = record {
  tokenized_patterns = map normalize_pattern input.patterns;
  roots = canonicalize_tokenize_roots input.roots;
  os = elim input.os [ none ↦ linux | some os ↦ os ];
}

unfoldable pub canon : ProtectedPathsMatcher → Text → Text
canon m raw_path = if is_darwin m.os then canonicalize_private_realpath raw_path else raw_path

abbrev pub is_empty {ℓ} : {A : Type ℓ} → List A → Bool
is_empty [] = true
is_empty (a ∷ s) = false

unfoldable pub is_protected : (Text → List Text → Bool) → ProtectedPathsMatcher → Text → Bool
is_protected is_match m raw_path =
    if is_empty m.tokenized_patterns
    then false
    else is_match (tokenize (canon m raw_path) m.roots none) m.tokenized_patterns

unfoldable pub is_under_node_modules : ProtectedPathsMatcher → Text → Bool
is_under_node_modules m raw_path =
    if is_empty m.roots.node_modules
    then false
    else let p = canon m raw_path in
      text_eq p m.roots.node_modules || starts_with p (m.roots.node_modules ++ slash)

unfoldable pub strip_transport : FsEvent → FsEvent
strip_transport e = record e { errno = none; dirfd = none; ret_fd = none }

abbrev pub is_absent {ℓ} : {A : Type ℓ} → Option A → Bool
is_absent none = true
is_absent (some a) = false

-- the rest of the policy, behind the test on `node_modules`
unfoldable pub filter_failed : Bool → FsEvent → Option Errno → Option FsEvent
filter_failed guarded e none =
    if is_absent e.dirfd && is_absent e.ret_fd then some e else some (strip_transport e)
filter_failed guarded e (some Errno.enoent) =
    if guarded then some (strip_transport (record e { hidden = true })) else none
filter_failed guarded e (some Errno.eacces) =
    if guarded
    then some (strip_transport (record e { hidden = true }))
    else some (strip_transport e)

-- the policy at an fs event: `benign` says that it is a read below `node_modules`, and `guarded` that
-- its path is protected
unfoldable pub filter_fs : Bool → Bool → FsEvent → Option FsEvent
filter_fs benign guarded e = if benign && not guarded then none else filter_failed guarded e e.errno

abbrev pub emit : AttributedEvent → (FsEvent → RawEvent) → Option FsEvent → Option AttributedEvent
emit ev kind none = none
emit ev kind (some e) = some (record ev { raw = kind e })

unfoldable pub filter_raw :
    (Text → List Text → Bool)
    → ProtectedPathsMatcher
    → AttributedEvent
    → RawEvent
    → Option AttributedEvent
filter_raw is_match m ev (read e) =
    emit ev read (filter_fs (is_under_node_modules m e.path) (is_protected is_match m e.path) e)
filter_raw is_match m ev (write e) =
    emit ev write (filter_fs false (is_protected is_match m e.path) e)
filter_raw is_match m ev (env_read e) = some ev
filter_raw is_match m ev (spawn e) = some ev
filter_raw is_match m ev (dlopen e) = some ev
filter_raw is_match m ev (connect e) = some ev
filter_raw is_match m ev (exec e) = some ev
filter_raw is_match m ev (env_tamper e) = some ev

-- `null` is `none`
unfoldable pub apply_protected_paths_policy :
    (Text → List Text → Bool) → AttributedEvent → ProtectedPathsMatcher → Option AttributedEvent
apply_protected_paths_policy is_match ev m = filter_raw is_match m ev ev.raw
