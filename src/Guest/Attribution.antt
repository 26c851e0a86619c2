-- ===== src/Guest/Attribution.antt =====
-- src/guest/attribution.ts: the package and stage that a process works for, read off the
-- environment of the nearest ancestor that names them. /proc is the record `ProcReader`.
pub mod Root
pub mod Walk
pub mod Cache
mod Tests
use script_jail.Base.{
  ℕ, zero, suc, Bool, true, false, ◌||◌, List, [], ◌∷◌, ◌++◌, Option, none, some, Text, codes,
  text_eq, contains, lookup, ◌==◌, if◌then◌else◌,
}
use script_jail.Lock.Schema.{Stage, preinstall, install, postinstall, prepare}
use script_jail.Guest.Pids.{get_pid, set_pid, delete_pid}

pub record AttributionResult : Type 0 where
  pub pkg : Text
  pub lifecycle : Stage

abbrev pub Environ : Type 0
Environ = List (Text × Text)

pub record ProcReader : Type 0 where
  pub read_ppid : ℕ → Option ℕ
  pub read_environ : ℕ → Option Environ

-- `isCanonicalStage`, with the stage that the text is then known to be
unfoldable pub canonical_stage : Text → Option Stage
unfolding text_eq
canonical_stage s =
    if text_eq s (codes "preinstall")
    then some preinstall
    else (if text_eq s (codes "install")
        then some install
        else (if text_eq s (codes "postinstall")
            then some postinstall
            else (if text_eq s (codes "prepare") then some prepare else none)))

abbrev pub pnpm_root_rebuild_hooks : List Text
pnpm_root_rebuild_hooks =
    codes "prepublish" ∷ codes "prerebuild" ∷ codes "rebuild" ∷ codes "postrebuild" ∷ []

abbrev pub npm_root_prepare_wrapper_hooks : List Text
npm_root_prepare_wrapper_hooks = codes "preprepare" ∷ codes "postprepare" ∷ []

abbrev pub build_pkg : Text → Option Text → Text
build_pkg name none = name
build_pkg name (some version) = name ++ codes "@" ++ version

abbrev pub root_sentinel : Text
root_sentinel = codes "<repo-root>"

-- A property of the parsed manifest, of any type.
pub data Property : Type 0 where
  absent : Property
  string : Text → Property
  other : Property

pub record Manifest : Type 0 where
  pub name : Property
  pub version : Property

pub record RootKeys : Type 0 where
  pub keys : List Text
  pub canonical : Option Text

abbrev pub sentinel_keys : RootKeys
sentinel_keys = record { keys = root_sentinel ∷ []; canonical = some root_sentinel }

abbrev pub named_keys : Text → Property → RootKeys
named_keys name absent = record { keys = name ∷ []; canonical = some name }
named_keys name other = record { keys = name ∷ []; canonical = some name }
named_keys name (string version) = record {
  keys = name ∷ (name ++ codes "@" ++ version) ∷ [];
  canonical = some (name ++ codes "@" ++ version);
}

abbrev pub keys_for : Property → Property → RootKeys
keys_for absent version = sentinel_keys
keys_for other version = record { keys = []; canonical = none }
keys_for (string []) version = sentinel_keys
keys_for (string (c ∷ name)) version = named_keys (c ∷ name) version

unfoldable pub build_root_pkg_keys : Manifest → RootKeys
build_root_pkg_keys manifest = keys_for manifest.name manifest.version

-- The stage that a hook of the root counts for.
unfoldable pub fold_hook : Text → Text → Option AttributionResult
unfolding contains
fold_hook pkg event =
    if contains pnpm_root_rebuild_hooks event
    then some (record { pkg = pkg; lifecycle = install })
    else (if contains npm_root_prepare_wrapper_hooks event
        then some (record { pkg = pkg; lifecycle = prepare })
        else none)

-- `rootKeys !== undefined && rootKeys.has(pkg)`
abbrev pub has_key : Option (List Text) → Text → Bool
has_key none pkg = false
has_key (some keys) pkg = contains keys pkg

abbrev pub attribute_named :
    Text → Text → Option (List Text) → Option Stage → Option AttributionResult
attribute_named pkg event root_keys (some stage) = some (record { pkg = pkg; lifecycle = stage })
attribute_named pkg event root_keys none =
    if has_key root_keys pkg then fold_hook pkg event else none

abbrev pub attribute_nameless : Option Text → Text → Option Stage → Option AttributionResult
attribute_nameless none event stage = none
attribute_nameless (some sentinel) event (some stage) =
    some (record { pkg = sentinel; lifecycle = stage })
attribute_nameless (some sentinel) event none = fold_hook sentinel event

unfoldable pub attribution_from_env_vars :
    Option Text
    → Option Text
    → Option Text
    → Option Text
    → Option (List Text)
    → Option AttributionResult
unfolding canonical_stage fold_hook contains
attribution_from_env_vars name version none sentinel root_keys = none
attribution_from_env_vars none version (some event) sentinel root_keys =
    attribute_nameless sentinel event (canonical_stage event)
attribution_from_env_vars (some []) version (some event) sentinel root_keys =
    attribute_nameless sentinel event (canonical_stage event)
attribution_from_env_vars (some (c ∷ name)) version (some event) sentinel root_keys =
    attribute_named (build_pkg (c ∷ name) version) event root_keys (canonical_stage event)

-- What the constructor is given besides the reader.
pub record RootIdentity : Type 0 where
  pub sentinel : Option Text
  pub keys : Option (List Text)

abbrev pub env_attribution : RootIdentity → Option Environ → Option AttributionResult
env_attribution root none = none
env_attribution root (some env) =
    attribution_from_env_vars (lookup (codes "npm_package_name") env)
      (lookup (codes "npm_package_version") env) (lookup (codes "npm_lifecycle_event") env)
      root.sentinel root.keys

abbrev pub max_depth : ℕ
max_depth = 1024

-- What is found is returned; else the walk goes on at the parent, if that can be read.
abbrev pub or_parent :
    Option AttributionResult → Option ℕ → (ℕ → Option AttributionResult) → Option AttributionResult
or_parent (some found) ppid next = some found
or_parent none none next = none
or_parent none (some ppid) next = next ppid

-- The loop of `_walk`, with the rounds that are left.
unfoldable pub walk_from : ProcReader → RootIdentity → ℕ → ℕ → Option AttributionResult
unfolding attribution_from_env_vars lookup
walk_from reader root zero current = none
walk_from reader root (suc depth) current =
    let above =
      or_parent (env_attribution root (reader.read_environ current)) (reader.read_ppid current)
        (walk_from reader root depth) in
    if current == 0 || current == 1 then none else above

abbrev pub walk : ProcReader → RootIdentity → ℕ → Option AttributionResult
walk reader root start_pid = walk_from reader root max_depth start_pid

-- The object's state: the results by starting pid.
abbrev pub Cache : Type 0
Cache = List (ℕ × Option AttributionResult)

abbrev pub remember : ℕ → Option AttributionResult → Cache → Cache × Option AttributionResult
remember pid result cache = (set_pid pid result cache, result)

abbrev pub answer :
    ProcReader
    → RootIdentity
    → ℕ
    → Cache
    → Option (Option AttributionResult)
    → Cache × Option AttributionResult
answer reader root pid cache (some cached) = (cache, cached)
answer reader root pid cache none = remember pid (walk reader root pid) cache

-- `attribute`: the reader is /proc as it stands at the call.
unfoldable pub attribute : ProcReader → RootIdentity → ℕ → Cache → Cache × Option AttributionResult
unfolding walk_from get_pid
attribute reader root pid cache = answer reader root pid cache (get_pid pid cache)

unfoldable pub invalidate : ℕ → Cache → Cache
unfolding delete_pid
invalidate pid cache = delete_pid pid cache
