-- ===== src/Guest/Attribution/Tests.antt =====
-- Runs of the attribution, and its theorems at concrete processes.
use script_jail.Base.{ℕ, List, [], ◌∷◌, none, some, codes, text_eq, contains, lookup, ◌≡◌, refl}
use script_jail.Lock.Schema.{install, postinstall, prepare}
use script_jail.Guest.Pids.{get_pid}
use script_jail.Guest.Attribution.{
  AttributionResult, Environ, ProcReader, canonical_stage, absent, string, other, Manifest,
  build_root_pkg_keys, RootIdentity, attribution_from_env_vars, fold_hook, max_depth, walk_from,
  walk, attribute,
}
use script_jail.Guest.Attribution.Root.{
  Exports, CountsFor, IsAttributed, IsRootKey, build_root_pkg_keys-IsAttributed,
  attribution_from_env_vars-IsRootKey,
}
use script_jail.Guest.Attribution.Walk.{Nearest, walk_lem}
use script_jail.Guest.Attribution.Cache.{
  attributed, invalidated, after_calls, first_walk, attribute-first_walk,
}

abbrev nameless : Manifest
nameless = record { name = absent; version = string (codes "1.0.0") }

abbrev named : Manifest
named = record { name = string (codes "app"); version = string [] }

named_root : (build_root_pkg_keys named).canonical ≡ some (codes "app@")
unfolding build_root_pkg_keys
named_root = refl

malformed_root : (build_root_pkg_keys (record { name = other; version = absent })).canonical ≡ none
unfolding build_root_pkg_keys
malformed_root = refl

build_root_pkg_keys-IsAttributed_example :
    IsAttributed
      (codes "app@")
      (codes "prerebuild")
      install
      (some (codes "app"))
      (some [])
      (build_root_pkg_keys named)
unfolding canonical_stage text_eq contains
build_root_pkg_keys-IsAttributed_example =
    build_root_pkg_keys-IsAttributed named (some (codes "app")) (some []) (codes "app@")
      (codes "prerebuild") install (Exports.as_it_is (codes "app")) (Exports.as_it_is [])
      (CountsFor.rebuild refl refl refl) named_root

attribution_from_env_vars-IsRootKey_example :
    IsRootKey (some (codes "<repo-root>")) (some (codes "<repo-root>" ∷ [])) (codes "<repo-root>")
unfolding canonical_stage text_eq contains attribution_from_env_vars fold_hook
attribution_from_env_vars-IsRootKey_example =
    attribution_from_env_vars-IsRootKey none none (codes "postprepare") (some (codes "<repo-root>"))
      (some (codes "<repo-root>" ∷ [])) (record { pkg = codes "<repo-root>"; lifecycle = prepare })
      refl refl

-- 7 runs the script of a dependency, 8 is a shell below it with an environment that cannot be read.
abbrev environs : List (ℕ × Environ)
environs =
    (
      7,
      (codes "npm_package_name", codes "dep")
          ∷ (codes "npm_package_version", codes "2.1.0")
          ∷ (codes "npm_lifecycle_event", codes "postinstall")
          ∷ [],
    )
    ∷ []

abbrev proc : ProcReader
proc = record {
  read_ppid = λ pid. get_pid pid ((8, 7) ∷ (7, 5) ∷ (5, 1) ∷ []);
  read_environ = λ pid. get_pid pid environs;
}

-- the same number, used again by a process that names no package
abbrev reused : ProcReader
reused = record { read_ppid = λ pid. get_pid pid ((8, 1) ∷ []); read_environ = λ pid. none }

abbrev root : RootIdentity
root = record { sentinel = none; keys = some (codes "app@" ∷ []) }

abbrev dependency : AttributionResult
dependency = record { pkg = codes "dep@2.1.0"; lifecycle = postinstall }

walk_of_shell : walk proc root 8 ≡ some dependency
unfolding walk_from get_pid attribution_from_env_vars lookup canonical_stage text_eq
walk_of_shell = refl

walk_of_manager : walk proc root 5 ≡ none
unfolding walk_from get_pid attribution_from_env_vars lookup canonical_stage text_eq
walk_of_manager = refl

walk_lem_example : Nearest proc root 8 max_depth dependency
walk_lem_example = (walk_lem proc root 8 dependency).0 walk_of_shell

-- After the exit of 8 its number is looked up again.
attribute-first_walk_example :
    some (attribute reused root 8 (after_calls root (invalidated 8 ∷ attributed proc 8 ∷ []))).1
    ≡ first_walk root 8 (attributed reused 8 ∷ invalidated 8 ∷ attributed proc 8 ∷ [])
attribute-first_walk_example =
    attribute-first_walk root (invalidated 8 ∷ attributed proc 8 ∷ []) reused 8

looked_up_again :
    first_walk root 8 (attributed reused 8 ∷ invalidated 8 ∷ attributed proc 8 ∷ []) ≡ some none
unfolding walk_from get_pid
looked_up_again = refl
