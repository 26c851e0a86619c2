-- ===== src/Lock/Normalize.antt =====
-- src/lock/normalize.ts: the events of an audit become the blocks of the lock.
pub mod Noise
pub mod Volatile
pub mod Entries
pub mod Wrappers
pub mod Blocks
pub mod Exact
pub mod Errors
pub mod Thrown
pub mod Final
pub mod Forgery
pub mod Surfaces
pub mod Bypass
pub mod Order
mod Tests
use script_jail.Base.{
  Bool, true, false, not, ◌&&◌, ◌||◌, List, [], ◌∷◌, Option, none, some, Text, codes, lookup,
  text_eq, Result, ok, err, ◌>>=◌, if◌then◌else◌,
}
use script_jail.Lock.Schema.{
  RawEvent, read, write, env_read, spawn, dlopen, connect, exec, env_tamper, AttributedEvent,
  Packages,
}
use script_jail.Lock.Tokenize.{TokenizeRoots, canonicalize_tokenize_roots}
use script_jail.Lock.Normalize.Noise.{
  Os, linux, darwin, is_true, optional_has, is_system_noise, is_unanchored, is_install_artifact,
}
use script_jail.Lock.Normalize.Entries.{Place, forged_root, tag_if, entries}
use script_jail.Lock.Normalize.Blocks.{record_entries, finish}

pub record NormalizeContext : Type 0 where
  pub roots : TokenizeRoots
  pub pkg_dirs : List (Text × Text)
  pub root_pkg_keys : Option (List Text)
  pub os : Option Os
  pub install_mode : Option Bool
  pub injected_install_mode_env_names : Option (List Text)

-- what the loop throws: the package, and the kind and the path of the event
pub data FsKind : Type 0 where
  read_kind write_kind : FsKind

pub data NormalizeError : Type 0 where
  missing_pkg_dir : Text → FsKind → Text → NormalizeError

abbrev pub Outcome : Type 0 → Type 0
Outcome A = Result NormalizeError A

-- `ctx.os ?? 'linux'`
abbrev pub os_of : NormalizeContext → Os
os_of ctx = elim ctx.os [ none ↦ linux | some os ↦ os ]

unfoldable pub claims_root : NormalizeContext → Text → Bool
claims_root ctx pkg = optional_has ctx.root_pkg_keys pkg

unfoldable pub is_forged_root : NormalizeContext → AttributedEvent → Bool
is_forged_root ctx ev = claims_root ctx ev.pkg && is_unanchored ev.raw

abbrev pub unattributed : Text
unattributed = codes "<unattributed>"

-- the error of an fs event
abbrev pub fs_error : Text → RawEvent → Option NormalizeError
fs_error pkg (read e) = some (missing_pkg_dir pkg read_kind e.path)
fs_error pkg (write e) = some (missing_pkg_dir pkg write_kind e.path)
fs_error pkg (env_read e) = none
fs_error pkg (spawn e) = none
fs_error pkg (dlopen e) = none
fs_error pkg (connect e) = none
fs_error pkg (exec e) = none
fs_error pkg (env_tamper e) = none

abbrev pub is_absent : Option Text → Bool
is_absent none = true
is_absent (some t) = false

-- `pkgDir === undefined && !claimsRoot && ev.pkg !== '<unattributed>'` and an fs event
unfoldable pub pkg_dir_error : NormalizeContext → AttributedEvent → Option NormalizeError
pkg_dir_error ctx ev =
    if is_absent (lookup ev.pkg ctx.pkg_dirs)
      && not (claims_root ctx ev.pkg)
      && not (text_eq ev.pkg unattributed)
    then fs_error ev.pkg ev.raw
    else none

unfoldable pub is_dropped_artifact : NormalizeContext → TokenizeRoots → AttributedEvent → Bool
is_dropped_artifact ctx roots ev =
    is_true ctx.install_mode
    && claims_root ctx ev.pkg
    && not (is_forged_root ctx ev)
    && is_install_artifact (os_of ctx) roots ctx.injected_install_mode_env_names ev.raw

unfoldable pub place : NormalizeContext → TokenizeRoots → AttributedEvent → Place
place ctx roots ev = record {
  roots = roots;
  pkg_dir = lookup ev.pkg ctx.pkg_dirs;
  os = os_of ctx;
  forged_prefix = tag_if (is_forged_root ctx ev) forged_root;
}

-- the body of the loop, behind the noise test
unfoldable pub attribute :
    NormalizeContext → TokenizeRoots → Packages → AttributedEvent → Outcome Packages
attribute ctx roots out ev = elim (pkg_dir_error ctx ev) [
  | some e ↦ err e
  | none ↦
      if is_dropped_artifact ctx roots ev
      then ok out
      else ok (record_entries ev.pkg ev.lifecycle (entries (place ctx roots ev) ev.raw) out)
]

unfoldable pub step :
    NormalizeContext → TokenizeRoots → Packages → AttributedEvent → Outcome Packages
step ctx roots out ev =
    if is_system_noise (os_of ctx) roots ev.raw then ok out else attribute ctx roots out ev

unfoldable pub run :
    NormalizeContext → TokenizeRoots → Packages → List AttributedEvent → Outcome Packages
run ctx roots out [] = ok out
run ctx roots out (ev ∷ events) = step ctx roots out ev >>= λ out'. run ctx roots out' events

unfoldable pub normalize : List AttributedEvent → NormalizeContext → Outcome Packages
normalize events ctx =
    run ctx (canonicalize_tokenize_roots ctx.roots) [] events >>= λ out. ok (finish out)
