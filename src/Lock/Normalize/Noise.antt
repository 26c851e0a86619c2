-- ===== src/Lock/Normalize/Noise.antt =====
-- src/lock/normalize.ts, the guards of the loop: which fs events are system noise, which root-claimed
-- events are forged, and which reads are artefacts of the drop-in install.
use script_jail.Base.{
  Bool, true, false, not, ◌&&◌, ◌||◌, List, [], ◌∷◌, Option, none, some, Text, codes, length,
  get_elem?, any, basename, includes, starts_with, contains, ltb, ◌==◌, if◌then◌else◌,
}
use script_jail.Lock.Schema.{
  RawEvent, read, write, env_read, spawn, dlopen, connect, exec, env_tamper, FsEvent,
}
use script_jail.Lock.Tokenize.{TokenizeRoots, is_unit, strip_trailing_slashes}
use script_jail.Lock.PrivateRealpath.{canonicalize_private_realpath}

pub data Os : Type 0 where
  linux darwin : Os

abbrev pub is_darwin : Os → Bool
is_darwin linux = false
is_darwin darwin = true

-- `b === true` for an optional Boolean
abbrev pub is_true : Option Bool → Bool
is_true none = false
is_true (some b) = b

abbrev pub system_noise_prefixes : List Text
system_noise_prefixes =
    codes "/usr/lib/"
    ∷ codes "/usr/share/"
    ∷ codes "/usr/local/lib/"
    ∷ codes "/lib/"
    ∷ codes "/lib64/"
    ∷ codes "/etc/ld.so."
    ∷ codes "/etc/nsswitch.conf"
    ∷ codes "/etc/localtime"
    ∷ codes "/etc/resolv.conf"
    ∷ codes "/etc/host.conf"
    ∷ codes "/etc/hosts"
    ∷ codes "/proc/"
    ∷ codes "/sys/"
    ∷ codes "/dev/"
    ∷ codes "/opt"
    ∷ []

abbrev pub system_noise_prefixes_darwin : List Text
system_noise_prefixes_darwin =
    codes "/System/"
    ∷ codes "/Library/"
    ∷ codes "/Library/Caches/com.apple.dyld/"
    ∷ codes "/var/db/dyld/"
    ∷ codes "/System/Library/dyld/"
    ∷ []

abbrev pub dyld_shared_cache_basename : Text
dyld_shared_cache_basename = codes "dyld_shared_cache_"

abbrev pub provisioned_node_cache_segment : Text
provisioned_node_cache_segment = codes "/script-jail-cache/"

unfoldable pub is_under_root : Text → Text → Bool
is_under_root path root =
    starts_with path root
    && (length path == length root || is_unit (get_elem? path (length root)) b'/')

unfoldable pub is_strict_ancestor_dir : Text → Text → Bool
is_strict_ancestor_dir dir repo =
    let d = strip_trailing_slashes dir in
    let r = strip_trailing_slashes repo in ltb (length d) (length r) && is_under_root r d

-- `fsPath`: the path of an fs event, canonical on macOS
unfoldable pub fs_path : Os → FsEvent → Text
fs_path os e = if is_darwin os then canonicalize_private_realpath e.path else e.path

-- `isSystemNoise` at an fs event, whose path is `p`
unfoldable pub is_noise_path : Os → TokenizeRoots → Text → Bool
is_noise_path os roots p =
    if is_under_root p roots.repo || is_under_root p roots.node_modules
    then false
    else if any (starts_with p) system_noise_prefixes
    then true
    else if is_darwin os
    then (any (starts_with p) system_noise_prefixes_darwin
        || starts_with (basename p) dyld_shared_cache_basename
        || includes p provisioned_node_cache_segment)
    else false

unfoldable pub is_fs_noise : Os → TokenizeRoots → FsEvent → Bool
is_fs_noise os roots e = if e.hidden then false else is_noise_path os roots (fs_path os e)

unfoldable pub is_system_noise : Os → TokenizeRoots → RawEvent → Bool
is_system_noise os roots (read e) = is_fs_noise os roots e
is_system_noise os roots (write e) = is_fs_noise os roots e
is_system_noise os roots (env_read e) = false
is_system_noise os roots (spawn e) = false
is_system_noise os roots (dlopen e) = false
is_system_noise os roots (connect e) = false
is_system_noise os roots (exec e) = false
is_system_noise os roots (env_tamper e) = false

-- an event of a kind that is anchored, without the verdict `root_anchored === true`
unfoldable pub is_unanchored : RawEvent → Bool
is_unanchored (read e) = not (is_true e.root_anchored)
is_unanchored (write e) = not (is_true e.root_anchored)
is_unanchored (env_read e) = not (is_true e.root_anchored)
is_unanchored (spawn e) = not (is_true e.root_anchored)
is_unanchored (dlopen e) = false
is_unanchored (connect e) = not (is_true e.root_anchored)
is_unanchored (exec e) = false
is_unanchored (env_tamper e) = not (is_true e.root_anchored)

-- `set?.has(t) ?? false`
abbrev pub optional_has : Option (List Text) → Text → Bool
optional_has none t = false
optional_has (some ts) t = contains ts t

-- What the drop-in install drops for the genuine root: reads of the names that it injects itself, and
-- unprotected reads of a directory above the repository.
unfoldable pub is_install_artifact : Os → TokenizeRoots → Option (List Text) → RawEvent → Bool
is_install_artifact os roots injected (env_read e) = optional_has injected e.name
is_install_artifact os roots injected (read e) =
    not e.hidden && is_strict_ancestor_dir (fs_path os e) roots.repo
is_install_artifact os roots injected (write e) = false
is_install_artifact os roots injected (spawn e) = false
is_install_artifact os roots injected (dlopen e) = false
is_install_artifact os roots injected (connect e) = false
is_install_artifact os roots injected (exec e) = false
is_install_artifact os roots injected (env_tamper e) = false
