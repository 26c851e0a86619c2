-- ===== src/Guest/ProtectedPaths/Tests.antt =====
-- Runs of the policy, and its theorems at concrete events.
use mathlib.Core.List.{Memᴰ}
use script_jail.Base.{
  Bool, true, false, not, ◌&&◌, List, [], ◌∷◌, none, some, Text, codes, any, text_eq, starts_with,
  contains, text_lt, ends_with, includes, lookup, basename, sort_by, insert_by, dedupe, canonical,
  ok, ◌≡◌, refl, if◌then◌else◌,
}
use script_jail.Lock.Schema.{Stage, read, FsEvent, Errno, AttributedEvent, Field, Packages}
use script_jail.Lock.Tokenize.{
  tokenize, candidates, pkg_prefix, find_prefix, render_token, rewrite_by, is_inside_pkg,
  is_cross_package, path_has_prefix, strip_end, strip_trailing_slashes, canonicalize_tokenize_roots,
}
use script_jail.Lock.Tokenize.Collapse.{collapse_unstable}
use script_jail.Lock.Normalize.{
  NormalizeContext, attribute, claims_root, is_dropped_artifact, is_forged_root, normalize,
  pkg_dir_error, place, run, step,
}
use script_jail.Lock.Normalize.Noise.{
  fs_path, is_fs_noise, is_install_artifact, is_noise_path, is_strict_ancestor_dir, is_system_noise,
  is_unanchored, is_under_root,
}
use script_jail.Lock.Normalize.Entries.{
  entries, exec_entries, fs_token, ident_token, read_entries, tokenize_arg, write_entries,
}
use script_jail.Lock.Normalize.Volatile.{
  debug_log_at, debug_log_text, find_debug_log, fits, is_npm_debug_log_dir, log_number,
  normalize_volatile_path, span_digits,
}
use script_jail.Lock.Normalize.Wrappers.{
  blocked_commands, direct_commands, drop_redundant_shell_wrappers, parse_blocked_spawn, tag_rest,
  tag_start, unwrap_sh_c, whole_line,
}
use script_jail.Lock.Normalize.Blocks.{
  empty_block, finish, finish_block, finish_package, push, push_all, record_entries,
  sort_and_dedupe, update_package, update_stage,
}
use script_jail.Lock.Normalize.Exact.{list_of}
use script_jail.Guest.ProtectedPaths.Surfaces.{protected_probe_surfaces}
use script_jail.Guest.ProtectedPaths.{
  ProtectedPathsMatcher, normalize_pattern, matcher_of, canon, is_empty, is_protected,
  is_under_node_modules, apply_protected_paths_policy,
}
use script_jail.Guest.ProtectedPaths.Laws.{
  sent_raw, is_dropped, apply_protected_paths_policy_lem, is_under_node_modules-path_has_prefix,
}

-- a matcher of patterns that end in `**`, and of no others
abbrev below_any : Text → List Text → Bool
below_any path patterns =
    any (λ p. starts_with path (codes "$HOME/.ssh/") && text_eq p (codes "$HOME/.ssh/**")) patterns

abbrev matcher : ProtectedPathsMatcher
matcher = matcher_of (record {
  patterns = codes "~/.ssh/**" ∷ [];
  roots = record {
    repo = codes "/work";
    node_modules = codes "/work/node_modules";
    home = codes "/root/";
    tmp = codes "/tmp";
    tmp_legacy = none;
    cache = codes "/cache";
  };
  os = none;
})

abbrev failed_event : Text → FsEvent
failed_event path = record {
  path = path;
  pid = 7;
  ts = 1;
  hidden = false;
  errno = some Errno.enoent;
  dirfd = none;
  ret_fd = none;
  root_anchored = none;
}

abbrev failed_read : Text → AttributedEvent
failed_read path = record {
  raw = read (failed_event path);
  pkg = codes "a";
  lifecycle = Stage.install;
}

pattern_of_home : normalize_pattern (codes "~/.ssh/**") ≡ codes "$HOME/.ssh/**"
unfolding normalize_pattern text_eq starts_with
pattern_of_home = refl

apply_protected_paths_policy_lem_example :
    apply_protected_paths_policy below_any (failed_read (codes "/root/.ssh/id")) matcher ≡ (
      if is_dropped below_any matcher (failed_read (codes "/root/.ssh/id")).raw
      then none
      else some (record (failed_read (codes "/root/.ssh/id")) {
        raw = sent_raw below_any matcher (failed_read (codes "/root/.ssh/id")).raw;
      }))
apply_protected_paths_policy_lem_example =
    apply_protected_paths_policy_lem below_any matcher (failed_read (codes "/root/.ssh/id"))

is_under_node_modules-path_has_prefix_example :
    is_under_node_modules matcher (codes "/work/node_modules_x") ≡ (
      not (is_empty matcher.roots.node_modules)
      && path_has_prefix (canon matcher (codes "/work/node_modules_x")) matcher.roots.node_modules)
is_under_node_modules-path_has_prefix_example =
    is_under_node_modules-path_has_prefix matcher (codes "/work/node_modules_x")

abbrev key : FsEvent
key = failed_event (codes "/root/.ssh/id")

key-protected : is_protected below_any matcher (codes "/root/.ssh/id") ≡ true
unfolding is_protected matcher_of normalize_pattern canon tokenize candidates pkg_prefix find_prefix
    path_has_prefix render_token rewrite_by strip_end strip_trailing_slashes
    canonicalize_tokenize_roots starts_with text_eq sort_by insert_by
key-protected = refl

abbrev ctx : NormalizeContext
ctx = record {
  roots = matcher.roots;
  pkg_dirs = (codes "a", codes "/work/node_modules/a") ∷ [];
  root_pkg_keys = none;
  os = none;
  install_mode = none;
  injected_install_mode_env_names = none;
}

abbrev events : List AttributedEvent
events =
    record (failed_read (codes "/root/.ssh/id")) {
      raw = read (record key { hidden = true; errno = none });
    }
    ∷ []

abbrev out : Packages
out =
    (
      codes "a",
      (Stage.install, record empty_block { external_reads = codes "<HIDDEN> $HOME/.ssh/id" ∷ [] })
          ∷ [],
    )
    ∷ []

returns : normalize events ctx ≡ ok out
unfolding normalize run step attribute pkg_dir_error is_dropped_artifact place claims_root
    is_forged_root is_under_root is_strict_ancestor_dir fs_path is_noise_path is_fs_noise
    is_system_noise is_unanchored is_install_artifact tokenize candidates pkg_prefix find_prefix
    path_has_prefix render_token rewrite_by strip_end strip_trailing_slashes
    canonicalize_tokenize_roots collapse_unstable is_inside_pkg is_cross_package fs_token
    read_entries write_entries exec_entries ident_token tokenize_arg entries normalize_volatile_path
    find_debug_log is_npm_debug_log_dir debug_log_at log_number span_digits fits debug_log_text
    drop_redundant_shell_wrappers direct_commands blocked_commands unwrap_sh_c parse_blocked_spawn
    tag_start tag_rest whole_line push push_all update_stage update_package record_entries
    sort_and_dedupe finish_block finish_package finish text_eq text_lt starts_with ends_with
    includes contains lookup basename sort_by insert_by dedupe canonical matcher_of
returns = refl

protected_probe_surfaces_example :
    (apply_protected_paths_policy below_any (failed_read (codes "/root/.ssh/id")) matcher
      ≡ some (record (failed_read (codes "/root/.ssh/id")) {
        raw = read (record key { hidden = true; errno = none });
      }))
    × (contains
          (list_of (codes "a") Stage.install Field.external_reads out)
          (codes "<HIDDEN> $HOME/.ssh/id")
        ≡ true)
unfolding place claims_root is_forged_root fs_token tokenize candidates pkg_prefix find_prefix
    path_has_prefix rewrite_by fs_path strip_end strip_trailing_slashes canonicalize_tokenize_roots
    normalize_volatile_path find_debug_log is_npm_debug_log_dir text_eq starts_with ends_with
    contains lookup basename sort_by insert_by is_inside_pkg render_token debug_log_at log_number
    span_digits fits debug_log_text is_unanchored matcher_of
protected_probe_surfaces_example =
    protected_probe_surfaces below_any matcher (failed_read (codes "/root/.ssh/id")) key refl
      key-protected refl events ctx out returns (Memᴰ.head refl) refl
