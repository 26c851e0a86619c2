-- ===== src/Action/Diff/Pipeline/Tests.antt =====
-- The gate at a lock made of a raw exec.
use mathlib.Core.List.{Memᴰ}
use script_jail.Base.{sym, subst, Option, some}
use script_jail.Base.{
  Bool, true, false, List, [], ◌∷◌, none, some, Text, codes, ◌≡◌, refl, ok, text_eq, text_lt,
  starts_with, ends_with, includes, contains, lookup, basename, sort_by, insert_by, dedupe,
  canonical,
}
use script_jail.Lock.Schema.{Stage, RawEvent, FsEvent, ExecEvent, ExecResult, AttributedEvent}
use script_jail.Lock.Tokenize.{
  TokenizeRoots, tokenize, candidates, pkg_prefix, find_prefix, path_has_prefix, render_token,
  rewrite_by, strip_end, strip_trailing_slashes, canonicalize_tokenize_roots, is_inside_pkg,
  is_cross_package,
}
use script_jail.Lock.Tokenize.Collapse.{collapse_unstable}
use script_jail.Lock.Normalize.Blocks.{empty_block}
use script_jail.Lock.Normalize.{
  NormalizeContext, normalize, run, step, attribute, pkg_dir_error, is_dropped_artifact, place,
  claims_root, is_forged_root,
}
use script_jail.Lock.Normalize.Noise.{
  is_under_root, is_strict_ancestor_dir, fs_path, is_noise_path, is_fs_noise, is_system_noise,
  is_unanchored, is_install_artifact,
}
use script_jail.Lock.Normalize.Entries.{
  fs_token, read_entries, write_entries, exec_entries, ident_token, tokenize_arg, entries,
}
use script_jail.Lock.Normalize.Volatile.{
  normalize_volatile_path, find_debug_log, is_npm_debug_log_dir, debug_log_at, log_number,
  span_digits, fits, debug_log_text,
}
use script_jail.Lock.Normalize.Wrappers.{
  drop_redundant_shell_wrappers, direct_commands, blocked_commands, unwrap_sh_c,
  parse_blocked_spawn, tag_start, tag_rest, whole_line,
}
use script_jail.Lock.Normalize.Blocks.{
  push, push_all, update_stage, update_package, record_entries, sort_and_dedupe, finish_block,
  finish_package, finish,
}
use script_jail.Lock.Schema.{npm}
use script_jail.Lock.Render.{RenderInput, render_doc, render}
use script_jail.Action.Value.{Value, property}
use script_jail.Action.Diff.{find_audit_bypass}
use script_jail.Action.Diff.Listed.{IsListed}
use script_jail.Action.Diff.Gates.{KeepsLists}
use script_jail.Action.Diff.Pipeline.{bypass_fails_gate}

abbrev roots : TokenizeRoots
roots = record {
  repo = codes "/work/";
  node_modules = codes "/work/node_modules";
  home = codes "/root";
  tmp = codes "/tmp";
  tmp_legacy = none;
  cache = codes "/cache";
}

abbrev ctx : NormalizeContext
ctx = record {
  roots = roots;
  pkg_dirs = (codes "a", codes "/work/node_modules/a") ∷ (codes "root", codes "/work") ∷ [];
  root_pkg_keys = some (codes "root" ∷ []);
  os = none;
  install_mode = none;
  injected_install_mode_env_names = none;
}

abbrev fs_event : Text → Bool → FsEvent
fs_event path hidden = record {
  path = path;
  pid = 7;
  ts = 1;
  hidden = hidden;
  errno = none;
  dirfd = none;
  ret_fd = none;
  root_anchored = none;
}

abbrev exec_event : ExecEvent
exec_event = record {
  prog = codes "/bin/x";
  argv0 = none;
  envp_alloc_failed = false;
  syscall_bypass = true;
  events_file_forgery = false;
  unresolved_path = false;
  result = ExecResult.ok;
  pid = 7;
  ts = 3;
  audit_blind = none;
  argv = none;
  exec_errno = none;
}

abbrev by : Text → RawEvent → AttributedEvent
by pkg raw = record { raw = raw; pkg = pkg; lifecycle = Stage.postinstall }

abbrev events : List AttributedEvent
events = by (codes "a") (RawEvent.exec exec_event) ∷ []

abbrev input : RenderInput
input = record {
  manager = npm;
  manager_lockfile_sha256 = codes "00";
  node_version = codes "24";
  generated_at = codes "now";
  packages =
      (
        codes "a",
        (
          Stage.postinstall,
          record empty_block { audit_bypass = codes "<SYSCALL_EXEC_BYPASS> /bin/x" ∷ [] },
        )
            ∷ [],
      )
      ∷ [];
}

returns : normalize events ctx ≡ ok input.packages
unfolding normalize run step attribute pkg_dir_error is_dropped_artifact place claims_root
    is_forged_root is_under_root is_strict_ancestor_dir fs_path is_noise_path is_fs_noise
    is_system_noise is_unanchored is_install_artifact tokenize candidates pkg_prefix find_prefix
    path_has_prefix render_token rewrite_by strip_end strip_trailing_slashes
    canonicalize_tokenize_roots collapse_unstable is_inside_pkg is_cross_package fs_token
    read_entries write_entries exec_entries ident_token tokenize_arg entries normalize_volatile_path
    find_debug_log is_npm_debug_log_dir debug_log_at log_number span_digits fits debug_log_text
    drop_redundant_shell_wrappers direct_commands blocked_commands unwrap_sh_c parse_blocked_spawn
    tag_start tag_rest whole_line push push_all update_stage update_package record_entries
    sort_and_dedupe finish_block finish_package finish text_eq text_lt starts_with ends_with
    includes contains lookup basename sort_by insert_by dedupe canonical
returns = refl

abbrev stringify : Value → Text
stringify v = codes "lock"

abbrev parse : Text → Option Value
parse t = some (render_doc input)

abbrev safe_parse : Value → Option Value
safe_parse v = property (codes "packages") v

keeps : KeepsLists (codes "audit_bypass") safe_parse
keeps v packages e f _ _ = (
  λ l. subst (IsListed (codes "audit_bypass") f) (sym e) l,
  λ l. subst (IsListed (codes "audit_bypass") f) e l,
)

bypass_fails_gate_example :
    (t : Text) × (starts_with t (codes "<") ≡ true)
    × Memᴰ
        (record { package_id = codes "a"; stage = codes "postinstall"; entry = t })
        (find_audit_bypass parse safe_parse (render stringify input))
bypass_fails_gate_example =
    bypass_fails_gate stringify parse safe_parse keeps events ctx input returns refl
      (by (codes "a") (RawEvent.exec exec_event)) (Memᴰ.head refl) (λ e. cc) refl
