-- ===== src/Lock/Normalize/Tests.antt =====
-- A small audit, and the theorems on `normalize` at it.
use mathlib.Core.List.{Memᴰ}
use mathlib.Core.List.{Permᴰ}
use script_jail.Base.{any, IsAscending, ◌↔◌, ◌⊎◌}
use script_jail.Base.{
  Bool, true, false, List, [], ◌∷◌, none, some, Text, codes, ◌≡◌, refl, arith, ok, err, text_eq,
  text_lt, starts_with, ends_with, includes, contains, lookup, basename, sort_by, insert_by, dedupe,
  canonical,
}
use script_jail.Lock.Render.{RenderInput, render}
use script_jail.Lock.Render.Order.{render_order}
use script_jail.Action.Value.{Value, object, Members}
use script_jail.Lock.Schema.{npm}
use script_jail.Lock.Schema.{
  Stage, RawEvent, FsEvent, ExecEvent, ExecResult, AttributedEvent, LifecycleBlock, Packages, Field,
}
use script_jail.Lock.Tokenize.{
  TokenizeRoots, tokenize, candidates, pkg_prefix, find_prefix, path_has_prefix, render_token,
  rewrite_by, strip_end, strip_trailing_slashes, canonicalize_tokenize_roots, is_inside_pkg,
  is_cross_package,
}
use script_jail.Lock.Tokenize.Collapse.{collapse_unstable}
use script_jail.Lock.Tokenize.Inside.{IsDeepest}
use script_jail.Lock.Normalize.Noise.{linux}
use script_jail.Lock.Normalize.Entries.{Place, forged_root}
use script_jail.Lock.Normalize.Blocks.{lookup_block, empty_block}
use script_jail.Lock.Normalize.Blocks.Laws.{has_entry}
use script_jail.Lock.Normalize.Wrappers.Laws.{SpawnList, Unwraps, drop_redundant_shell_wrappers_lem}
use script_jail.Lock.Normalize.Exact.{list_of, adds}
use script_jail.Lock.Normalize.Errors.{normalize_total, no_error}
use script_jail.Lock.Normalize.Thrown.{FirstFails, normalize-FirstFails}
use script_jail.Lock.Normalize.Final.{normalize_exact, normalize-IsAscending}
use script_jail.Lock.Normalize.Forgery.{forged_distinct}
use script_jail.Lock.Normalize.Surfaces.{hidden_read_surfaces, repo_write_surfaces, write_text}
use script_jail.Lock.Normalize.Bypass.{bypass_surfaces}
use script_jail.Lock.Normalize.Order.{normalize_order}
use script_jail.Lock.Normalize.{
  NormalizeContext, NormalizeError, FsKind, normalize, run, step, attribute, pkg_dir_error,
  is_dropped_artifact, place, claims_root, is_forged_root,
}
use script_jail.Lock.Normalize.Noise.{
  is_under_root, is_strict_ancestor_dir, fs_path, is_noise_path, is_fs_noise, is_system_noise,
  is_unanchored, is_install_artifact,
}
use script_jail.Lock.Normalize.Entries.{
  fs_token, read_entries, write_entries, exec_entries, ident_token, tokenize_arg, entries,
}
use script_jail.Lock.Normalize.Volatile.{
  normalize_volatile_path, find_debug_log, is_npm_debug_log_dir, debug_log_at, log_number,
  span_digits, fits, debug_log_text,
}
use script_jail.Lock.Normalize.Wrappers.{
  drop_redundant_shell_wrappers, direct_commands, blocked_commands, unwrap_sh_c,
  parse_blocked_spawn, tag_start, tag_rest, whole_line,
}
use script_jail.Lock.Normalize.Blocks.{
  push, push_all, update_stage, update_package, record_entries, sort_and_dedupe, finish_block,
  finish_package, finish,
}

abbrev roots : TokenizeRoots
roots = record {
  repo = codes "/work/";
  node_modules = codes "/work/node_modules";
  home = codes "/root";
  tmp = codes "/tmp";
  tmp_legacy = none;
  cache = codes "/cache";
}

abbrev ctx : NormalizeContext
ctx = record {
  roots = roots;
  pkg_dirs = (codes "a", codes "/work/node_modules/a") ∷ (codes "root", codes "/work") ∷ [];
  root_pkg_keys = some (codes "root" ∷ []);
  os = none;
  install_mode = none;
  injected_install_mode_env_names = none;
}

abbrev fs_event : Text → Bool → FsEvent
fs_event path hidden = record {
  path = path;
  pid = 7;
  ts = 1;
  hidden = hidden;
  errno = none;
  dirfd = none;
  ret_fd = none;
  root_anchored = none;
}

abbrev exec_event : ExecEvent
exec_event = record {
  prog = codes "/bin/x";
  argv0 = none;
  envp_alloc_failed = false;
  syscall_bypass = true;
  events_file_forgery = false;
  unresolved_path = false;
  result = ExecResult.ok;
  pid = 7;
  ts = 3;
  audit_blind = none;
  argv = none;
  exec_errno = none;
}

abbrev by : Text → RawEvent → AttributedEvent
by pkg raw = record { raw = raw; pkg = pkg; lifecycle = Stage.postinstall }

abbrev probe : FsEvent
probe = fs_event (codes "/etc/hosts") true

abbrev edit : FsEvent
edit = fs_event (codes "/work/b") false

abbrev events : List AttributedEvent
events =
    by (codes "a") (RawEvent.read probe)
    ∷ by (codes "a") (RawEvent.write edit)
    ∷ by (codes "a") (RawEvent.exec exec_event)
    ∷ []

abbrev out : Packages
out =
    (
      codes "a",
      (
        Stage.postinstall,
        record {
          external_reads = codes "<HIDDEN> /etc/hosts" ∷ [];
          escaped_writes = codes "$REPO/b" ∷ [];
          env_read = [];
          spawn_attempts = [];
          spawn_blocked = [];
          dlopen_attempts = [];
          network_attempts = [];
          audit_bypass = codes "<SYSCALL_EXEC_BYPASS> /bin/x" ∷ [];
          env_tamper = [];
        },
      )
          ∷ [],
    )
    ∷ []

-- The audit of these events, run.
returns : normalize events ctx ≡ ok out
unfolding normalize run step attribute pkg_dir_error is_dropped_artifact place claims_root
    is_forged_root is_under_root is_strict_ancestor_dir fs_path is_noise_path is_fs_noise
    is_system_noise is_unanchored is_install_artifact tokenize candidates pkg_prefix find_prefix
    path_has_prefix render_token rewrite_by strip_end strip_trailing_slashes
    canonicalize_tokenize_roots collapse_unstable is_inside_pkg is_cross_package fs_token
    read_entries write_entries exec_entries ident_token tokenize_arg entries normalize_volatile_path
    find_debug_log is_npm_debug_log_dir debug_log_at log_number span_digits fits debug_log_text
    drop_redundant_shell_wrappers direct_commands blocked_commands unwrap_sh_c parse_blocked_spawn
    tag_start tag_rest whole_line push push_all update_stage update_package record_entries
    sort_and_dedupe finish_block finish_package finish text_eq text_lt starts_with ends_with
    includes contains lookup basename sort_by insert_by dedupe canonical
returns = refl

normalize_exact_example :
    contains (list_of (codes "a") Stage.postinstall Field.escaped_writes out) (codes "$REPO/b")
    ≡ any
        (adds ctx
          (canonicalize_tokenize_roots ctx.roots)
          (codes "a")
          Stage.postinstall
          Field.escaped_writes
          (codes "$REPO/b"))
        events
normalize_exact_example =
    normalize_exact events ctx out returns (codes "a") Stage.postinstall Field.escaped_writes
      (codes "$REPO/b") refl

normalize-IsAscending_example :
    IsAscending (list_of (codes "a") Stage.postinstall Field.env_read out)
normalize-IsAscending_example =
    normalize-IsAscending events ctx out returns (codes "a") Stage.postinstall Field.env_read

abbrev reordered : List AttributedEvent
reordered =
    by (codes "a") (RawEvent.write edit)
    ∷ by (codes "a") (RawEvent.read probe)
    ∷ by (codes "a") (RawEvent.exec exec_event)
    ∷ []

normalize_order_example :
    (out' : Packages) × (normalize reordered ctx ≡ ok out')
    × ((pkg : Text) (stage : Stage) → lookup_block pkg stage out ≡ lookup_block pkg stage out')
normalize_order_example =
    normalize_order events reordered ctx out (∣ Permᴰ.swap refl refl ∣₁) returns

-- a package with no directory
abbrev lost : AttributedEvent
lost = by (codes "b") (RawEvent.write edit)

normalize-FirstFails_example :
    (normalize (lost ∷ events) ctx
      ≡ err (NormalizeError.missing_pkg_dir (codes "b") FsKind.write_kind (codes "/work/b")))
    ↔ FirstFails ctx
        (canonicalize_tokenize_roots ctx.roots)
        (NormalizeError.missing_pkg_dir (codes "b") FsKind.write_kind (codes "/work/b"))
        (lost ∷ events)
normalize-FirstFails_example =
    normalize-FirstFails (lost ∷ events) ctx
      (NormalizeError.missing_pkg_dir (codes "b") FsKind.write_kind (codes "/work/b"))

normalize_total_example : (out' : Packages) × (normalize events ctx ≡ ok out')
normalize_total_example = normalize_total events ctx (no_error events ctx out returns)

hidden_read_surfaces_example :
    contains
      (list_of (codes "a") Stage.postinstall Field.external_reads out)
      (codes "<HIDDEN> /etc/hosts")
    ≡ true
unfolding place claims_root is_forged_root fs_token tokenize candidates pkg_prefix find_prefix
    path_has_prefix rewrite_by fs_path strip_end strip_trailing_slashes canonicalize_tokenize_roots
    normalize_volatile_path find_debug_log is_npm_debug_log_dir text_eq starts_with ends_with
    contains lookup basename sort_by insert_by is_inside_pkg render_token debug_log_at log_number
    span_digits fits debug_log_text is_unanchored
hidden_read_surfaces_example =
    hidden_read_surfaces events ctx out returns (by (codes "a") (RawEvent.read probe))
      (Memᴰ.head refl) probe refl refl refl

pkg_dir-IsDeepest : IsDeepest (codes "/work/node_modules/a") (canonicalize_tokenize_roots ctx.roots)
unfolding candidates pkg_prefix canonicalize_tokenize_roots strip_trailing_slashes strip_end
pkg_dir-IsDeepest = (omega arith, (omega arith, (omega arith, (omega arith, (omega arith, tt)))))

repo_write_surfaces_example :
    contains (list_of (codes "a") Stage.postinstall Field.escaped_writes out) (
      write_text
        (place ctx (canonicalize_tokenize_roots ctx.roots) (by (codes "a") (RawEvent.write edit)))
        edit)
    ≡ true
repo_write_surfaces_example =
    repo_write_surfaces events ctx out returns (by (codes "a") (RawEvent.write edit))
      (Memᴰ.tail (Memᴰ.head refl)) edit b'/' (codes "work/node_modules/a") refl
      (unfold lookup text_eq in refl) pkg_dir-IsDeepest (unfold fs_path starts_with in refl)
      (unfold fs_path is_under_root canonicalize_tokenize_roots strip_trailing_slashes strip_end
          starts_with in
        refl)
      (unfold fs_path path_has_prefix starts_with in refl)

bypass_surfaces_example :
    (t : Text) × (starts_with t (codes "<") ≡ true)
    × (contains (list_of (codes "a") Stage.postinstall Field.audit_bypass out) t ≡ true)
bypass_surfaces_example =
    bypass_surfaces events ctx out returns (by (codes "a") (RawEvent.exec exec_event))
      (Memᴰ.tail (Memᴰ.tail (Memᴰ.head refl))) refl

abbrev genuine : Place
genuine = record {
  roots = record roots { repo = codes "/work" };
  pkg_dir = none;
  os = linux;
  forged_prefix = [];
}

abbrev forged : Place
forged = record genuine { forged_prefix = forged_root }

forged_distinct_example :
    has_entry Field.external_reads
      (codes "<FORGED_ROOT> $REPO/b")
      (entries genuine (RawEvent.read edit))
    ≡ false
forged_distinct_example =
    forged_distinct forged genuine (RawEvent.read edit) (RawEvent.read edit) refl
      (unfold is_unanchored in refl) refl refl (unfold fs_path starts_with in refl)
      Field.external_reads (codes "<FORGED_ROOT> $REPO/b")
      (unfold entries read_entries fs_token fs_path tokenize candidates pkg_prefix find_prefix
          path_has_prefix render_token rewrite_by normalize_volatile_path find_debug_log
          is_npm_debug_log_dir debug_log_at log_number span_digits fits debug_log_text is_inside_pkg
          starts_with ends_with text_eq basename sort_by insert_by in
        refl)

-- `tsc`, run by a shell, and an entry without a tag
abbrev spawned : LifecycleBlock
spawned = record empty_block {
  spawn_attempts = codes "sh -c tsc" ∷ codes "tsc" ∷ [];
  spawn_blocked = codes "tsc" ∷ [];
}

drop_redundant_shell_wrappers_lem_example :
    (contains (drop_redundant_shell_wrappers spawned).spawn_blocked (codes "tsc") ≡ true)
    ⊎ ((c d e : Text) × (parse_blocked_spawn (codes "tsc") ≡ some c)
        × (unwrap_sh_c c ≡ some d)
        × Unwraps d e
        × (contains (direct_commands (drop_redundant_shell_wrappers spawned)) e ≡ true))
drop_redundant_shell_wrappers_lem_example =
    drop_redundant_shell_wrappers_lem spawned SpawnList.blocked (codes "tsc")
      (unfold contains text_eq in refl)

-- what comes first in a document
abbrev first_key : Value → Text
first_key (object (Members.entry key v rest)) = key
first_key _ = []

abbrev lock_input : RenderInput
lock_input = record {
  manager = npm;
  manager_lockfile_sha256 = codes "00";
  node_version = codes "24";
  generated_at = codes "now";
  packages = out;
}

render_order_example :
    (out' : Packages) × (normalize reordered ctx ≡ ok out')
    × (render first_key lock_input ≡ render first_key (record lock_input { packages = out' }))
render_order_example =
    render_order events reordered ctx lock_input first_key (∣ Permᴰ.swap refl refl ∣₁) returns
