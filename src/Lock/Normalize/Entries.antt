-- ===== src/Lock/Normalize/Entries.antt =====
-- src/lock/normalize.ts, the `switch` of the loop: what each event pushes, and on which list.
use script_jail.Base.{
  Bool, true, false, ◌&&◌, List, [], ◌∷◌, ◌++◌, map, Option, none, some, Text, codes, contains,
  basename, starts_with, decimal, if◌then◌else◌,
}
use script_jail.Lock.Schema.{
  RawEvent, read, write, env_read, spawn, dlopen, connect, exec, env_tamper, FsEvent, EnvReadEvent,
  SpawnEvent, SpawnResult, DlopenEvent, NetworkEvent, ConnectResult, ExecEvent, EnvTamperEvent,
  TamperOp, Field,
}
use script_jail.Lock.Tokenize.{TokenizeRoots, slash, tokenize, is_inside_pkg, is_cross_package}
use script_jail.Lock.Normalize.Noise.{Os, is_true, fs_path}
use script_jail.Lock.Normalize.Volatile.{normalize_volatile_path}

-- `block[f].push(text)`
abbrev pub Entry : Type 0
Entry = Field × Text

abbrev pub forged_root : Text
forged_root = codes "<FORGED_ROOT> "

abbrev pub hidden_tag : Text
hidden_tag = codes "<HIDDEN> "

abbrev pub normalizable_binaries : List Text
normalizable_binaries =
    codes "node"
    ∷ codes "npm"
    ∷ codes "pnpm"
    ∷ codes "yarn"
    ∷ codes "corepack"
    ∷ codes "sh"
    ∷ codes "bash"
    ∷ codes "busybox"
    ∷ []

-- a tag in front if the test holds
abbrev pub tag_if : Bool → Text → Text
tag_if b t = if b then t else []

-- `parts.join(' ')`
unfoldable pub join_space : List Text → Text
join_space [] = []
join_space (p ∷ []) = p
join_space (p ∷ q ∷ ps) = p ++ b' ' ∷ join_space (q ∷ ps)

-- the roots and `pkgDir`, the OS, and `forgedPrefix`
pub record Place : Type 0 where
  pub roots : TokenizeRoots
  pub pkg_dir : Option Text
  pub os : Os
  pub forged_prefix : Text

unfoldable pub fs_token : Place → FsEvent → Text
fs_token l e = normalize_volatile_path (tokenize (fs_path l.os e) l.roots l.pkg_dir)

unfoldable pub read_entries : Place → FsEvent → List Entry
read_entries l e =
    let tokenized = fs_token l e in
    if is_inside_pkg tokenized
    then []
    else (Field.external_reads, l.forged_prefix ++ (tag_if e.hidden hidden_tag ++ tokenized)) ∷ []

unfoldable pub write_entries : Place → FsEvent → List Entry
write_entries l e =
    let tokenized = fs_token l e in
    let cross_prefix = tag_if (is_cross_package tokenized) (codes "<CROSS_PACKAGE> ") in
    if is_inside_pkg tokenized
    then []
    else (
      Field.escaped_writes,
      l.forged_prefix ++ (tag_if e.hidden hidden_tag ++ (cross_prefix ++ tokenized)),
    )
      ∷ []

unfoldable pub env_read_entries : Place → EnvReadEvent → List Entry
env_read_entries l e =
    (Field.env_read, l.forged_prefix ++ (tag_if e.hidden hidden_tag ++ e.name)) ∷ []

-- an argument other than the first, and the first
unfoldable pub tokenize_arg : Place → Text → Text
tokenize_arg l a = if starts_with a slash then tokenize a l.roots l.pkg_dir else a

unfoldable pub tokenize_program : Place → Text → Text
tokenize_program l a =
    let tokenized = tokenize a l.roots l.pkg_dir in
    let base = basename tokenized in
    if starts_with a slash
    then (if starts_with tokenized slash && contains normalizable_binaries base
        then base
        else tokenized)
    else a

unfoldable pub tokenize_argv : Place → List Text → List Text
tokenize_argv l [] = []
tokenize_argv l (a ∷ argv) = tokenize_program l a ∷ map (tokenize_arg l) argv

-- the list of a result, and its tag: `` `<${result.toUpperCase()}> ` ``
abbrev pub spawn_line : Text → SpawnResult → Text → Entry
spawn_line forged_prefix SpawnResult.ok cmd = (Field.spawn_attempts, forged_prefix ++ cmd)
spawn_line forged_prefix SpawnResult.enoent cmd =
    (Field.spawn_blocked, forged_prefix ++ (codes "<ENOENT> " ++ cmd))
spawn_line forged_prefix SpawnResult.eacces cmd =
    (Field.spawn_blocked, forged_prefix ++ (codes "<EACCES> " ++ cmd))

unfoldable pub spawn_entries : Place → SpawnEvent → List Entry
spawn_entries l e =
    let cmd = join_space (tokenize_argv l e.argv) in
    let audit_blind = tag_if (is_true e.audit_blind) (codes "<AUDIT_BLIND> ") in
    spawn_line l.forged_prefix e.result (audit_blind ++ cmd) ∷ []

unfoldable pub dlopen_entries : Place → DlopenEvent → List Entry
dlopen_entries l e =
    (Field.dlopen_attempts, codes "<BLOCKED> " ++ tokenize e.filename l.roots l.pkg_dir) ∷ []

abbrev pub connect_tag : ConnectResult → Text
connect_tag ConnectResult.ok = []
connect_tag ConnectResult.blocked = codes "<BLOCKED> "

unfoldable pub connect_entries : Place → NetworkEvent → List Entry
connect_entries l e =
    (
      Field.network_attempts,
      l.forged_prefix
          ++ (connect_tag e.result ++ (codes "connect " ++ (e.host ++ b':' ∷ decimal e.port))),
    )
    ∷ []

-- `argv0 && argv0.length > 0 ? argv0 : prog`
abbrev pub ident_or : Option Text → Text → Text
ident_or none prog = prog
ident_or (some []) prog = prog
ident_or (some (c ∷ s)) prog = c ∷ s

unfoldable pub ident_token : Place → ExecEvent → Text
ident_token l e = tokenize_arg l (ident_or e.argv0 e.prog)

abbrev pub bypass : Bool → Text → Text → List Entry
bypass b tag program = if b then (Field.audit_bypass, tag ++ program) ∷ [] else []

unfoldable pub exec_entries : Place → ExecEvent → List Entry
exec_entries l e =
    bypass e.envp_alloc_failed (codes "<EXEC_FAIL_OPEN> ") (tokenize e.prog l.roots l.pkg_dir)
    ++ (bypass e.syscall_bypass (codes "<SYSCALL_EXEC_BYPASS> ") (ident_token l e)
        ++ (bypass e.events_file_forgery (codes "<EVENTS_FILE_FORGERY> ") (ident_token l e)
            ++ bypass e.unresolved_path (codes "<UNRESOLVED_PATH> ") (ident_token l e)))

abbrev pub op_name : TamperOp → Text
op_name TamperOp.setenv = codes "setenv"
op_name TamperOp.unsetenv = codes "unsetenv"
op_name TamperOp.putenv = codes "putenv"
op_name TamperOp.clearenv = codes "clearenv"
op_name TamperOp.audit_fd_lost = codes "audit_fd_lost"

abbrev pub is_fd_lost : TamperOp → Bool
is_fd_lost TamperOp.setenv = false
is_fd_lost TamperOp.unsetenv = false
is_fd_lost TamperOp.putenv = false
is_fd_lost TamperOp.clearenv = false
is_fd_lost TamperOp.audit_fd_lost = true

abbrev pub name_tail : Option Text → Text
name_tail none = []
name_tail (some name) = b' ' ∷ name

unfoldable pub env_tamper_entries : Place → EnvTamperEvent → List Entry
env_tamper_entries l e =
    if is_fd_lost e.op
    then (Field.audit_bypass, codes "<AUDIT_FD_LOST>") ∷ []
    else (
      Field.env_tamper,
      l.forged_prefix ++ (codes "<REFUSED> " ++ (op_name e.op ++ name_tail e.name)),
    )
      ∷ []

unfoldable pub entries : Place → RawEvent → List Entry
entries l (read e) = read_entries l e
entries l (write e) = write_entries l e
entries l (env_read e) = env_read_entries l e
entries l (spawn e) = spawn_entries l e
entries l (dlopen e) = dlopen_entries l e
entries l (connect e) = connect_entries l e
entries l (exec e) = exec_entries l e
entries l (env_tamper e) = env_tamper_entries l e
