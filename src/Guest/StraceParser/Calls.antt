-- ===== src/Guest/StraceParser/Calls.antt =====
-- src/guest/strace-parser.ts: the calls that run a program, connect or look at a path, and the switch
-- over the names of the calls.
use script_jail.Base.{
  ℕ, Bool, false, not, ◌||◌, List, [], ◌∷◌, Option, none, some, Text, codes, text_eq, starts_with,
  includes, length, drop, trim_start, ◌==◌, if◌then◌else◌,
}
use script_jail.Lock.Schema.{SpawnResult, ConnectResult, RawEvent, FsEvent}
use script_jail.Guest.StraceParser.Strings.{double_quote, extract_quoted_string}
use script_jail.Guest.StraceParser.Argv.{parse_argv_token}
use script_jail.Guest.StraceParser.Syscalls.{
  RetVal, Parsed, if_some, arg, path_at, is_decimal, decimal_value, leading_digits, at_fdcwd,
  file_event, parse_openat, parse_openat2, parse_open, parse_creat,
}

abbrev or_path : List Text → Text → List Text
or_path [] path = path ∷ []
or_path (a ∷ argv) path = a ∷ argv

abbrev failed_spawn : Option Text → SpawnResult
failed_spawn none = SpawnResult.eacces
failed_spawn (some name) =
    if text_eq name (codes "ENOENT") then SpawnResult.enoent else SpawnResult.eacces

unfoldable pub build_spawn_event : Text → Text → RetVal → ℕ → ℕ → List RawEvent
unfolding parse_argv_token text_eq
build_spawn_event path argv_token r pid ts =
    RawEvent.spawn (record {
      argv = or_path (parse_argv_token argv_token) path;
      result = if r.is_error then failed_spawn r.errno else SpawnResult.ok;
      pid = pid;
      ts = ts;
      audit_blind = none;
      root_anchored = none;
    })
    ∷ []

unfoldable pub parse_execve : List Text → RetVal → ℕ → ℕ → Parsed
unfolding extract_quoted_string build_spawn_event
parse_execve args r pid ts =
    if_some (path_at args 0) (λ path. some (build_spawn_event path (arg args 1) r pid ts))

unfoldable pub parse_execveat : List Text → RetVal → ℕ → ℕ → Parsed
unfolding extract_quoted_string build_spawn_event
parse_execveat args r pid ts =
    if_some (path_at args 1) (λ path. some (build_spawn_event path (arg args 2) r pid ts))

pub record ConnectAddr : Type 0 where
  pub host : Text
  pub port : ℕ

abbrev pub or_further {ℓ} : {A : Type ℓ} → Option A → Option A → Option A
or_further none later = later
or_further (some a) later = some a

-- The first place where a text stands and what follows matches.
unfoldable pub find_after {ℓ} : {A : Type ℓ} → Text → (Text → Option A) → Text → Option A
unfolding starts_with
find_after literal follow [] = none
find_after literal follow (c ∷ s) =
    let later = find_after literal follow s in
    or_further
      (if starts_with (c ∷ s) literal then follow (drop (length literal) (c ∷ s)) else none) later

unfoldable pub skip_digits : Text → Text
skip_digits [] = []
skip_digits (c ∷ s) = let rest = skip_digits s in if is_decimal c then rest else c ∷ s

-- `(\d+)\)`
unfoldable pub port_at : Text → Option ℕ
unfolding starts_with skip_digits decimal_value
port_at s =
    if_some (leading_digits s)
      (λ n. if starts_with (skip_digits s) (codes ")") then some n else none)

abbrev with_host_unit : ℕ → Option (Text × Text) → Option (Text × Text)
with_host_unit c none = none
with_host_unit c (some (host, rest)) = some (c ∷ host, rest)

-- `[^"]*"`, with what follows
unfoldable pub up_to_quote : Text → Option (Text × Text)
up_to_quote [] = none
up_to_quote (c ∷ s) =
    let rest = with_host_unit c (up_to_quote s) in if c == double_quote then some ([], s) else rest

abbrev nonempty_host : Text × Text → Option (Text × Text)
nonempty_host ([], rest) = none
nonempty_host (c ∷ host, rest) = some (c ∷ host, rest)

-- `"([^"]+)"`, with what follows
unfoldable pub host_in_quotes : Text → Option (Text × Text)
unfolding up_to_quote
host_in_quotes [] = none
host_in_quotes (c ∷ s) = if c == double_quote then if_some (up_to_quote s) nonempty_host else none

abbrev closed_host : Text × Text → Option Text
closed_host (host, rest) = if starts_with rest (codes ")") then some host else none

abbrev any_host : Text × Text → Option Text
any_host (host, rest) = some host

-- `inet_addr\("([^"]+)"\)` and `inet_pton\(AF_INET6,\s*"([^"]+)"`, behind their first units
abbrev host_four : Text → Option Text
host_four s = if_some (host_in_quotes s) closed_host

abbrev host_six : Text → Option Text
host_six s = if_some (host_in_quotes (trim_start s)) any_host

abbrev address : Option ℕ → Option Text → Option ConnectAddr
address port host = if_some port (λ p. if_some host (λ h. some (record { host = h; port = p })))

unfoldable pub parse_connect_struct : Text → Option ConnectAddr
unfolding includes find_after port_at host_in_quotes trim_start starts_with
parse_connect_struct token =
    if includes token (codes "AF_INET6")
    then address (find_after (codes "sin6_port=htons(") port_at token)
        (find_after (codes "inet_pton(AF_INET6,") host_six token)
    else (if includes token (codes "AF_INET")
        then address (find_after (codes "sin_port=htons(") port_at token)
            (find_after (codes "inet_addr(") host_four token)
        else none)

-- The call has sent or will send what it was asked to.
abbrev is_under_way : Option Text → Bool
is_under_way none = false
is_under_way (some name) =
    text_eq name (codes "EINPROGRESS")
    || text_eq name (codes "EALREADY")
    || text_eq name (codes "EISCONN")

unfoldable pub parse_connect : List Text → RetVal → ℕ → ℕ → Parsed
unfolding parse_connect_struct text_eq
parse_connect args r pid ts = if_some (parse_connect_struct (arg args 1)) (λ addr. some (
    RawEvent.connect (record {
      host = addr.host;
      port = addr.port;
      result =
          if not r.is_error || is_under_way r.errno
          then ConnectResult.ok
          else ConnectResult.blocked;
      pid = pid;
      ts = ts;
      root_anchored = none;
    })
    ∷ []))

abbrev pub bare_event : (FsEvent → RawEvent) → ℕ → ℕ → Text → RawEvent
bare_event kind pid ts path = kind (file_event path none none none pid ts)

-- A call on one path of the working directory, which counts only if it did not fail: `readlinkat`,
-- `statx`, `faccessat2` and `unlinkat`.
unfoldable pub parse_at : (FsEvent → RawEvent) → List Text → RetVal → ℕ → ℕ → Parsed
unfolding text_eq extract_quoted_string
parse_at kind args r pid ts =
    if not (text_eq (arg args 0) at_fdcwd) || r.is_error
    then none
    else if_some (path_at args 1) (λ path. some (bare_event kind pid ts path ∷ []))

unfoldable pub parse_renameat2 : List Text → RetVal → ℕ → ℕ → Parsed
unfolding text_eq extract_quoted_string includes
parse_renameat2 args r pid ts =
    if r.is_error || not (text_eq (arg args 0) at_fdcwd) || not (text_eq (arg args 2) at_fdcwd)
    then none
    else if_some (path_at args 1) (λ old. if_some (path_at args 3) (λ new. some (
        bare_event
          (if includes (arg args 4) (codes "RENAME_EXCHANGE")
            then RawEvent.write
            else RawEvent.read)
          pid ts old
        ∷ bare_event RawEvent.write pid ts new
        ∷ [])))

-- `switch (syscallName)`
unfoldable pub parse_syscall : Text → List Text → RetVal → ℕ → ℕ → Parsed
unfolding text_eq parse_openat parse_openat2 parse_open parse_creat parse_execve parse_execveat
    parse_connect parse_at parse_renameat2
parse_syscall name args r pid ts =
    if text_eq name (codes "openat")
    then parse_openat args r pid ts
    else (if text_eq name (codes "openat2")
        then parse_openat2 args r pid ts
        else (if text_eq name (codes "open")
            then parse_open args r pid ts
            else (if text_eq name (codes "creat")
                then parse_creat args r pid ts
                else (if text_eq name (codes "execve")
                    then parse_execve args r pid ts
                    else (if text_eq name (codes "execveat")
                        then parse_execveat args r pid ts
                        else (if text_eq name (codes "connect")
                            then parse_connect args r pid ts
                            else (if text_eq name (codes "readlinkat")
                                then parse_at RawEvent.read args r pid ts
                                else (if text_eq name (codes "statx")
                                    then parse_at RawEvent.read args r pid ts
                                    else (if text_eq name (codes "renameat2")
                                        then parse_renameat2 args r pid ts
                                        else (if text_eq name (codes "unlinkat")
                                            then parse_at RawEvent.write args r pid ts
                                            else (if text_eq name (codes "faccessat2")
                                                then parse_at RawEvent.read args r pid ts
                                                else none)))))))))))
