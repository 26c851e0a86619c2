-- ===== src/Guest/StraceParser/Lines/Stamps.antt =====
-- The process, the number and the amount of the events of a line.
use script_jail.Base.{
  ℕ, ◌≤◌, Bool, true, false, not, ◌||◌, List, [], ◌∷◌, Option, none, some, Text, text_eq, codes,
  length, All, if◌then◌else◌, trim, ◌≡◌, refl, arith,
}
use script_jail.Lock.Schema.{ℤ, RawEvent}
use script_jail.Guest.StraceParser.Syscalls.{
  RetVal, Parsed, if_some, arg, path_at, open_errno, of_kind, file_event, opened, dirfd_of,
  at_fdcwd, parse_openat, parse_openat2, parse_open, parse_creat,
}
use script_jail.Guest.StraceParser.Calls.{
  build_spawn_event, bare_event, parse_connect_struct, parse_execve, parse_execveat, parse_connect,
  parse_at, parse_renameat2, parse_syscall,
}
use script_jail.Guest.StraceParser.Lines.{
  strip_timestamp, split_args, parse_ret_val, open_paren, close_paren, parse_body, parse_call,
  parse_strace_line,
}

abbrev pub event_pid : RawEvent → ℕ
event_pid (RawEvent.read e) = e.pid
event_pid (RawEvent.write e) = e.pid
event_pid (RawEvent.env_read e) = e.pid
event_pid (RawEvent.spawn e) = e.pid
event_pid (RawEvent.dlopen e) = e.pid
event_pid (RawEvent.connect e) = e.pid
event_pid (RawEvent.exec e) = e.pid
event_pid (RawEvent.env_tamper e) = e.pid

abbrev pub event_ts : RawEvent → ℕ
event_ts (RawEvent.read e) = e.ts
event_ts (RawEvent.write e) = e.ts
event_ts (RawEvent.env_read e) = e.ts
event_ts (RawEvent.spawn e) = e.ts
event_ts (RawEvent.dlopen e) = e.ts
event_ts (RawEvent.connect e) = e.ts
event_ts (RawEvent.exec e) = e.ts
event_ts (RawEvent.env_tamper e) = e.ts

-- At most two events, which carry a process and a number.
abbrev pub IsStamped : ℕ → ℕ → Parsed → Type 0
IsStamped pid ts none = Unit
IsStamped pid ts (some es) = All (λ e. (event_pid e ≡ pid) × (event_ts e ≡ ts)) es × (length es ≤ 2)

module _ (pid ts : ℕ) where
  if_some-IsStamped :
      {A : Type 0} (o : Option A) (next : A → Parsed)
      → ((a : A) → IsStamped pid ts (next a))
      → IsStamped pid ts (if_some o next)
  if_some-IsStamped none next h = tt
  if_some-IsStamped (some a) next h = h a

  choice-IsStamped :
      (b : Bool) (p q : Parsed)
      → IsStamped pid ts p
      → IsStamped pid ts q
      → IsStamped pid ts (if b then p else q)
  choice-IsStamped true p q hp hq = hp
  choice-IsStamped false p q hp hq = hq

  opened-IsStamped :
      (is_write : Bool) (path : Text) (dirfd : Option ℤ) (r : RetVal)
      → IsStamped pid ts (opened is_write path dirfd r pid ts)
  opened-IsStamped true path dirfd r =
      if_some-IsStamped (open_errno r) _ (λ errno. (((refl, refl), tt), omega arith))
  opened-IsStamped false path dirfd r =
      if_some-IsStamped (open_errno r) _ (λ errno. (((refl, refl), tt), omega arith))

  parse_openat-IsStamped :
      (args : List Text) (r : RetVal) → IsStamped pid ts (parse_openat args r pid ts)
  unfolding parse_openat
  parse_openat-IsStamped args r =
      if_some-IsStamped (dirfd_of (arg args 0)) _
        (λ dirfd. if_some-IsStamped (path_at args 1) _ (λ path. opened-IsStamped _ path dirfd r))

  parse_openat2-IsStamped :
      (args : List Text) (r : RetVal) → IsStamped pid ts (parse_openat2 args r pid ts)
  unfolding parse_openat2
  parse_openat2-IsStamped args r =
      if_some-IsStamped (dirfd_of (arg args 0)) _
        (λ dirfd. if_some-IsStamped (path_at args 1) _ (λ path. opened-IsStamped _ path dirfd r))

  parse_open-IsStamped :
      (args : List Text) (r : RetVal) → IsStamped pid ts (parse_open args r pid ts)
  unfolding parse_open
  parse_open-IsStamped args r =
      if_some-IsStamped (path_at args 0) _ (λ path. opened-IsStamped _ path none r)

  parse_creat-IsStamped :
      (args : List Text) (r : RetVal) → IsStamped pid ts (parse_creat args r pid ts)
  unfolding parse_creat
  parse_creat-IsStamped args r =
      if_some-IsStamped (path_at args 0) _ (λ path. opened-IsStamped true path none r)

  parse_execve-IsStamped :
      (args : List Text) (r : RetVal) → IsStamped pid ts (parse_execve args r pid ts)
  unfolding parse_execve build_spawn_event
  parse_execve-IsStamped args r =
      if_some-IsStamped (path_at args 0) _ (λ path. (((refl, refl), tt), omega arith))

  parse_execveat-IsStamped :
      (args : List Text) (r : RetVal) → IsStamped pid ts (parse_execveat args r pid ts)
  unfolding parse_execveat build_spawn_event
  parse_execveat-IsStamped args r =
      if_some-IsStamped (path_at args 1) _ (λ path. (((refl, refl), tt), omega arith))

  parse_connect-IsStamped :
      (args : List Text) (r : RetVal) → IsStamped pid ts (parse_connect args r pid ts)
  unfolding parse_connect
  parse_connect-IsStamped args r =
      if_some-IsStamped (parse_connect_struct (arg args 1)) _
        (λ addr. (((refl, refl), tt), omega arith))

  -- `read` and `write` keep what the event of a file carries.
  parse_at-IsStamped :
      (is_write : Bool) (args : List Text) (r : RetVal)
      → IsStamped pid ts (parse_at (of_kind is_write) args r pid ts)
  unfolding parse_at
  parse_at-IsStamped is_write args r =
      choice-IsStamped (not (text_eq (arg args 0) at_fdcwd) || r.is_error) none _ tt
        (if_some-IsStamped (path_at args 1) _ (bare is_write))
    where
      bare :
          (is_write : Bool) (path : Text)
          → IsStamped pid ts (some (of_kind is_write (file_event path none none none pid ts) ∷ []))
      bare true path = (((refl, refl), tt), omega arith)
      bare false path = (((refl, refl), tt), omega arith)

  renamed :
      (b : Bool) (old new : Text)
      → IsStamped pid ts (
          some (
            bare_event (if b then RawEvent.write else RawEvent.read) pid ts old
            ∷ bare_event RawEvent.write pid ts new
            ∷ []))
  renamed true old new = (((refl, refl), ((refl, refl), tt)), omega arith)
  renamed false old new = (((refl, refl), ((refl, refl), tt)), omega arith)

  parse_renameat2-IsStamped :
      (args : List Text) (r : RetVal) → IsStamped pid ts (parse_renameat2 args r pid ts)
  unfolding parse_renameat2
  parse_renameat2-IsStamped args r = choice-IsStamped _ none _ tt (
      if_some-IsStamped (path_at args 1) _
        (λ old. if_some-IsStamped (path_at args 3) _ (λ new. renamed _ old new)))

  parse_syscall-IsStamped :
      (name : Text) (args : List Text) (r : RetVal)
      → IsStamped pid ts (parse_syscall name args r pid ts)
  unfolding parse_syscall
  parse_syscall-IsStamped name args r =
      choice-IsStamped (text_eq name (codes "openat")) (parse_openat args r pid ts) _
        (parse_openat-IsStamped args r)
        (choice-IsStamped (text_eq name (codes "openat2")) (parse_openat2 args r pid ts) _
          (parse_openat2-IsStamped args r)
          (choice-IsStamped (text_eq name (codes "open")) (parse_open args r pid ts) _
            (parse_open-IsStamped args r)
            (choice-IsStamped (text_eq name (codes "creat")) (parse_creat args r pid ts) _
              (parse_creat-IsStamped args r)
              (choice-IsStamped (text_eq name (codes "execve")) (parse_execve args r pid ts) _
                (parse_execve-IsStamped args r)
                (choice-IsStamped (text_eq name (codes "execveat")) (parse_execveat args r pid ts) _
                  (parse_execveat-IsStamped args r)
                  (choice-IsStamped (text_eq name (codes "connect")) (parse_connect args r pid ts) _
                    (parse_connect-IsStamped args r)
                    (choice-IsStamped (text_eq name (codes "readlinkat"))
                      (parse_at RawEvent.read args r pid ts) _ (parse_at-IsStamped false args r)
                      (choice-IsStamped (text_eq name (codes "statx"))
                        (parse_at RawEvent.read args r pid ts) _ (parse_at-IsStamped false args r)
                        (choice-IsStamped (text_eq name (codes "renameat2"))
                          (parse_renameat2 args r pid ts) _ (parse_renameat2-IsStamped args r)
                          (choice-IsStamped (text_eq name (codes "unlinkat"))
                            (parse_at RawEvent.write args r pid ts) _
                            (parse_at-IsStamped true args r)
                            (choice-IsStamped (text_eq name (codes "faccessat2"))
                              (parse_at RawEvent.read args r pid ts) _
                              (parse_at-IsStamped false args r) tt)))))))))))

  parse_body-IsStamped :
      (name : Text) (p : Text × Text) → IsStamped pid ts (parse_body name pid ts p)
  parse_body-IsStamped name (arg_body, suffix) =
      if_some-IsStamped (parse_ret_val suffix) _
        (λ r. parse_syscall-IsStamped name (split_args arg_body) r)

  parse_call-IsStamped : (p : Text × Text) → IsStamped pid ts (parse_call pid ts p)
  parse_call-IsStamped (name, rest) =
      if_some-IsStamped (close_paren 0 0 rest) _ (parse_body-IsStamped (trim name))

  pub parse_strace_line-IsStamped : (line : Text) → IsStamped pid ts (parse_strace_line line pid ts)
  unfolding parse_strace_line
  parse_strace_line-IsStamped line =
      choice-IsStamped _ none _ tt
        (if_some-IsStamped (open_paren (strip_timestamp (trim line))) _ parse_call-IsStamped)
