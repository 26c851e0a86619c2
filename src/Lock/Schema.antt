-- ===== src/Lock/Schema.antt =====
-- src/lock/schema.ts: the events that the guest emits, and the lock. An optional property is an
-- `Option`. A property with one legal value (`kind`, `dlopen.result`, `refused`) is left to the
-- constructor.
use script_jail.Base.{Bool, List, ℕ, Option, Text}

pub data Stage : Type 0 where
  preinstall install postinstall prepare : Stage

-- The integers, over the native numbers: a descriptor that a program passes may be negative.
pub data ℤ : Type 0 where
  pos : ℕ → ℤ
  -- `negsuc n` is -(n + 1)
  negsuc : ℕ → ℤ

pub data Errno : Type 0 where
  enoent eacces : Errno

-- `FsReadEvent` and `FsWriteEvent`, which have the same properties
pub record FsEvent : Type 0 where
  pub path : Text
  pub pid : ℕ
  pub ts : ℕ
  pub hidden : Bool
  pub errno : Option Errno
  pub dirfd : Option ℤ
  pub ret_fd : Option ℕ
  pub root_anchored : Option Bool

pub record EnvReadEvent : Type 0 where
  pub name : Text
  pub pid : ℕ
  pub ts : ℕ
  pub hidden : Bool
  pub root_anchored : Option Bool

pub data SpawnResult : Type 0 where
  ok enoent eacces : SpawnResult

pub record SpawnEvent : Type 0 where
  pub argv : List Text
  pub result : SpawnResult
  pub pid : ℕ
  pub ts : ℕ
  pub audit_blind : Option Bool
  pub root_anchored : Option Bool

pub record DlopenEvent : Type 0 where
  pub filename : Text
  pub pid : ℕ
  pub ts : ℕ

pub data ConnectResult : Type 0 where
  ok blocked : ConnectResult

pub record NetworkEvent : Type 0 where
  pub host : Text
  pub port : ℕ
  pub result : ConnectResult
  pub pid : ℕ
  pub ts : ℕ
  pub root_anchored : Option Bool

pub data ExecResult : Type 0 where
  ok failed : ExecResult

pub record ExecEvent : Type 0 where
  pub prog : Text
  pub argv0 : Option Text
  pub envp_alloc_failed : Bool
  pub syscall_bypass : Bool
  pub events_file_forgery : Bool
  pub unresolved_path : Bool
  pub result : ExecResult
  pub pid : ℕ
  pub ts : ℕ
  pub audit_blind : Option Bool
  pub argv : Option (List Text)
  pub exec_errno : Option Text

pub data TamperOp : Type 0 where
  setenv unsetenv putenv clearenv audit_fd_lost : TamperOp

pub record EnvTamperEvent : Type 0 where
  pub op : TamperOp
  pub name : Option Text
  pub reason : Option Text
  pub pid : ℕ
  pub ts : ℕ
  pub root_anchored : Option Bool

pub data RawEvent : Type 0 where
  read : FsEvent → RawEvent
  write : FsEvent → RawEvent
  env_read : EnvReadEvent → RawEvent
  spawn : SpawnEvent → RawEvent
  dlopen : DlopenEvent → RawEvent
  connect : NetworkEvent → RawEvent
  exec : ExecEvent → RawEvent
  env_tamper : EnvTamperEvent → RawEvent

pub record AttributedEvent : Type 0 where
  pub raw : RawEvent
  pub pkg : Text
  pub lifecycle : Stage

pub record LifecycleBlock : Type 0 where
  pub external_reads : List Text
  pub escaped_writes : List Text
  pub env_read : List Text
  pub spawn_attempts : List Text
  pub spawn_blocked : List Text
  pub dlopen_attempts : List Text
  pub network_attempts : List Text
  pub audit_bypass : List Text
  pub env_tamper : List Text

-- `keyof LifecycleBlock`
pub data Field : Type 0 where
  external_reads escaped_writes env_read spawn_attempts spawn_blocked dlopen_attempts : Field
  network_attempts audit_bypass env_tamper : Field

-- `block[f]`
abbrev pub get : LifecycleBlock → Field → List Text
get b Field.external_reads = b.external_reads
get b Field.escaped_writes = b.escaped_writes
get b Field.env_read = b.env_read
get b Field.spawn_attempts = b.spawn_attempts
get b Field.spawn_blocked = b.spawn_blocked
get b Field.dlopen_attempts = b.dlopen_attempts
get b Field.network_attempts = b.network_attempts
get b Field.audit_bypass = b.audit_bypass
get b Field.env_tamper = b.env_tamper

-- `block[f] = xs`
abbrev pub set : LifecycleBlock → Field → List Text → LifecycleBlock
set b Field.external_reads xs = record b { external_reads = xs }
set b Field.escaped_writes xs = record b { escaped_writes = xs }
set b Field.env_read xs = record b { env_read = xs }
set b Field.spawn_attempts xs = record b { spawn_attempts = xs }
set b Field.spawn_blocked xs = record b { spawn_blocked = xs }
set b Field.dlopen_attempts xs = record b { dlopen_attempts = xs }
set b Field.network_attempts xs = record b { network_attempts = xs }
set b Field.audit_bypass xs = record b { audit_bypass = xs }
set b Field.env_tamper xs = record b { env_tamper = xs }

-- `Partial<Record<LifecycleStage, LifecycleBlock>>`, in the order in which the keys were added
abbrev pub PackageBlock : Type 0
PackageBlock = List (Stage × LifecycleBlock)

-- `Map<string, PackageBlock>`, in the order in which the keys were added
abbrev pub Packages : Type 0
Packages = List (Text × PackageBlock)

pub data Manager : Type 0 where
  npm pnpm yarn : Manager
