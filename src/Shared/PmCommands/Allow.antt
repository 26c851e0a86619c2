-- ===== src/Shared/PmCommands/Allow.antt =====
-- src/shared/pm-commands.ts: the filter of the arguments by an allowlist.
pub mod Kept
pub mod Safe
pub mod Reasons
use script_jail.Base.{
  Bool, true, false, not, ◌&&◌, ◌||◌, List, [], ◌∷◌, Option, none, some, Text, codes, text_eq,
  contains, starts_with, lookup, if◌then◌else◌,
}
use script_jail.Shared.PmCommands.Flags.{
  Platform, has_unit, is_bare_flag, joined_value, canonical_flag_key, registry_url_has_credentials,
}

abbrev drop_names : List (Text × Text)
drop_names =
    (codes "ignorescripts", codes "--ignore-scripts")
    ∷ (codes "frozenlockfile", codes "--frozen-lockfile")
    ∷ (codes "fixlockfile", codes "--fix-lockfile")
    ∷ (codes "lockfiledir", codes "--lockfile-dir")
    ∷ (codes "lockfileonly", codes "--lockfile-only")
    ∷ (codes "lockfile", codes "--lockfile")
    ∷ (codes "modulesdir", codes "--modules-dir")
    ∷ (codes "virtualstoredir", codes "--virtual-store-dir")
    ∷ (codes "storedir", codes "--store-dir")
    ∷ (codes "workspaceroot", codes "--workspace-root")
    ∷ (codes "dir", codes "--dir")
    ∷ (codes "prefix", codes "--prefix")
    ∷ (codes "global", codes "--global")
    ∷ (codes "filter", codes "--filter")
    ∷ (codes "recursive", codes "--recursive")
    ∷ (codes "mode", codes "--mode")
    ∷ (codes "immutable", codes "--immutable")
    ∷ (codes "registry", codes "--registry (inline credentials — set registry auth in .npmrc/env)")
    ∷ []

abbrev or_flag : Option Text → Text
or_flag none = codes "<flag>"
or_flag (some name) = name

unfoldable pub drop_reason : Text → Text
unfolding lookup
drop_reason key = or_flag (lookup key drop_names)

-- A value that the flag must not have is rejected by `reject_value`, if there is one.
pub record AllowEntry : Type 0 where
  pub takes_value : Bool
  pub reject_value : Option (Text → Bool)

abbrev pub Allowlist : Type 0
Allowlist = List (Text × AllowEntry)

abbrev pub valued : AllowEntry
valued = record { takes_value = true; reject_value = none }

abbrev pub boolean : AllowEntry
boolean = record { takes_value = false; reject_value = none }

abbrev pub registry : Platform → AllowEntry
registry platform = record {
  takes_value = true;
  reject_value = some (registry_url_has_credentials platform);
}

abbrev pub allowed_flag_keys : Platform → Allowlist
allowed_flag_keys platform =
    (codes "omit", valued)
    ∷ (codes "include", valued)
    ∷ (codes "prod", boolean)
    ∷ (codes "production", boolean)
    ∷ (codes "dev", boolean)
    ∷ (codes "optional", boolean)
    ∷ (codes "p", boolean)
    ∷ (codes "d", boolean)
    ∷ (codes "registry", registry platform)
    ∷ []

abbrev pub allowed_arch_keys : Allowlist
allowed_arch_keys = (codes "cpu", valued) ∷ (codes "os", valued) ∷ (codes "libc", valued) ∷ []

pub record SanitizeResult : Type 0 where
  pub kept : List Text
  pub dropped : List Text
  pub dropped_keys : List Text

-- What becomes of an argument, alone or with the next one, which is its value.
pub data Verdict : Type 0 where
  keep keep_with_value : Verdict
  drop drop_with_value : Text → Verdict

-- The next argument, if it is no flag.
abbrev pub value_of : Option Text → Option Text
value_of none = none
value_of (some next) = if starts_with next (codes "-") then none else some next

-- `splitValue`
abbrev pub split_value : AllowEntry → Text → Option Text → Option Text
split_value entry a next = if entry.takes_value && is_bare_flag a then value_of next else none

abbrev or_split : Option Text → Option Text → Option Text
or_split none other = other
or_split (some value) other = some value

-- `allowed.rejectValue !== undefined && value !== undefined && allowed.rejectValue(value)`
abbrev pub is_rejected : Option (Text → Bool) → Option Text → Bool
is_rejected none value = false
is_rejected (some reject) none = false
is_rejected (some reject) (some value) = reject value

abbrev keep_value : Option Text → Verdict
keep_value none = keep
keep_value (some value) = keep_with_value

abbrev drop_value : Text → Option Text → Verdict
drop_value reason none = drop reason
drop_value reason (some value) = drop_with_value reason

abbrev judge_allowed : Text → AllowEntry → Text → Option Text → Verdict
judge_allowed key entry a split =
    if is_rejected entry.reject_value (or_split (joined_value a) split)
    then drop_value (drop_reason key) split
    else keep_value split

abbrev judge_flag : Text → Option AllowEntry → Text → Option Text → Verdict
judge_flag key none a next =
    if is_bare_flag a then drop_value (drop_reason key) (value_of next) else drop (drop_reason key)
judge_flag key (some entry) a next = judge_allowed key entry a (split_value entry a next)

abbrev pub positional : Text
positional = codes "<positional>"

abbrev judge_key : Allowlist → Option Text → Text → Option Text → Verdict
judge_key allow none a next = drop positional
judge_key allow (some []) a next = drop positional
judge_key allow (some (c ∷ key)) a next = judge_flag (c ∷ key) (lookup (c ∷ key) allow) a next

unfoldable pub judge : Platform → Allowlist → Text → Option Text → Verdict
unfolding canonical_flag_key lookup starts_with drop_reason has_unit joined_value
judge platform allow a next = judge_key allow (canonical_flag_key platform a) a next

abbrev add_kept : Text → SanitizeResult → SanitizeResult
add_kept a r = record r { kept = a ∷ r.kept }

abbrev add_dropped : Text → SanitizeResult → SanitizeResult
add_dropped a r = record r { dropped = a ∷ r.dropped }

abbrev add_reason : Text → SanitizeResult → SanitizeResult
add_reason reason r = record r { dropped_keys = reason ∷ r.dropped_keys }

abbrev nothing : SanitizeResult
nothing = record { kept = []; dropped = []; dropped_keys = [] }

-- A verdict on the last argument; there is no next one for it to take.
abbrev settle_last : Text → Verdict → SanitizeResult
settle_last a keep = add_kept a nothing
settle_last a keep_with_value = add_kept a nothing
settle_last a (drop reason) = add_dropped a (add_reason reason nothing)
settle_last a (drop_with_value reason) = add_dropped a (add_reason reason nothing)

-- A verdict on an argument before another: the loop goes on at that one or behind it.
abbrev pub settle :
    Text
    → Text
    → Verdict
    → (Unit {0} → SanitizeResult)
    → (Unit {0} → SanitizeResult)
    → SanitizeResult
settle a b keep at_next after_next = add_kept a (at_next tt)
settle a b keep_with_value at_next after_next = add_kept a (add_kept b (after_next tt))
settle a b (drop reason) at_next after_next = add_dropped a (add_reason reason (at_next tt))
settle a b (drop_with_value reason) at_next after_next =
    add_dropped a (add_dropped b (add_reason reason (after_next tt)))

unfoldable pub filter_against_allowlist : Platform → Allowlist → List Text → SanitizeResult
unfolding judge
filter_against_allowlist platform allow [] = nothing
filter_against_allowlist platform allow (a ∷ []) = settle_last a (judge platform allow a none)
filter_against_allowlist platform allow (a ∷ b ∷ args) =
    settle a b (judge platform allow a (some b))
      (λ _. filter_against_allowlist platform allow (b ∷ args))
      (λ _. filter_against_allowlist platform allow args)

abbrev pub sanitize_install_args : Platform → List Text → SanitizeResult
sanitize_install_args platform args =
    filter_against_allowlist platform (allowed_flag_keys platform) args

abbrev pub sanitize_arch_install_args : Platform → List Text → SanitizeResult
sanitize_arch_install_args platform args = filter_against_allowlist platform allowed_arch_keys args
