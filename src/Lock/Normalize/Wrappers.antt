-- ===== src/Lock/Normalize/Wrappers.antt =====
-- src/lock/normalize.ts, `dropRedundantShellWrappers`: a command that a shell ran is dropped where
-- the command itself is recorded.
pub mod Laws
use script_jail.Base.{
  Bool, true, false, not, ◌&&◌, ◌||◌, List, [], ◌∷◌, ◌++◌, ℕ, Option, none, some, Text, codes, drop,
  all, filter, contains, starts_with, ◌==◌, if◌then◌else◌,
}
use script_jail.Lock.Schema.{LifecycleBlock}
use script_jail.Lock.Tokenize.Collapse.{is_upper}

-- what `.` does not match: line feed, carriage return, and the two separators of Unicode
abbrev pub is_line_end : ℕ → Bool
is_line_end c = c == 10 || c == 13 || c == 0x2028 || c == 0x2029

-- `(.+)$`
unfoldable pub whole_line : Text → Option Text
whole_line [] = none
whole_line (c ∷ s) = if all (λ a. not (is_line_end a)) (c ∷ s) then some (c ∷ s) else none

-- behind an upper-case unit of the tag: `[A-Z]*> (.+)$`
unfoldable pub tag_rest : Text → Option Text
tag_rest [] = none
tag_rest (c ∷ []) = none
tag_rest (c ∷ d ∷ s) =
    let more = tag_rest (d ∷ s) in
    if is_upper c then more else if c == b'>' && d == b' ' then whole_line s else none

-- `[A-Z]+> (.+)$`
unfoldable pub tag_start : Text → Option Text
tag_start [] = none
tag_start (c ∷ s) = if is_upper c then tag_rest s else none

-- `/^<[A-Z]+> (.+)$/`
unfoldable pub parse_blocked_spawn : Text → Option Text
parse_blocked_spawn [] = none
parse_blocked_spawn (c ∷ s) = if c == b'<' then tag_start s else none

abbrev pub nonempty : Text → Option Text
nonempty [] = none
nonempty (c ∷ s) = some (c ∷ s)

abbrev pub sh_c : Text
sh_c = codes "sh -c "

unfoldable pub unwrap_sh_c : Text → Option Text
unwrap_sh_c command = if starts_with command sh_c then nonempty (drop 6 command) else none

-- `if (parsed) directCommands.add(parsed.command)`
abbrev pub add_parsed : Option Text → List Text → List Text
add_parsed none commands = commands
add_parsed (some command) commands = command ∷ commands

-- the commands of the blocked entries
unfoldable pub blocked_commands : List Text → List Text
blocked_commands [] = []
blocked_commands (entry ∷ entries) =
    add_parsed (parse_blocked_spawn entry) (blocked_commands entries)

-- `directCommands`
unfoldable pub direct_commands : LifecycleBlock → List Text
direct_commands block = block.spawn_attempts ++ blocked_commands block.spawn_blocked

-- `direct === null || !directCommands.has(direct)`
abbrev pub is_kept : List Text → Option Text → Bool
is_kept direct none = true
is_kept direct (some command) = not (contains direct command)

abbrev pub keep_command : List Text → Text → Bool
keep_command direct command = is_kept direct (unwrap_sh_c command)

abbrev pub keep_parsed : List Text → Option Text → Bool
keep_parsed direct none = true
keep_parsed direct (some command) = keep_command direct command

unfoldable pub drop_redundant_shell_wrappers : LifecycleBlock → LifecycleBlock
drop_redundant_shell_wrappers block =
    let direct = direct_commands block in
    record block {
      spawn_attempts = filter (keep_command direct) block.spawn_attempts;
      spawn_blocked =
          filter (λ entry. keep_parsed direct (parse_blocked_spawn entry)) block.spawn_blocked;
    }
