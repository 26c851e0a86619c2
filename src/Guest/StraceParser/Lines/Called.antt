-- ===== src/Guest/StraceParser/Lines/Called.antt =====
-- A whole line, as strace prints a call of `openat`.
use script_jail.Base.{ℕ, [], ◌∷◌, ◌++◌, none, Text, codes, decimal, if◌then◌else◌}
use script_jail.Guest.StraceParser.Strings.{double_quote}
use script_jail.Guest.StraceParser.Syscalls.{Parsed, if_some}
use script_jail.Guest.StraceParser.Lines.{open_paren, is_dropped_line, parse_call}
use script_jail.Guest.StraceParser.Lines.Printed.{printed_args}

-- The line of a call.
abbrev pub openat_line : Text → Text → Text
openat_line body returned = codes "openat(" ++ (body ++ b')' ∷ b' ' ∷ b'=' ∷ b' ' ∷ returned)

-- What is read off a text behind the time and the blanks.
abbrev parse_text : ℕ → ℕ → Text → Parsed
parse_text pid ts text =
    if is_dropped_line text then none else if_some (open_paren text) (parse_call pid ts)

abbrev pub openat_call : Text → Text → Text → ℕ → Text
openat_call dir_token written flags fd =
    openat_line
      (printed_args (dir_token ∷ (double_quote ∷ (written ++ double_quote ∷ [])) ∷ flags ∷ []))
      (decimal fd)
