-- ===== src/Guest/StraceParser/Tests.antt =====
-- Runs of the parser, and its theorems at lines that strace prints.
use script_jail.Base.{
  [], ◌∷◌, ◌++◌, none, some, codes, text_eq, starts_with, includes, trim, trim_start, trim_end,
  is_white_space, ◌≡◌, refl,
}
use script_jail.Guest.StraceParser.Strings.{
  letter_escape, octal_digit, hex_digit, read_digits, escape, unescape_from, body,
  extract_quoted_string,
}
use script_jail.Guest.StraceParser.Strings.Spelled.{Spells}
use script_jail.Guest.StraceParser.Argv.{
  strip_close, comment_end, remove_comments, unquoted, arguments_from, parse_argv_token,
}
use script_jail.Guest.StraceParser.Argv.Printed.{printed, SpellEach, parse_argv_token-printed}

-- A string with a quote, a line end and a letter of two bytes.
extracted :
    extract_quoted_string (codes "\"a\\\"\\n\\303\\251\"..., 7")
    ≡ some (97 ∷ 34 ∷ 10 ∷ 195 ∷ 169 ∷ [], codes ", 7")
unfolding extract_quoted_string body unescape_from escape read_digits letter_escape octal_digit
    hex_digit starts_with
extracted = refl

unterminated : extract_quoted_string (codes "\"abc\\\"") ≡ none
unfolding extract_quoted_string body unescape_from escape
unterminated = refl

parsed :
    parse_argv_token (codes "[\"sh\", \"-c\", \"exit 0\"]")
    ≡ codes "sh" ∷ codes "-c" ∷ codes "exit 0" ∷ []
unfolding parse_argv_token strip_close trim trim_start trim_end is_white_space remove_comments
    comment_end arguments_from unquoted text_eq starts_with extract_quoted_string body unescape_from
    escape
parsed = refl

-- A comment is taken out of a string as well: two patterns of files become one.
comment_in_string :
    parse_argv_token (codes "[\"sh\", \"-c\", \"rm lib/*; cp src/*/x .\"]")
    ≡ codes "sh" ∷ codes "-c" ∷ codes "rm libx ." ∷ []
unfolding parse_argv_token strip_close trim trim_start trim_end is_white_space remove_comments
    comment_end arguments_from unquoted text_eq starts_with extract_quoted_string body unescape_from
    escape
comment_in_string = refl

-- `a` and a tab, as `a\t`
parse_argv_token-printed_example :
    parse_argv_token (b'[' ∷ (printed (codes "a\\t" ∷ []) ++ b']' ∷ [])) ≡ (97 ∷ 9 ∷ []) ∷ []
unfolding letter_escape includes starts_with
parse_argv_token-printed_example =
    parse_argv_token-printed
      (SpellEach.next_one (Spells.plain 97 refl refl (Spells.letter 116 9 refl Spells.end))
        SpellEach.none_left)
      refl
