-- ===== src/Guest/StraceParser/Lines/Tests.antt =====
-- Lines as strace prints them, and the theorems on the calls that open a file and on the stream.
use script_jail.Guest.StraceParser.Lines.Stream.{
  or_no_events, parse_strace_stream_from, parse_strace_stream,
}
use script_jail.Guest.StraceParser.Lines.Numbered.{AreStamped, parse_strace_stream-line}
use script_jail.Guest.StraceParser.Lines.Stamps.{IsStamped}
use script_jail.Base.{
  true, false, [], ◌∷◌, ◌++◌, none, some, Text, codes, text_eq, starts_with, ends_with, includes,
  trim, trim_start, trim_end, is_white_space, ◌≡◌, refl,
}
use script_jail.Lock.Schema.{pos, RawEvent, ConnectResult}
use script_jail.Guest.StraceParser.Strings.{
  double_quote, letter_escape, escape, unescape_from, body, extract_quoted_string,
}
use script_jail.Guest.StraceParser.Strings.Spelled.{Spells}
use script_jail.Guest.StraceParser.Syscalls.{
  RetVal, file_event, flags_imply_write, decimal_value, leading_int, dirfd_of, open_errno,
  ret_fd_of, parse_openat, parse_openat2, parse_open, parse_creat,
}
use script_jail.Guest.StraceParser.Syscalls.Opened.{event_of, parse_open-Spells}
use script_jail.Guest.StraceParser.Syscalls.Tokens.{IsDirectory, Access, IsHow, Returned}
use mathlib.Core.List.{Memᴰ}
use script_jail.Base.{decimal}
use script_jail.Guest.StraceParser.Calls.{
  find_after, skip_digits, port_at, up_to_quote, host_in_quotes, parse_connect_struct,
  parse_connect, parse_syscall,
}
use script_jail.Guest.StraceParser.Lines.{
  strip_timestamp, split_from, split_args, behind, word, raw_from, parse_ret_val, ret_val,
  open_paren, close_paren, is_dropped_line, parse_strace_line,
}

written :
    parse_strace_line (codes "openat(5, \"a)b,\\n\", O_WRONLY|O_APPEND, 0644) = 7") 41 2
    ≡ some (RawEvent.write (file_event (codes "a)b,\n") none (some (pos 5)) (some 7) 41 2) ∷ [])
unfolding parse_strace_line strip_timestamp trim trim_start trim_end is_white_space is_dropped_line
    starts_with ends_with includes open_paren close_paren extract_quoted_string body unescape_from
    escape letter_escape parse_ret_val find_after raw_from word behind text_eq split_args split_from
    parse_syscall parse_openat dirfd_of leading_int decimal_value flags_imply_write open_errno
    ret_fd_of skip_digits
written = refl

refused :
    parse_ret_val (codes " = -1 ENOENT (No such file or directory) <0.000042>")
    ≡ some (ret_val (codes "-1") (some (codes "ENOENT")))
unfolding parse_ret_val find_after raw_from word behind text_eq is_white_space trim_start
refused = refl

reached :
    parse_strace_line
      (codes
        "12:00:01 connect(3, {sa_family=AF_INET, sin_port=htons(443), sin_addr=inet_addr(\"1.2.3.4\")}, 16) = -1 EINPROGRESS (Operation now in progress)")
      9
      0
    ≡ some (
        RawEvent.connect (record {
          host = codes "1.2.3.4";
          port = 443;
          result = ConnectResult.ok;
          pid = 9;
          ts = 0;
          root_anchored = none;
        })
        ∷ [])
unfolding parse_strace_line strip_timestamp trim trim_start trim_end is_white_space is_dropped_line
    starts_with ends_with includes open_paren close_paren extract_quoted_string body unescape_from
    escape parse_ret_val find_after raw_from word behind text_eq split_args split_from parse_syscall
    parse_connect parse_connect_struct port_at host_in_quotes up_to_quote skip_digits decimal_value
reached = refl

-- A call on a path that holds the mark of an unfinished call.
hidden_by_name : parse_strace_line (codes "creat(\"<unfinished ...>\", 0644) = 5") 41 2 ≡ none
unfolding parse_strace_line strip_timestamp trim trim_start trim_end is_white_space is_dropped_line
    starts_with ends_with includes skip_digits text_eq
hidden_by_name = refl

abbrev returned : RetVal
returned = record { raw = decimal 7; is_error = false; errno = none }

abbrev path_token : Text
path_token = double_quote ∷ (codes "b" ++ double_quote ∷ [])

abbrev how : Text
how = codes "{flags=O_RDWR, mode=0}"

parse_open-Spells_example :
    (parse_openat (decimal 5 ∷ path_token ∷ codes "O_RDWR" ∷ []) returned 41 2
      ≡ event_of true (codes "b") none (some (pos 5)) (some 7) 41 2)
    × (parse_openat2 (decimal 5 ∷ path_token ∷ how ∷ []) returned 41 2
        ≡ event_of true (codes "b") none (some (pos 5)) (some 7) 41 2)
    × (parse_open (path_token ∷ codes "O_RDWR" ∷ []) returned 41 2
        ≡ event_of true (codes "b") none none (some 7) 41 2)
    × (parse_creat (path_token ∷ codes "O_RDWR" ∷ []) returned 41 2
        ≡ event_of true (codes "b") none none (some 7) 41 2)
unfolding trim trim_start trim_end is_white_space
parse_open-Spells_example =
    parse_open-Spells [] [] 41 2 (Spells.plain b'b' refl refl Spells.end) (IsDirectory.descriptor 5)
      (Access.writes [] (codes "O_RDWR") [] (Memᴰ.tail (Memᴰ.head refl)))
      (IsHow.how_of b',' (codes " mode=0}") (λ e. cc) refl
        (refl, (refl, (refl, (refl, (refl, (refl, tt)))))) refl)
      (Returned.succeeds 7)

abbrev signal_line : Text
signal_line = codes "--- SIGCHLD ---"

abbrev creat_line : Text
creat_line = codes "creat(" ++ path_token ++ codes ", 0644) = 5"

parse_strace_stream-line_example :
    (parse_strace_stream (signal_line ∷ creat_line ∷ signal_line ∷ []) 41
      ≡ parse_strace_stream (signal_line ∷ []) 41
        ++ (or_no_events (parse_strace_line creat_line 41 1)
            ++ parse_strace_stream_from 2 (signal_line ∷ []) 41))
    × IsStamped 41 1 (parse_strace_line creat_line 41 1)
    × AreStamped 41 0 1 (parse_strace_stream (signal_line ∷ []) 41)
    × AreStamped 41 2 3 (parse_strace_stream_from 2 (signal_line ∷ []) 41)
parse_strace_stream-line_example =
    parse_strace_stream-line (signal_line ∷ []) creat_line (signal_line ∷ []) 41
