-- ===== src/Guest/StraceParser/Lines/Stream.antt =====
-- src/guest/strace-parser.ts: `parseStraceStream`, on the lines of the stream.
use script_jail.Base.{ℕ, suc, List, [], ◌∷◌, ◌++◌, none, some, Text}
use script_jail.Lock.Schema.{RawEvent}
use script_jail.Guest.StraceParser.Syscalls.{Parsed}
use script_jail.Guest.StraceParser.Lines.{parse_strace_line}

abbrev pub or_no_events : Parsed → List RawEvent
or_no_events none = []
or_no_events (some events) = events

-- The counter goes up by one for each line.
unfoldable pub parse_strace_stream_from : ℕ → List Text → ℕ → List RawEvent
unfolding parse_strace_line
parse_strace_stream_from ts [] pid = []
parse_strace_stream_from ts (line ∷ lines) pid =
    or_no_events (parse_strace_line line pid ts) ++ parse_strace_stream_from (suc ts) lines pid

abbrev pub parse_strace_stream : List Text → ℕ → List RawEvent
parse_strace_stream lines pid = parse_strace_stream_from 0 lines pid
