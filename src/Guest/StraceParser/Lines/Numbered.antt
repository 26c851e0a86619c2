-- ===== src/Guest/StraceParser/Lines/Numbered.antt =====
-- Where the events of a line stand in the stream, and their numbers.
use script_jail.Base.{
  ℕ, suc, ◌+◌, ◌≤◌, ◌<◌, List, [], ◌∷◌, ◌++◌, none, some, Text, length, length-append, append_assoc,
  refl, subst, All, ◌≡◌, arith,
}
use script_jail.Lock.Schema.{RawEvent}
use script_jail.Guest.StraceParser.Syscalls.{Parsed}
use script_jail.Guest.StraceParser.Lines.{parse_strace_line}
use script_jail.Guest.StraceParser.Lines.Stream.{
  or_no_events, parse_strace_stream_from, parse_strace_stream,
}
use script_jail.Guest.StraceParser.Lines.Stamps.{
  event_pid, event_ts, IsStamped, parse_strace_line-IsStamped,
}

-- The events carry a process and numbers from `low` up to `high`, and none before an earlier one's.
abbrev pub AreStamped : ℕ → ℕ → ℕ → List RawEvent → Type 0
AreStamped pid low high [] = Unit
AreStamped pid low high (e ∷ es) =
    (event_pid e ≡ pid)
    × (low ≤ event_ts e)
    × (event_ts e < high)
    × AreStamped pid (event_ts e) high es

-- The events of one number, and then events whose numbers go on from there.
AreStamped-append :
    (pid start ts high : ℕ) (es fs : List RawEvent)
    → start ≤ ts
    → ts < high
    → All (λ e. (event_pid e ≡ pid) × (event_ts e ≡ ts)) es
    → ((from : ℕ) → from ≤ ts → AreStamped pid from high fs)
    → AreStamped pid start high (es ++ fs)
AreStamped-append pid start ts high [] fs before lt h later = later start before
AreStamped-append pid start ts high (e ∷ es) fs before lt ((p, t), h) later = (
  p,
  omega (arith, t),
  omega (arith, t),
  AreStamped-append pid (event_ts e) ts high es fs (omega (arith, t)) lt h later,
)

events-AreStamped :
    (pid start ts high : ℕ) (p : Parsed) (fs : List RawEvent)
    → start ≤ ts
    → ts < high
    → IsStamped pid ts p
    → ((from : ℕ) → from ≤ ts → AreStamped pid from high fs)
    → AreStamped pid start high (or_no_events p ++ fs)
events-AreStamped pid start ts high none fs before lt h later = later start before
events-AreStamped pid start ts high (some es) fs before lt (h, _) later =
    AreStamped-append pid start ts high es fs before lt h later

parse_strace_stream_from-AreStamped :
    (pid start ts high : ℕ) (lines : List Text)
    → start ≤ ts
    → ts + length lines ≡ high
    → AreStamped pid start high (parse_strace_stream_from ts lines pid)
unfolding parse_strace_stream_from
parse_strace_stream_from-AreStamped pid start ts high [] before e = tt
parse_strace_stream_from-AreStamped pid start ts high (line ∷ lines) before e =
    events-AreStamped pid start ts high (parse_strace_line line pid ts) _ before (omega (arith, e))
      (parse_strace_line-IsStamped pid ts line)
      (λ from le.
        parse_strace_stream_from-AreStamped pid from (suc ts) high lines (omega (arith, le))
          (omega (arith, e)))

-- The stream up to a line, the line, and the rest of the stream.
parse_strace_stream_from-append :
    (pid ts here : ℕ) (before : List Text) (line : Text) (after : List Text)
    → ts + length before ≡ here
    → parse_strace_stream_from ts (before ++ line ∷ after) pid
      ≡ parse_strace_stream_from ts before pid
        ++ (or_no_events (parse_strace_line line pid here)
            ++ parse_strace_stream_from (suc here) after pid)
unfolding parse_strace_stream_from
parse_strace_stream_from-append pid ts here [] line after e =
    subst
      (λ n.
        parse_strace_stream_from ts (line ∷ after) pid
        ≡ or_no_events (parse_strace_line line pid n) ++ parse_strace_stream_from (suc n) after pid)
      (omega (arith, e)) refl
parse_strace_stream_from-append pid ts here (b ∷ before) line after e = rw (
  parse_strace_stream_from-append pid (suc ts) here before line after (omega (arith, e)),
  append_assoc,
)

-- The events of each line stand in the stream, in the place of the line. There are at most two of them,
-- and they carry the process of the stream and the number of lines in front. The events of earlier
-- lines carry smaller numbers, those of later lines greater ones below the number of all lines, and the
-- numbers never go down.
pub parse_strace_stream-line :
    (before : List Text) (line : Text) (after : List Text) (pid : ℕ)
    → let here = length before in
      let events = parse_strace_line line pid here in
      let rest = parse_strace_stream_from (suc here) after pid in
      (parse_strace_stream (before ++ line ∷ after) pid
        ≡ parse_strace_stream before pid ++ (or_no_events events ++ rest))
      × IsStamped pid here events
      × AreStamped pid 0 here (parse_strace_stream before pid)
      × AreStamped pid (suc here) (length (before ++ line ∷ after)) rest
parse_strace_stream-line before line after pid = (
  parse_strace_stream_from-append pid 0 (length before) before line after (omega arith),
  parse_strace_line-IsStamped pid (length before) line,
  parse_strace_stream_from-AreStamped pid 0 0 (length before) before (omega arith) (omega arith),
  parse_strace_stream_from-AreStamped pid (suc (length before)) (suc (length before))
      (length (before ++ line ∷ after)) after (omega arith)
      (omega (arith, length-append before (line ∷ after))),
)
