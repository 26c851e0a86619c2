-- ===== src/Action/Diff/Drift/Tests.antt =====
-- Runs of `renderDiff`, and its theorem at two locks.
use script_jail.Base.{true, List, [], Text, codes, starts_with, ◌≡◌, refl, ◌↔◌}
use script_jail.Action.Diff.Drift.{
  RenderDiffArgs, Hunk, at_start, volatile_key, emitted, next_state, canonicalize_from,
  canonicalize_volatile_fields, count_ends, is_open, count_lines, render_diff,
}
use script_jail.Action.Diff.Drift.Laws.{Agree, render_diff_lem}

canonical_text :
    canonicalize_volatile_fields (codes "a\ngenerated_at: 1\n generated_at: 1")
    ≡ codes "a\ngenerated_at: <canonicalized>\n generated_at: 1"
unfolding canonicalize_volatile_fields canonicalize_from emitted next_state volatile_key starts_with
canonical_text = refl

two_lines : count_lines (codes "a\nb\n") ≡ 2
unfolding count_lines count_ends is_open
two_lines = refl

open_line : count_lines (codes "a\nb") ≡ 2
unfolding count_lines count_ends is_open
open_line = refl

abbrev args : RenderDiffArgs
args = record {
  lock_path = codes "lock";
  committed = codes "generated_at: 1\nx";
  generated = codes "generated_at: 2\nx";
}

abbrev no_patch : Text → Text → Text → Text → Text
no_patch old new committed generated = codes "patch"

abbrev no_hunks : Text → Text → Text → Text → List Hunk
no_hunks old new committed generated = []

render_diff_lem_example :
    ((render_diff no_patch no_hunks args).is_match ≡ true)
    ↔ Agree at_start args.committed args.generated
render_diff_lem_example = render_diff_lem no_patch no_hunks args
