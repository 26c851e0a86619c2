-- ===== src/Action/Diff/Drift.antt =====
-- src/action/diff.ts, `renderDiff`: whether a generated lock drifted from the committed one. The two
-- functions of the package `diff` are the parameters `create_two_files_patch` and `structured_patch`.
pub mod Keys
pub mod Steps
pub mod Laws
mod Tests
use script_jail.Base.{
  Bool, true, false, not, ◌&&◌, ◌||◌, List, [], ◌∷◌, ◌++◌, map, ℕ, suc, ◌+◌, Option, none, some,
  Text, codes, text_eq, starts_with, decimal, ltb, ◌==◌, if◌then◌else◌,
}
use script_jail.Lock.Normalize.Wrappers.{is_line_end}

pub record DiffResult : Type 0 where
  pub unified : Text
  pub annotations : List Text
  pub is_match : Bool

pub record RenderDiffArgs : Type 0 where
  pub lock_path : Text
  pub committed : Text
  pub generated : Text

-- a hunk of the structured patch
pub record Hunk : Type 0 where
  pub new_start : ℕ
  pub lines : List Text

-- where the matcher of `/^(generated_at|manager_lockfile_sha256):.*$/gm` is: at the start of a line,
-- in a line that does not match, or in what `.*` takes of a line that does
pub data LineState : Type 0 where
  at_start in_line in_value : LineState

-- the key that a line begins with
unfoldable pub volatile_key : Text → Option Text
volatile_key s =
    if starts_with s (codes "generated_at:")
    then some (codes "generated_at")
    else if starts_with s (codes "manager_lockfile_sha256:")
    then some (codes "manager_lockfile_sha256")
    else none

abbrev pub after_unit : ℕ → LineState
after_unit c = if is_line_end c then at_start else in_line

-- what a unit at a line's start stands for, and the state behind it
abbrev pub start_text : Option Text → ℕ → Text
start_text none c = c ∷ []
start_text (some key) c = key ++ codes ": <canonicalized>"

abbrev pub start_state : Option Text → ℕ → LineState
start_state none c = after_unit c
start_state (some key) c = in_value

unfoldable pub emitted : LineState → ℕ → Text → Text
emitted at_start c s = start_text (volatile_key (c ∷ s)) c
emitted in_line c s = c ∷ []
emitted in_value c s = if is_line_end c then c ∷ [] else []

unfoldable pub next_state : LineState → ℕ → Text → LineState
next_state at_start c s = start_state (volatile_key (c ∷ s)) c
next_state in_line c s = after_unit c
next_state in_value c s = if is_line_end c then at_start else in_value

unfoldable pub canonicalize_from : LineState → Text → Text
canonicalize_from state [] = []
canonicalize_from state (c ∷ s) = emitted state c s ++ canonicalize_from (next_state state c s) s

unfoldable pub canonicalize_volatile_fields : Text → Text
canonicalize_volatile_fields yaml = canonicalize_from at_start yaml

-- `countLines`: the line ends, and a last line that has none
unfoldable pub count_ends : Text → ℕ
count_ends [] = 0
count_ends (c ∷ s) = let rest = count_ends s in if c == 10 then suc rest else rest

unfoldable pub is_open : Text → Bool
is_open [] = false
is_open (c ∷ []) = not (c == 10)
is_open (c ∷ d ∷ s) = is_open (d ∷ s)

unfoldable pub count_lines : Text → ℕ
count_lines s = if is_open s then suc (count_ends s) else count_ends s

abbrev pub starts_in : ℕ → Text → Bool
starts_in c [] = false
starts_in c (d ∷ s) = d == c

unfoldable pub count_starts : ℕ → List Text → ℕ
count_starts c [] = 0
count_starts c (l ∷ ls) = let rest = count_starts c ls in if starts_in c l then suc rest else rest

-- `Math.max(1, hunk.newStart)`
abbrev pub start_line : ℕ → ℕ
start_line n = if ltb 1 n then n else 1

unfoldable pub hunk_annotation : Text → Hunk → Text
hunk_annotation lock_path hunk =
    codes "::error file="
    ++ (lock_path
        ++ (codes ",line="
            ++ (decimal (start_line hunk.new_start)
                ++ (codes "::lockfile drifted ("
                    ++ (decimal (count_starts b'+' hunk.lines)
                        ++ (codes " lines added, "
                            ++ (decimal (count_starts b'-' hunk.lines)
                                ++ codes " lines removed in this hunk)")))))))

unfoldable pub missing_annotation : Text → Text → Text
missing_annotation lock_path generated =
    codes "::error file="
    ++ (lock_path
        ++ (codes ",line=1::lockfile missing — would be created ("
            ++ (decimal (count_lines generated) ++ codes " lines)")))

abbrev pub matching : DiffResult
matching = record { unified = []; annotations = []; is_match = true }

module _ (create_two_files_patch : Text → Text → Text → Text → Text)
    (structured_patch : Text → Text → Text → Text → List Hunk) where
  unfoldable pub drifted : RenderDiffArgs → DiffResult
  drifted args =
      let old_label = codes "a/" ++ args.lock_path in
      let new_label = codes "b/" ++ args.lock_path in
      let unified = create_two_files_patch old_label new_label args.committed args.generated in
      if text_eq args.committed []
      then record {
        unified = unified;
        annotations = missing_annotation args.lock_path args.generated ∷ [];
        is_match = false;
      }
      else record {
        unified = unified;
        annotations =
            map (hunk_annotation args.lock_path)
              (structured_patch old_label new_label args.committed args.generated);
        is_match = false;
      }

  unfoldable pub render_diff : RenderDiffArgs → DiffResult
  render_diff args =
      if text_eq args.committed args.generated
      then matching
      else if text_eq (canonicalize_volatile_fields args.committed)
          (canonicalize_volatile_fields args.generated)
      then matching
      else drifted args
