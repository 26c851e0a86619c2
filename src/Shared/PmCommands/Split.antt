-- ===== src/Shared/PmCommands/Split.antt =====
-- src/shared/pm-commands.ts: `splitInstallArgs`, which splits a string at white space outside quotes.
pub mod Written
use script_jail.Base.{
  ℕ, Bool, true, false, ◌||◌, ◌&&◌, not, List, [], ◌∷◌, ◌++◌, map, Option, none, some, Text, codes,
  ◌==◌, ==_iff, ==_self, if◌then◌else◌, ◌≡◌, refl, sym, ◌∙◌, ap, append_assoc, append-nil, arith,
}
use script_jail.Shared.PmCommands.Flags.{has_unit}

unfoldable pub is_quote : ℕ → Bool
is_quote c = c == 34 || c == 39

unfoldable pub is_gap : ℕ → Bool
is_gap c = c == 32 || c == 9 || c == 10 || c == 13

-- The variables of the loop.
pub record SplitState : Type 0 where
  pub out : List Text
  pub cur : Text
  pub quote : Option ℕ
  pub started : Bool

abbrev pub start : SplitState
start = record { out = []; cur = []; quote = none; started = false }

abbrev close_or_add : Bool → SplitState → ℕ → SplitState
close_or_add true st c = record st { quote = none }
close_or_add false st c = record st { cur = st.cur ++ c ∷ [] }

abbrev end_token : Bool → SplitState → SplitState
end_token true st = record st { out = st.out ++ st.cur ∷ []; cur = []; started = false }
end_token false st = st

-- A unit outside quotes, by whether it is a quote and whether it is a gap.
abbrev outside_quotes : Bool → Bool → SplitState → ℕ → SplitState
outside_quotes true gap st c = record st { quote = some c; started = true }
outside_quotes false true st c = end_token st.started st
outside_quotes false false st c = record st { cur = st.cur ++ c ∷ []; started = true }

abbrev pub step_unit : Option ℕ → SplitState → ℕ → SplitState
step_unit none st c = outside_quotes (is_quote c) (is_gap c) st c
step_unit (some quote) st c = close_or_add (c == quote) st c

-- The loop.
unfoldable pub read_units : Text → SplitState → SplitState
unfolding is_quote is_gap
read_units [] st = st
read_units (c ∷ raw) st = read_units raw (step_unit st.quote st c)

abbrev pub last_token : SplitState → List Text
last_token st = (end_token st.started st).out

unfoldable pub split_install_args : Text → List Text
unfolding read_units
split_install_args raw = last_token (read_units raw start)
