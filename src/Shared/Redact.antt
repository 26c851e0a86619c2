-- ===== src/Shared/Redact.antt =====
-- src/shared/redact.ts: the masking of declared values and of their fragments. The shapes of
-- credentials, which are regular expressions, are not modelled.
pub mod Fragments
pub mod Grams
pub mod Parts
pub mod Leaks
mod Tests
use script_jail.Base.{
  ℕ, zero, suc, ◌+◌, ◌<◌, Bool, true, false, ◌&&◌, ◌||◌, List, [], ◌∷◌, ◌++◌, map, Option, none,
  some, Text, codes, text_eq, contains, dedupe, filter, length, drop, starts_with, sort_by, ltb,
  leb, if◌then◌else◌,
}
use script_jail.Shared.PmCommands.Flags.{joined_value}

-- `<label>`
abbrev pub replacement : Text → Text
replacement label = codes "<" ++ label ++ codes ">"

-- `text.split(value).join(by)`, by the units still to be passed over after a match
unfoldable pub replace_from : Text → Text → ℕ → Text → Text
unfolding starts_with
replace_from value by skip [] = []
replace_from value by (suc skip) (c ∷ text) = replace_from value by skip text
replace_from value by zero (c ∷ text) = elim (starts_with (c ∷ text) value) [
  | true ↦ by ++ replace_from value by (length (drop 1 value)) text
  | false ↦ c ∷ replace_from value by zero text
]

abbrev by_length : Text → Text → Bool
by_length a b = ltb (length b) (length a)

unfoldable pub mask_each : Text → List Text → Text → Text
unfolding replace_from
mask_each by [] out = out
mask_each by (value ∷ values) out = mask_each by values (replace_from value by zero out)

-- `maskExactValues`, where `minLen` is not 0
unfoldable pub mask_exact_values : Text → List Text → Text → ℕ → Text
unfolding mask_each dedupe sort_by
mask_exact_values text values label min_len =
    mask_each (replacement label)
      (sort_by by_length (filter (λ v. leb min_len (length v)) (dedupe values))) text

abbrev pub default_min_fragment : ℕ
default_min_fragment = 8

abbrev pub max_fragment_value_chars : ℕ
max_fragment_value_chars = 2_097_152

abbrev pub fragment_max_grams : ℕ
fragment_max_grams = 4_194_304

pub record FragmentMatcher : Type 0 where
  pub grams : List Text
  pub capped : Bool
  pub min_fragment : ℕ

abbrev pub in_front : ℕ → Option Text → Option Text
in_front c none = none
in_front c (some w) = some (c ∷ w)

-- The first units of a text, if it has so many: `s.slice(i, i + n)` where `i + n <= s.length`.
unfoldable pub window : ℕ → Text → Option Text
window zero s = some []
window (suc n) [] = none
window (suc n) (c ∷ s) = in_front c (window n s)

-- `grams.add(g)`
abbrev pub add_gram : Text → List Text → List Text
add_gram g grams = if contains grams g then grams else g ∷ grams

-- Grams found so far, and whether the loops were left.
abbrev pub Grams : Type 0
Grams = List Text × Bool

abbrev over_limit : ℕ → List Text → Bool
over_limit limit grams = leb limit (length grams)

-- One round of the inner loop: the gram is added, and the loops are left at the limit.
abbrev pub add_window : ℕ → Option Text → List Text → (List Text → Grams) → Grams
add_window limit none grams next = (grams, false)
add_window limit (some g) grams next =
    let later = next (add_gram g grams) in
    if over_limit limit (add_gram g grams) then (add_gram g grams, true) else later

-- The inner loop, at what is left of the value.
unfoldable pub add_windows : ℕ → ℕ → Text → List Text → Grams
unfolding window contains
add_windows limit n [] grams = add_window limit (window n []) grams (λ gs. (gs, false))
add_windows limit n (c ∷ s) grams =
    add_window limit (window n (c ∷ s)) grams (add_windows limit n s)

abbrev pub then_values : Grams → (List Text → Grams) → Grams
then_values (grams, true) next = (grams, true)
then_values (grams, false) next = next grams

-- The outer loop: a value that is not longer than a fragment is passed over.
unfoldable pub add_values : ℕ → ℕ → List Text → List Text → Grams
unfolding add_windows
add_values limit n [] grams = (grams, false)
add_values limit n (v ∷ values) grams =
    if leb (length v) n
    then add_values limit n values grams
    else then_values (add_windows limit n v grams) (add_values limit n values)

-- The first loop: `true` where the values have more units than are allowed.
unfoldable pub is_too_long : ℕ → List Text → Bool
is_too_long total [] = false
is_too_long total (v ∷ values) =
    let rest = is_too_long (total + length v) values in
    if ltb max_fragment_value_chars (total + length v) then true else rest

abbrev matcher_of_grams : ℕ → Grams → FragmentMatcher
matcher_of_grams n (grams, capped) = record { grams = grams; capped = capped; min_fragment = n }

unfoldable pub build_fragment_matcher : List Text → ℕ → FragmentMatcher
unfolding add_values is_too_long dedupe
build_fragment_matcher values n =
    if is_too_long 0 (dedupe values)
    then record { grams = []; capped = true; min_fragment = n }
    else matcher_of_grams n (add_values fragment_max_grams n (dedupe values) [])

-- `grams.has(…)` of the window at the front, if there is one
abbrev pub has_gram : List Text → Option Text → Bool
has_gram grams none = false
has_gram grams (some g) = contains grams g

-- Where the loop stands at a unit: in a span, whose last window began at the unit before; or outside,
-- with a number of units that are still to be skipped.
pub data LoopPlace : Type 0 where
  in_span : LoopPlace
  outside : ℕ → LoopPlace

-- Behind the last window of a span, of which one unit is passed, the rest of it is skipped.
abbrev pub end_span : ℕ → ℕ → Text × LoopPlace
end_span zero c = (c ∷ [], outside 0)
end_span (suc zero) c = (c ∷ [], outside 0)
end_span (suc (suc n)) c = ([], outside n)

-- What is put out at a unit and where the loop goes on, by whether a gram begins there.
abbrev pub pass_unit : ℕ → Text → LoopPlace → Bool → ℕ → Text × LoopPlace
pass_unit n by (outside (suc skip)) starts c = ([], outside skip)
pass_unit n by (outside zero) true c = (by, in_span)
pass_unit n by (outside zero) false c = (c ∷ [], outside 0)
pass_unit n by in_span true c = ([], in_span)
pass_unit n by in_span false c = end_span n c

unfoldable pub mask_from : List Text → ℕ → Text → LoopPlace → Text → Text
unfolding window contains
mask_from grams n by place [] = []
mask_from grams n by place (c ∷ text) =
    let (out, next) = pass_unit n by place (has_gram grams (window n (c ∷ text))) c in
    out ++ mask_from grams n by next text

abbrev mask_grams : List Text → ℕ → Text → Text → Text
mask_grams [] n by text = text
mask_grams (g ∷ grams) n by text = mask_from (g ∷ grams) n by (outside 0) text

-- `maskValueFragmentsWith`, where `minFragment` is not 0
unfoldable pub mask_value_fragments_with : Text → FragmentMatcher → Text → Text
unfolding mask_from
mask_value_fragments_with text matcher label =
    if ltb (length text) matcher.min_fragment
    then text
    else (if matcher.capped
        then replacement label
        else mask_grams matcher.grams matcher.min_fragment (replacement label) text)

abbrev pub mask_value_fragments : Text → List Text → Text → ℕ → Text
mask_value_fragments text values label min_fragment =
    mask_value_fragments_with text (build_fragment_matcher values min_fragment) label

-- A token, and its value if it has one.
abbrev and_value : Option Text → List Text → List Text
and_value none rest = rest
and_value (some value) rest = value ∷ rest

unfoldable pub derive_sensitive_values : List Text → List Text
unfolding joined_value
derive_sensitive_values [] = []
derive_sensitive_values (t ∷ args) = t ∷ and_value (joined_value t) (derive_sensitive_values args)
