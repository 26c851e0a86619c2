-- ===== src/Shared/Redact/Tests.antt =====
-- Runs of the masking, and its theorem at a leaked fragment.
use script_jail.Base.{
  false, [], ◌∷◌, Text, codes, contains, text_eq, starts_with, includes, dedupe, sort_by, insert_by,
  ◌≡◌, refl, arith,
}
use script_jail.Shared.Redact.{
  window, add_windows, add_values, is_too_long, build_fragment_matcher, mask_from,
  mask_value_fragments_with, mask_value_fragments, mask_exact_values, mask_each, replace_from,
  derive_sensitive_values, default_min_fragment, replacement,
}
use script_jail.Shared.Redact.Fragments.{Masked}
use script_jail.Shared.Redact.Parts.{IsValueSpan}
use script_jail.Shared.Redact.Leaks.{mask_value_fragments-Masked}
use script_jail.Shared.PmCommands.Flags.{joined_value}

exact :
    mask_exact_values
      (codes "--registry=S3cret dev")
      (derive_sensitive_values (codes "--registry=S3cret" ∷ codes "dev" ∷ []))
      (codes "R")
      4
    ≡ codes "<R> dev"
unfolding mask_exact_values mask_each replace_from derive_sensitive_values joined_value dedupe
    contains text_eq sort_by insert_by starts_with
exact = refl

abbrev token : Text
token = codes "t0k3n-4711-xyz"

-- the middle of the token, in a line
abbrev line : Text
line = codes "got 3n-4711-x!"

leaked : mask_value_fragments line (token ∷ []) (codes "R") 8 ≡ codes "got <R>!"
unfolding mask_value_fragments_with mask_from build_fragment_matcher add_values add_windows window
    is_too_long dedupe contains text_eq
leaked = refl

mask_value_fragments-Masked_example :
    Masked
      (replacement (codes "R"))
      (λ run. includes run (codes "n-4711-x") ≡ false)
      (IsValueSpan (token ∷ []) default_min_fragment)
      line
      (mask_value_fragments line (token ∷ []) (codes "R") default_min_fragment)
unfolding build_fragment_matcher add_values add_windows window is_too_long dedupe contains text_eq
mask_value_fragments-Masked_example =
    mask_value_fragments-Masked line (token ∷ []) (codes "R") default_min_fragment (codes "t0k3")
      (codes "n-4711-x") (codes "yz") (omega arith) refl refl (omega arith) refl

-- Where a span of one value ends inside another value, the rest of that one is kept if it is shorter
-- than a fragment.
overlapping :
    mask_value_fragments
      (codes "12345678abcdefg.")
      (codes "12345678X" ∷ codes "78abcdefg" ∷ [])
      (codes "R")
      8
    ≡ codes "<R>abcdefg."
unfolding mask_value_fragments_with mask_from build_fragment_matcher add_values add_windows window
    is_too_long dedupe contains text_eq
overlapping = refl
