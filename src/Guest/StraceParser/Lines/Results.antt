-- ===== src/Guest/StraceParser/Lines/Results.antt =====
-- What a call returned, as strace prints it.
use script_jail.Base.{
  ℕ, true, false, [], ◌∷◌, ◌++◌, Option, none, some, Text, codes, text_eq, starts_with,
  is_white_space, trim_start, EndsInk, append-nil, append_assoc, if◌then◌else◌, ◌==◌, ◌≡◌, refl,
  sym, ◌∙◌, ap, arith,
}
use script_jail.Guest.StraceParser.Syscalls.{is_decimal, RetVal, if_some}
use script_jail.Guest.StraceParser.Syscalls.Numbers.{IsDigits}
use script_jail.Guest.StraceParser.Calls.{find_after, or_further}
use script_jail.Guest.StraceParser.Lines.{
  word, with_errno, errno_at, is_word_unit, raw_from, ret_val, some_blank, number_at, parse_ret_val,
}

no_errno : errno_at [] ≡ some none
unfolding trim_start word text_eq
no_errno = refl

raw_from_cons :
    (raw : Text) (c : ℕ) (s : Text)
    → raw_from raw (c ∷ s)
      ≡ or_further
          (if is_word_unit c then raw_from (raw ++ c ∷ []) s else none)
          (with_errno raw (errno_at (c ∷ s)))
unfolding raw_from
raw_from_cons raw c s = refl

raw_from-IsDigits : (raw s : Text) → IsDigits s → raw_from raw s ≡ some (ret_val (raw ++ s) none)
raw_from-IsDigits raw [] _ =
    unfold raw_from in
    ap (with_errno raw) no_errno ∙ ap (λ t. some (ret_val t none)) (sym (append-nil raw))
raw_from-IsDigits raw (c ∷ s) (h, hs) =
    let w : is_word_unit c ≡ true = ground arith in
    raw_from_cons raw c s ∙ rw (w, raw_from-IsDigits (raw ++ c ∷ []) s hs, append_assoc) refl

-- `-1` is not a number in decimal digits.
digits_no_error :
    (s : Text) → IsDigits s → ret_val s none ≡ record { raw = s; is_error = false; errno = none }
unfolding text_eq
digits_no_error [] _ = refl
digits_no_error (c ∷ s) (h, _) = let m : (c == b'-') ≡ false = ground arith in rw m refl

number_at-IsDigits :
    (c : ℕ) (s : Text)
    → IsDigits (c ∷ s)
    → number_at (c ∷ s) ≡ some (record { raw = c ∷ s; is_error = false; errno = none })
number_at-IsDigits c s (h, hs) =
    let m : (c == b'-') ≡ false = ground arith in
    rw (m, h) (raw_from-IsDigits (c ∷ []) s hs ∙ ap some (digits_no_error (c ∷ s) (h, hs)))

pub digit_ink : (c : ℕ) → is_decimal c ≡ true → is_white_space c ≡ false
unfolding is_white_space
digit_ink c h = ground arith

pub EndsInk-digits : (s : Text) → IsDigits s → EndsInk s
EndsInk-digits [] _ = tt
EndsInk-digits (c ∷ []) (h, _) = digit_ink c h
EndsInk-digits (c ∷ d ∷ s) (_, h) = EndsInk-digits (d ∷ s) h

after_equals :
    (follow : Text → Option RetVal) (t : Text) (r : RetVal)
    → follow t ≡ some r
    → find_after (codes "=") follow (b' ' ∷ b'=' ∷ t) ≡ some r
unfolding find_after starts_with
after_equals follow t r h = rw h refl

pub parse_ret_val-IsDigits :
    (c : ℕ) (s : Text)
    → IsDigits (c ∷ s)
    → parse_ret_val (b' ' ∷ b'=' ∷ b' ' ∷ c ∷ s)
      ≡ some (record { raw = c ∷ s; is_error = false; errno = none })
unfolding parse_ret_val is_white_space
parse_ret_val-IsDigits c s (h, hs) =
    after_equals (λ t. if_some (some_blank t) number_at) (b' ' ∷ c ∷ s) _
      (blank (number_at-IsDigits c s (h, hs)))
  where
    blank :
        {r : RetVal}
        → number_at (c ∷ s) ≡ some r
        → if_some (some_blank (b' ' ∷ c ∷ s)) number_at ≡ some r
    blank e = rw (digit_ink c h) e
