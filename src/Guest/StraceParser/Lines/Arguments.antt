-- ===== src/Guest/StraceParser/Lines/Arguments.antt =====
-- The split of the arguments, as strace prints them.
use script_jail.Base.{
  ℕ, true, false, ◌||◌, List, [], ◌∷◌, ◌++◌, Option, none, some, Text, length, append_assoc,
  append-nil, is_white_space, trim, trim_start, EndsInk, EndsInk-append, trim-EndsInk, ◌==◌, ◌≡◌,
  refl, sym, ◌∙◌, ap, arith,
}
use script_jail.Guest.StraceParser.Strings.{double_quote, skip_dots}
use script_jail.Guest.StraceParser.Lines.{
  string_at, ArgState, split_from, split_args, at_string, next_unit, cons_some, nonempty_arg,
}
use script_jail.Guest.StraceParser.Lines.Printed.{
  is_plain, ArePlain, IsToken, AreTokens, printed_more, printed_args, no_dots_left,
  string_at-Spells, quoted_append,
}

-- Outside of strings and brackets, with the argument so far.
abbrev after : Text → ArgState
after cur = record { skip = 0; openings = 0; closings = 0; cur = cur }

abbrev in_string : ℕ → Text → ArgState
in_string n cur = record { skip = n; openings = 0; closings = 0; cur = cur }

split_cons :
    (st : ArgState) (c : ℕ) (s : Text)
    → split_from st (c ∷ s)
      ≡ cons_some (next_unit st.skip st c s).0 (split_from (next_unit st.skip st c s).1 s)
unfolding split_from
split_cons st c s = refl

split_skip :
    (u rest cur : Text)
    → split_from (in_string (length u) cur) (u ++ rest) ≡ split_from (after (cur ++ u)) rest
unfolding split_from
split_skip [] rest cur = ap (λ t. split_from (after t) rest) (sym (append-nil cur))
split_skip (c ∷ u) rest cur =
    split_skip u rest (cur ++ c ∷ [])
    ∙ ap (λ t. split_from (after t) rest) (append_assoc cur (c ∷ []) u)

split_bare :
    (t rest cur : Text)
    → ArePlain t
    → split_from (after cur) (t ++ rest) ≡ split_from (after (cur ++ t)) rest
split_bare [] rest cur _ = ap (λ t. split_from (after t) rest) (sym (append-nil cur))
split_bare (c ∷ t) rest cur (h, hs) =
    passed (t ++ rest)
    ∙ split_bare t rest (cur ++ c ∷ []) hs
    ∙ ap (λ t. split_from (after t) rest) (append_assoc cur (c ∷ []) t)
  where
    unit_passed : (s : Text) → next_unit 0 (after cur) c s ≡ (none, after (cur ++ c ∷ []))
    unit_passed s =
        let q : (c == b'"') ≡ false = ground arith in
        let o : (c == b'(' || c == b'[' || c == b'{') ≡ false = ground arith in
        let e : (c == b')' || c == b']' || c == b'}') ≡ false = ground arith in
        let d : (c == b',') ≡ false = ground arith in rw (q, o, e, d) refl

    passed : (s : Text) → split_from (after cur) (c ∷ s) ≡ split_from (after (cur ++ c ∷ [])) s
    passed s =
        split_cons (after cur) c s
        ∙ ap (λ (p : Option Text × ArgState). cons_some p.0 (split_from p.1 s)) (unit_passed s)

split_token :
    (t rest cur : Text)
    → IsToken t
    → skip_dots rest ≡ rest
    → split_from (after cur) (t ++ rest) ≡ split_from (after (cur ++ t)) rest
split_token t rest cur (IsToken.bare c s h) dots = split_bare (c ∷ s) rest cur h
split_token t rest cur (IsToken.quoted {written = w} s) dots =
    ap (split_from (after cur)) (quoted_append w rest)
    ∙ opened_string (w ++ double_quote ∷ rest) (string_at-Spells rest s dots)
    ∙ ap (split_from (in_string (length (w ++ double_quote ∷ [])) (cur ++ double_quote ∷ [])))
        (sym (append_assoc w (double_quote ∷ []) rest))
    ∙ split_skip (w ++ double_quote ∷ []) rest (cur ++ double_quote ∷ [])
    ∙ ap (λ t. split_from (after t) rest)
        (append_assoc cur (double_quote ∷ []) (w ++ double_quote ∷ []))
  where
    opened_string :
        (s : Text)
        → string_at double_quote s ≡ some (length (w ++ double_quote ∷ []))
        → split_from (after cur) (double_quote ∷ s)
          ≡ split_from (in_string (length (w ++ double_quote ∷ [])) (cur ++ double_quote ∷ [])) s
    opened_string s e =
        split_cons (after cur) double_quote s
        ∙ ap
            (λ o.
              cons_some (at_string o (after cur) double_quote).0
                (split_from (at_string o (after cur) double_quote).1 s))
            e

-- An argument begins and ends with no blank.
data IsInk : Text → Type 0 where
  ink : (c : ℕ) (s : Text) → is_white_space c ≡ false → EndsInk (c ∷ s) → IsInk (c ∷ s)

plain_ink : (c : ℕ) → is_plain c ≡ true → is_white_space c ≡ false
plain_ink c h = ground arith

EndsInk-plain : (s : Text) → ArePlain s → EndsInk s
EndsInk-plain [] _ = tt
EndsInk-plain (c ∷ []) (h, _) = plain_ink c h
EndsInk-plain (c ∷ d ∷ s) (_, h) = EndsInk-plain (d ∷ s) h

quote_ink : is_white_space double_quote ≡ false
unfolding is_white_space
quote_ink = refl

token-IsInk : (t : Text) → IsToken t → IsInk t
token-IsInk t (IsToken.bare c s (h, hs)) = ink c s (plain_ink c h) (EndsInk-plain (c ∷ s) (h, hs))
token-IsInk t (IsToken.quoted {written = w} s) =
    ink double_quote (w ++ double_quote ∷ []) quote_ink
      (EndsInk-append (double_quote ∷ w) double_quote [] quote_ink)

trim_ink : (t : Text) → IsInk t → trim t ≡ t
trim_ink t (ink c s h e) = trim-EndsInk c s h e

trim_blank : (t : Text) → IsInk t → trim (b' ' ∷ t) ≡ t
trim_blank t i = drop_blank t ∙ trim_ink t i
  where
    drop_blank : (t : Text) → trim (b' ' ∷ t) ≡ trim t
    drop_blank t = unfold trim trim_start is_white_space in refl

kept : (t : Text) → IsInk t → nonempty_arg t ≡ t ∷ []
kept t (ink c s h e) = refl

split_end : (cur : Text) → split_from (after cur) [] ≡ nonempty_arg (trim cur)
unfolding split_from
split_end cur = refl

split_comma :
    (cur s : Text)
    → split_from (after cur) (b',' ∷ b' ' ∷ s) ≡ trim cur ∷ split_from (after (b' ' ∷ [])) s
unfolding split_from
split_comma cur s = refl

split_more :
    (cur t : Text) (ts : List Text)
    → trim cur ≡ t
    → IsInk t
    → AreTokens ts
    → split_from (after cur) (printed_more ts) ≡ t ∷ ts
split_more cur t [] e i _ = split_end cur ∙ ap nonempty_arg e ∙ kept t i
split_more cur t (u ∷ us) e i (AreTokens.one_token h hs) =
    split_comma cur (u ++ printed_more us)
    ∙ ap (λ a. a ∷ split_from (after (b' ' ∷ [])) (u ++ printed_more us)) e
    ∙ ap (◌∷◌ t) (
        split_token u (printed_more us) (b' ' ∷ []) h (no_dots_left us)
        ∙ split_more (b' ' ∷ u) u us (trim_blank u (token-IsInk u h)) (token-IsInk u h) hs)

-- The arguments that were printed.
pub split_args-printed : (ts : List Text) → AreTokens ts → split_args (printed_args ts) ≡ ts
unfolding split_args
split_args-printed [] _ = unfold trim split_from in refl
split_args-printed (t ∷ ts) (AreTokens.one_token h hs) =
    split_token t (printed_more ts) [] h (no_dots_left ts)
    ∙ split_more t t ts (trim_ink t (token-IsInk t h)) (token-IsInk t h) hs
