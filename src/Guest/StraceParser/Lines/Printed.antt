-- ===== src/Guest/StraceParser/Lines/Printed.antt =====
-- The scans of a line, at arguments as strace prints them.
use script_jail.Base.{
  ℕ, ◌-◌, Bool, true, false, not, ◌||◌, ◌&&◌, List, [], ◌∷◌, ◌++◌, Option, some, Text, length,
  length-append, append_assoc, is_white_space, starts_with, ◌==◌, All, ◌≡◌, refl, sym, ◌∙◌, ap,
  arith,
}
use script_jail.Guest.StraceParser.Strings.{double_quote, skip_dots}
use script_jail.Guest.StraceParser.Strings.Spelled.{Spells, extract_quoted_string-Spells}
use script_jail.Guest.StraceParser.Lines.{
  string_length, string_at, with_name, paren_string, scan_on, close_paren,
}

-- A unit that is neither a quote nor a bracket nor a comma nor a blank.
abbrev pub is_plain : ℕ → Bool
is_plain c =
    not (c == b'"')
    && not (c == b'(' || c == b'[' || c == b'{')
    && not (c == b')' || c == b']' || c == b'}')
    && not (c == b',')
    && not (is_white_space c)

abbrev pub ArePlain : Text → Type 0
ArePlain = All (λ c. is_plain c ≡ true)

-- An argument: plain units, or a text in quotes.
pub data IsToken : Text → Type 0 where
  bare : (c : ℕ) (s : Text) → ArePlain (c ∷ s) → IsToken (c ∷ s)
  quoted :
      {meant written : Text}
      → Spells meant written
      → IsToken (double_quote ∷ (written ++ double_quote ∷ []))

pub data AreTokens : List Text → Type 0 where
  no_tokens : AreTokens []
  one_token : {t : Text} {ts : List Text} → IsToken t → AreTokens ts → AreTokens (t ∷ ts)

abbrev pub printed_more : List Text → Text
printed_more [] = []
printed_more (t ∷ ts) = b',' ∷ b' ' ∷ (t ++ printed_more ts)

-- The arguments, with a comma and a blank between two.
abbrev pub printed_args : List Text → Text
printed_args [] = []
printed_args (t ∷ ts) = t ++ printed_more ts

-- What follows an argument is not read as the dots of a truncated string.
no_dots :
    (ts : List Text) (rest : Text)
    → skip_dots (printed_more ts ++ b')' ∷ rest) ≡ printed_more ts ++ b')' ∷ rest
unfolding starts_with
no_dots [] rest = refl
no_dots (t ∷ ts) rest = refl

pub no_dots_left : (ts : List Text) → skip_dots (printed_more ts) ≡ printed_more ts
unfolding starts_with
no_dots_left [] = refl
no_dots_left (t ∷ ts) = refl

-- How many units of a string stand behind its first quote.
pub string_at-Spells :
    {meant w : Text} (rest : Text)
    → Spells meant w
    → skip_dots rest ≡ rest
    → string_at double_quote (w ++ double_quote ∷ rest) ≡ some (length (w ++ double_quote ∷ []))
string_at-Spells {w = w} rest s dots =
    ap (string_length (w ++ double_quote ∷ rest)) (extract_quoted_string-Spells rest s)
    ∙ ap (λ t. some (length (w ++ double_quote ∷ rest) - length t)) dots
    ∙ ap some
        (omega (arith, length-append w (double_quote ∷ rest), length-append w (double_quote ∷ [])))

pub quoted_append :
    (w rest : Text)
    → (double_quote ∷ (w ++ double_quote ∷ [])) ++ rest ≡ double_quote ∷ (w ++ double_quote ∷ rest)
quoted_append w rest = ap (◌∷◌ double_quote) (append_assoc w (double_quote ∷ []) rest)

abbrev prefixed : Text → Option (Text × Text) → Option (Text × Text)
prefixed [] o = o
prefixed (c ∷ t) o = with_name c (prefixed t o)

prefixed_lem : (t a r : Text) → prefixed t (some (a, r)) ≡ some (t ++ a, r)
prefixed_lem [] a r = refl
prefixed_lem (c ∷ t) a r = ap (with_name c) (prefixed_lem t a r)

close_cons :
    (c : ℕ) (s : Text)
    → close_paren 0 0 (c ∷ s)
      ≡ scan_on (paren_string (string_at c s) 0 c) c s (λ skip depth. close_paren skip depth s)
unfolding close_paren
close_cons c s = refl

close_skip :
    (u rest : Text) → close_paren (length u) 0 (u ++ rest) ≡ prefixed u (close_paren 0 0 rest)
unfolding close_paren
close_skip [] rest = refl
close_skip (c ∷ u) rest = ap (with_name c) (close_skip u rest)

close_bare :
    (t rest : Text) → ArePlain t → close_paren 0 0 (t ++ rest) ≡ prefixed t (close_paren 0 0 rest)
close_bare [] rest _ = refl
close_bare (c ∷ t) rest (h, hs) =
    close_cons c (t ++ rest) ∙ passed (t ++ rest) ∙ ap (with_name c) (close_bare t rest hs)
  where
    passed :
        (s : Text)
        → scan_on (paren_string (string_at c s) 0 c) c s (λ skip depth. close_paren skip depth s)
          ≡ with_name c (close_paren 0 0 s)
    passed s =
        let q : (c == b'"') ≡ false = ground arith in
        let o : (c == b'(') ≡ false = ground arith in
        let e : (c == b')') ≡ false = ground arith in rw (q, o, e) refl

close_token :
    (t rest : Text)
    → IsToken t
    → skip_dots rest ≡ rest
    → close_paren 0 0 (t ++ rest) ≡ prefixed t (close_paren 0 0 rest)
close_token t rest (IsToken.bare c s h) dots = close_bare (c ∷ s) rest h
close_token t rest (IsToken.quoted {written = w} s) dots =
    ap (close_paren 0 0) (quoted_append w rest)
    ∙ close_cons double_quote (w ++ double_quote ∷ rest)
    ∙ ap
        (λ n.
          scan_on (paren_string n 0 double_quote) double_quote (w ++ double_quote ∷ rest)
            (λ skip depth. close_paren skip depth (w ++ double_quote ∷ rest)))
        (string_at-Spells rest s dots)
    ∙ ap (λ u. with_name double_quote (close_paren (length (w ++ double_quote ∷ [])) 0 u))
        (sym (append_assoc w (double_quote ∷ []) rest))
    ∙ ap (with_name double_quote) (close_skip (w ++ double_quote ∷ []) rest)

after_comma :
    (s : Text)
    → close_paren 0 0 (b',' ∷ b' ' ∷ s) ≡ with_name b',' (with_name b' ' (close_paren 0 0 s))
unfolding close_paren
after_comma s = refl

close_more :
    (ts : List Text) (rest : Text)
    → AreTokens ts
    → close_paren 0 0 (printed_more ts ++ b')' ∷ rest) ≡ some (printed_more ts, rest)
close_more [] rest _ = unfold close_paren in refl
close_more (t ∷ ts) rest (AreTokens.one_token h hs) =
    after_comma ((t ++ printed_more ts) ++ b')' ∷ rest)
    ∙ ap (λ s. with_name b',' (with_name b' ' (close_paren 0 0 s)))
        (append_assoc t (printed_more ts) (b')' ∷ rest))
    ∙ ap (λ o. with_name b',' (with_name b' ' o))
        (close_token t (printed_more ts ++ b')' ∷ rest) h (no_dots ts rest)
          ∙ ap (prefixed t) (close_more ts rest hs)
          ∙ prefixed_lem t (printed_more ts) rest)

-- The end of the arguments is found.
pub close_paren-printed :
    (ts : List Text) (rest : Text)
    → AreTokens ts
    → close_paren 0 0 (printed_args ts ++ b')' ∷ rest) ≡ some (printed_args ts, rest)
close_paren-printed [] rest _ = unfold close_paren in refl
close_paren-printed (t ∷ ts) rest (AreTokens.one_token h hs) =
    ap (close_paren 0 0) (append_assoc t (printed_more ts) (b')' ∷ rest))
    ∙ close_token t (printed_more ts ++ b')' ∷ rest) h (no_dots ts rest)
    ∙ ap (prefixed t) (close_more ts rest hs)
    ∙ prefixed_lem t (printed_more ts) rest
