-- ===== src/Guest/StraceParser/Argv/Printed.antt =====
-- The arguments that strace has printed are read back.
use script_jail.Base.{
  ℕ, ◌-◌, true, false, List, [], ◌∷◌, ◌++◌, some, Text, codes, starts_with, includes, length,
  length-append, trim, is_white_space, EndsInk, EndsInk-append, trim-EndsInk, text_eq, ◌≡◌, refl,
  sym, ◌∙◌, ap, subst, arith, append_assoc, append-nil, Bool-cases, inl, inr,
}
use script_jail.Guest.StraceParser.Strings.{double_quote, skip_dots, extract_quoted_string}
use script_jail.Guest.StraceParser.Strings.Spelled.{Spells, extract_quoted_string-Spells}
use script_jail.Guest.StraceParser.Argv.{
  strip_close, remove_comments, argument, found_string, find_argument, add_argument, arguments_from,
  arguments_of, parse_argv_token,
}

abbrev pub in_quotes : Text → Text
in_quotes written = double_quote ∷ (written ++ double_quote ∷ [])

-- Strings in quotes, with a comma and a blank between them.
abbrev pub printed_rest : List Text → Text
printed_rest [] = []
printed_rest (w ∷ ws) = b',' ∷ b' ' ∷ (in_quotes w ++ printed_rest ws)

abbrev pub printed : List Text → Text
printed [] = []
printed (w ∷ ws) = in_quotes w ++ printed_rest ws

pub data SpellEach : List Text → List Text → Type 0 where
  none_left : SpellEach [] []
  next_one :
      {meant written : Text} {args strings : List Text}
      → Spells meant written
      → SpellEach args strings
      → SpellEach (meant ∷ args) (written ∷ strings)

arguments-skip : (a b : Text) → arguments_from (length a) (a ++ b) ≡ arguments_from 0 b
unfolding arguments_from
arguments-skip [] b = refl
arguments-skip (c ∷ a) b = arguments-skip a b

no_dots : (ws : List Text) → skip_dots (printed_rest ws) ≡ printed_rest ws
unfolding starts_with
no_dots [] = refl
no_dots (w ∷ ws) = refl

arguments_cons :
    (c : ℕ) (s : Text)
    → arguments_from 0 (c ∷ s) ≡ add_argument (find_argument c s) (λ skip. arguments_from skip s)
unfolding arguments_from
arguments_cons c s = refl

arguments_nil : arguments_from 0 [] ≡ []
unfolding arguments_from
arguments_nil = refl

find-string :
    (s val rest : Text)
    → extract_quoted_string (double_quote ∷ s) ≡ some (val, rest)
    → find_argument double_quote s ≡ argument val (length s - length rest)
unfolding is_white_space
find-string s val rest h = ap (found_string s) h

pass_separators : (s : Text) → arguments_from 0 (b',' ∷ b' ' ∷ s) ≡ arguments_from 0 s
unfolding arguments_from is_white_space
pass_separators s = refl

quoted_append : (w rest : Text) → in_quotes w ++ rest ≡ double_quote ∷ (w ++ double_quote ∷ rest)
quoted_append w rest = ap (λ t. double_quote ∷ t) (append_assoc w (double_quote ∷ []) rest)

arguments-quoted :
    (meant w : Text) (ws : List Text)
    → Spells meant w
    → arguments_from 0 (in_quotes w ++ printed_rest ws) ≡ meant ∷ arguments_from 0 (printed_rest ws)
arguments-quoted meant w ws s =
    let rest = printed_rest ws in
    let found =
      find-string (w ++ double_quote ∷ rest) meant rest
        (extract_quoted_string-Spells rest s ∙ ap (λ t. some (meant, t)) (no_dots ws)) in
    let count : length (w ++ double_quote ∷ rest) - length rest ≡ length (w ++ double_quote ∷ []) =
      omega (arith, length-append w (double_quote ∷ rest), length-append w (double_quote ∷ [])) in
    ap (arguments_from 0) (quoted_append w rest)
    ∙ arguments_cons double_quote (w ++ double_quote ∷ rest)
    ∙ ap (λ f. add_argument f (λ skip. arguments_from skip (w ++ double_quote ∷ rest))) found
    ∙ ap (λ k. meant ∷ arguments_from k (w ++ double_quote ∷ rest)) count
    ∙ ap (λ t. meant ∷ arguments_from (length (w ++ double_quote ∷ [])) t)
        (sym (append_assoc w (double_quote ∷ []) rest))
    ∙ ap (λ t. meant ∷ t) (arguments-skip (w ++ double_quote ∷ []) rest)

arguments-rest :
    {args strings : List Text}
    → SpellEach args strings
    → arguments_from 0 (printed_rest strings) ≡ args
arguments-rest SpellEach.none_left = arguments_nil
arguments-rest (SpellEach.next_one {meant = m} {written = w} {strings = ws} s each) =
    pass_separators (in_quotes w ++ printed_rest ws)
    ∙ arguments-quoted m w ws s
    ∙ ap (λ t. m ∷ t) (arguments-rest each)

arguments-printed :
    {args strings : List Text} → SpellEach args strings → arguments_from 0 (printed strings) ≡ args
arguments-printed SpellEach.none_left = arguments_nil
arguments-printed (SpellEach.next_one {meant = m} {written = w} {strings = ws} s each) =
    arguments-quoted m w ws s ∙ ap (λ t. m ∷ t) (arguments-rest each)

-- A text in which no comment begins keeps all its units.
remove_comments-keeps : (s : Text) → includes s (codes "/*") ≡ false → remove_comments 0 s ≡ s
unfolding remove_comments includes
remove_comments-keeps [] h = refl
remove_comments-keeps (c ∷ s) h = elim (Bool-cases (starts_with (c ∷ s) (codes "/*"))) [
  | inl e ↦ let wrong : true ≡ false = rw e at h in cc
  | inr e ↦
      let later : includes s (codes "/*") ≡ false = rw e at h in
      rw e (ap (λ t. c ∷ t) (remove_comments-keeps s later))
]

strip_close-append : (s : Text) → strip_close (s ++ b']' ∷ []) ≡ s
unfolding strip_close
strip_close-append [] = refl
strip_close-append (c ∷ []) = refl
strip_close-append (c ∷ d ∷ s) = ap (λ t. c ∷ t) (strip_close-append (d ∷ s))

quote_is_ink : is_white_space double_quote ≡ false
unfolding is_white_space
quote_is_ink = refl

in_quotes-EndsInk : (a : Text) (ws : List Text) → EndsInk (in_quotes a ++ printed_rest ws)
in_quotes-EndsInk a [] =
    subst EndsInk (sym (append-nil (in_quotes a)))
      (EndsInk-append (double_quote ∷ a) double_quote [] quote_is_ink)
in_quotes-EndsInk a (w ∷ ws) =
    EndsInk-append (in_quotes a) b',' (b' ' ∷ (in_quotes w ++ printed_rest ws))
      (in_quotes-EndsInk w ws)

trim_nil : trim [] ≡ []
unfolding trim
trim_nil = refl

trim-printed : (ws : List Text) → trim (printed ws) ≡ printed ws
trim-printed [] = trim_nil
trim-printed (w ∷ ws) =
    trim-EndsInk double_quote ((w ++ double_quote ∷ []) ++ printed_rest ws) quote_is_ink
      (in_quotes-EndsInk w ws)

arguments_of-printed : (ws : List Text) → arguments_of (printed ws) ≡ arguments_from 0 (printed ws)
unfolding text_eq
arguments_of-printed [] = refl
arguments_of-printed (w ∷ ws) = refl

-- The arguments of a call of exec, each as strace spells it between quotes and with a comma and a blank
-- between two, are read back as they were, if no comment begins in what is printed.
pub parse_argv_token-printed :
    {args strings : List Text}
    → SpellEach args strings
    → includes (printed strings) (codes "/*") ≡ false
    → parse_argv_token (b'[' ∷ (printed strings ++ b']' ∷ [])) ≡ args
unfolding parse_argv_token
parse_argv_token-printed {args} {strings} each h =
    ap (λ t. arguments_of (trim (remove_comments 0 (trim t))))
      (strip_close-append (printed strings))
    ∙ ap (λ t. arguments_of (trim (remove_comments 0 t))) (trim-printed strings)
    ∙ ap (λ t. arguments_of (trim t)) (remove_comments-keeps (printed strings) h)
    ∙ ap arguments_of (trim-printed strings)
    ∙ arguments_of-printed strings
    ∙ arguments-printed each
