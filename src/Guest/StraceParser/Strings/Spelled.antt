-- ===== src/Guest/StraceParser/Strings/Spelled.antt =====
-- A string that strace has written is read back.
use Prim.Native.Nat.{◌*◌}
use script_jail.Base.{
  ℕ, zero, suc, ◌+◌, false, [], ◌∷◌, ◌++◌, Option, none, some, Text, ◌==◌, length, ◌≡◌, refl, ◌∙◌,
  ap, arith,
}
use script_jail.Guest.StraceParser.Strings.{
  backslash, double_quote, letter_escape, octal_digit, hex_digit, read_digits, numeric, escape,
  unescape_from, unescape, with_unit, body, skip_dots, unescape_body, extract_quoted_string,
}

-- No octal digit stands in front.
abbrev pub IsCut : Text → Type 0
IsCut [] = Unit
IsCut (c ∷ s) = octal_digit c ≡ none

-- How strace spells a text: a unit as it is, an escape of a letter, one of three octal digits or of
-- fewer where no digit follows, or one of two hexadecimal digits.
pub data Spells : Text → Text → Type 0 where
  end : Spells [] []
  plain :
      {meant written : Text} (c : ℕ)
      → (c == backslash) ≡ false
      → (c == double_quote) ≡ false
      → Spells meant written
      → Spells (c ∷ meant) (c ∷ written)
  letter :
      {meant written : Text} (e unit : ℕ)
      → letter_escape e ≡ some unit
      → Spells meant written
      → Spells (unit ∷ meant) (backslash ∷ e ∷ written)
  octal_one :
      {meant written : Text} (x d : ℕ)
      → octal_digit x ≡ some d
      → IsCut written
      → Spells meant written
      → Spells (d ∷ meant) (backslash ∷ x ∷ written)
  octal_two :
      {meant written : Text} (x y d e : ℕ)
      → octal_digit x ≡ some d
      → octal_digit y ≡ some e
      → IsCut written
      → Spells meant written
      → Spells ((d * 8 + e) ∷ meant) (backslash ∷ x ∷ y ∷ written)
  octal_three :
      {meant written : Text} (x y z d e f : ℕ)
      → octal_digit x ≡ some d
      → octal_digit y ≡ some e
      → octal_digit z ≡ some f
      → Spells meant written
      → Spells (((d * 8 + e) * 8 + f) ∷ meant) (backslash ∷ x ∷ y ∷ z ∷ written)
  hex_two :
      {meant written : Text} (x y d e : ℕ)
      → hex_digit x ≡ some d
      → hex_digit y ≡ some e
      → Spells meant written
      → Spells ((d * 16 + e) ∷ meant) (backslash ∷ b'x' ∷ x ∷ y ∷ written)

octal_is_no_letter : (x d : ℕ) → octal_digit x ≡ some d → letter_escape x ≡ none
unfolding octal_digit letter_escape
octal_is_no_letter x d h = ground arith

octal_is_plain :
    (x d : ℕ)
    → octal_digit x ≡ some d
    → ((x == b'x') ≡ false) × ((x == backslash) ≡ false) × ((x == double_quote) ≡ false)
unfolding octal_digit
octal_is_plain x d h = ground arith

hex_is_plain :
    (x d : ℕ) → hex_digit x ≡ some d → ((x == backslash) ≡ false) × ((x == double_quote) ≡ false)
unfolding hex_digit
hex_is_plain x d h = ground arith

read_cut_zero :
    (digit : ℕ → Option ℕ) (base value count : ℕ) (s : Text)
    → read_digits digit base 0 value count s ≡ (value, count)
unfolding read_digits
read_cut_zero digit base value count s = refl

read_cut :
    (more value count : ℕ) (s : Text)
    → IsCut s
    → read_digits octal_digit 8 more value count s ≡ (value, count)
unfolding read_digits
read_cut zero value count s h = refl
read_cut (suc more) value count [] h = refl
read_cut (suc more) value count (c ∷ s) h = rw h refl

read_cons :
    (digit : ℕ → Option ℕ) (base more value count c d : ℕ) (s : Text)
    → digit c ≡ some d
    → read_digits digit base (suc more) value count (c ∷ s)
      ≡ read_digits digit base more (value * base + d) (suc count) s
unfolding read_digits
read_cons digit base more value count c d s h = rw h refl

read_first :
    (digit : ℕ → Option ℕ) (base more c d : ℕ) (s : Text)
    → digit c ≡ some d
    → read_digits digit base (suc more) 0 0 (c ∷ s) ≡ read_digits digit base more d 1 s
read_first digit base more c d s h =
    let same : 0 * base + d ≡ d = omega arith in
    read_cons digit base more 0 0 c d s h ∙ ap (λ v. read_digits digit base more v 1 s) same

escape-letter :
    (e unit : ℕ) (s : Text) → letter_escape e ≡ some unit → escape (e ∷ s) ≡ some (unit, 1)
unfolding escape
escape-letter e unit s h = rw h refl

escape-octal :
    (x d : ℕ) (s : Text)
    → octal_digit x ≡ some d
    → escape (x ∷ s) ≡ numeric 0 (read_digits octal_digit 8 3 0 0 (x ∷ s))
unfolding escape
escape-octal x d s h = rw (octal_is_no_letter x d h, (octal_is_plain x d h).0) refl

escape-hex : (s : Text) → escape (b'x' ∷ s) ≡ numeric 1 (read_digits hex_digit 16 2 0 0 s)
unfolding escape
escape-hex s = refl

unescape-at :
    (s : Text) (unit length : ℕ)
    → escape s ≡ some (unit, length)
    → unescape (backslash ∷ s) ≡ unit ∷ unescape_from length s
unfolding unescape_from
unescape-at s unit length h = rw h refl

unescape_plain : (c : ℕ) (s : Text) → (c == backslash) ≡ false → unescape (c ∷ s) ≡ c ∷ unescape s
unfolding unescape_from
unescape_plain c s h = rw h refl

skip_one : (c : ℕ) (k : ℕ) (s : Text) → unescape_from (suc k) (c ∷ s) ≡ unescape_from k s
unfolding unescape_from
skip_one c k s = refl

pub unescape-Spells : {meant written : Text} → Spells meant written → unescape written ≡ meant
unescape-Spells Spells.end = unfold unescape_from in refl
unescape-Spells (Spells.plain {written = w} c b q s) =
    unescape_plain c w b ∙ ap (λ t. c ∷ t) (unescape-Spells s)
unescape-Spells (Spells.letter {written = w} e unit h s) =
    unescape-at (e ∷ w) unit 1 (escape-letter e unit w h)
    ∙ ap (λ t. unit ∷ t) (skip_one e 0 w ∙ unescape-Spells s)
unescape-Spells (Spells.octal_one {written = w} x d h cut s) =
    unescape-at (x ∷ w) d 1 (
      escape-octal x d w h
      ∙ ap (numeric 0) (read_first octal_digit 8 2 x d w h ∙ read_cut 2 d 1 w cut))
    ∙ ap (λ t. d ∷ t) (skip_one x 0 w ∙ unescape-Spells s)
unescape-Spells (Spells.octal_two {written = w} x y d e h k cut s) =
    unescape-at (x ∷ y ∷ w) (d * 8 + e) 2 (
      escape-octal x d (y ∷ w) h
      ∙ ap (numeric 0) (
          read_first octal_digit 8 2 x d (y ∷ w) h
          ∙ read_cons octal_digit 8 1 d 1 y e w k
          ∙ read_cut 1 (d * 8 + e) 2 w cut))
    ∙ ap (λ t. (d * 8 + e) ∷ t) (skip_one x 1 (y ∷ w) ∙ skip_one y 0 w ∙ unescape-Spells s)
unescape-Spells (Spells.octal_three {written = w} x y z d e f h k l s) =
    unescape-at (x ∷ y ∷ z ∷ w) ((d * 8 + e) * 8 + f) 3 (
      escape-octal x d (y ∷ z ∷ w) h
      ∙ ap (numeric 0) (
          read_first octal_digit 8 2 x d (y ∷ z ∷ w) h
          ∙ read_cons octal_digit 8 1 d 1 y e (z ∷ w) k
          ∙ read_cons octal_digit 8 0 (d * 8 + e) 2 z f w l
          ∙ read_cut_zero octal_digit 8 ((d * 8 + e) * 8 + f) 3 w))
    ∙ ap (λ t. ((d * 8 + e) * 8 + f) ∷ t)
        (skip_one x 2 (y ∷ z ∷ w) ∙ skip_one y 1 (z ∷ w) ∙ skip_one z 0 w ∙ unescape-Spells s)
unescape-Spells (Spells.hex_two {written = w} x y d e h k s) =
    unescape-at (b'x' ∷ x ∷ y ∷ w) (d * 16 + e) 3 (
      escape-hex (x ∷ y ∷ w)
      ∙ ap (numeric 1) (
          read_first hex_digit 16 1 x d (y ∷ w) h
          ∙ read_cons hex_digit 16 0 d 1 y e w k
          ∙ read_cut_zero hex_digit 16 (d * 16 + e) 2 w))
    ∙ ap (λ t. (d * 16 + e) ∷ t)
        (skip_one b'x' 2 (x ∷ y ∷ w) ∙ skip_one x 1 (y ∷ w) ∙ skip_one y 0 w ∙ unescape-Spells s)

body_plain :
    (c : ℕ) (s : Text)
    → (c == backslash) ≡ false
    → (c == double_quote) ≡ false
    → body false (c ∷ s) ≡ with_unit c (body false s)
unfolding body
body_plain c s b q = rw (b, q) refl

body_escaped :
    (c : ℕ) (s : Text)
    → body false (backslash ∷ c ∷ s) ≡ with_unit backslash (with_unit c (body false s))
unfolding body
body_escaped c s = refl

body_close : (s : Text) → body false (double_quote ∷ s) ≡ some ([], s)
unfolding body
body_close s = refl

module _ (rest : Text) where
  -- The body ends where it was written to.
  abbrev EndsAt : Text → Type 0
  EndsAt written = body false (written ++ double_quote ∷ rest) ≡ some (written, rest)

  ends_plain :
      (c : ℕ) (s : Text)
      → (c == backslash) ≡ false
      → (c == double_quote) ≡ false
      → EndsAt s
      → EndsAt (c ∷ s)
  ends_plain c s b q h = body_plain c (s ++ double_quote ∷ rest) b q ∙ ap (with_unit c) h

  ends_escaped : (c : ℕ) (s : Text) → EndsAt s → EndsAt (backslash ∷ c ∷ s)
  ends_escaped c s h =
      body_escaped c (s ++ double_quote ∷ rest) ∙ ap (λ b. with_unit backslash (with_unit c b)) h

  body-Spells : {meant written : Text} → Spells meant written → EndsAt written
  body-Spells Spells.end = body_close rest
  body-Spells (Spells.plain {written = w} c b q s) = ends_plain c w b q (body-Spells s)
  body-Spells (Spells.letter {written = w} e unit h s) = ends_escaped e w (body-Spells s)
  body-Spells (Spells.octal_one {written = w} x d h cut s) = ends_escaped x w (body-Spells s)
  body-Spells (Spells.octal_two {written = w} x y d e h k cut s) =
      let (no_x, b, q) = octal_is_plain y e k in
      ends_escaped x (y ∷ w) (ends_plain y w b q (body-Spells s))
  body-Spells (Spells.octal_three {written = w} x y z d e f h k l s) =
      let (no_x, b, q) = octal_is_plain y e k in
      let (no_x', b', q') = octal_is_plain z f l in
      ends_escaped x (y ∷ z ∷ w) (ends_plain y (z ∷ w) b q (ends_plain z w b' q' (body-Spells s)))
  body-Spells (Spells.hex_two {written = w} x y d e h k s) =
      let (b, q) = hex_is_plain x d h in
      let (b', q') = hex_is_plain y e k in
      ends_escaped b'x' (x ∷ y ∷ w)
        (ends_plain x (y ∷ w) b q (ends_plain y w b' q' (body-Spells s)))

  -- A text that strace has written between two quotes is read back as it was, and what follows the
  -- quotes, less the dots of a truncated string, is left.
  pub extract_quoted_string-Spells :
      {meant written : Text}
      → Spells meant written
      → extract_quoted_string (double_quote ∷ (written ++ double_quote ∷ rest))
        ≡ some (meant, skip_dots rest)
  unfolding extract_quoted_string
  extract_quoted_string-Spells s =
      ap unescape_body (body-Spells s) ∙ ap (λ t. some (t, skip_dots rest)) (unescape-Spells s)
