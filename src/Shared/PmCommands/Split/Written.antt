-- ===== src/Shared/PmCommands/Split/Written.antt =====
-- Arguments that are written with quotes are read back.
use script_jail.Base.{
  ℕ, Bool, true, false, List, [], ◌∷◌, ◌++◌, none, some, Text, ◌==◌, ==_self, ◌≡◌, refl, sym, ◌∙◌,
  ap, append_assoc, append-nil, arith,
}
use script_jail.Shared.PmCommands.Flags.{has_unit}
use script_jail.Shared.PmCommands.Split.{
  is_quote, is_gap, SplitState, step_unit, read_units, last_token, split_install_args,
}

-- An argument is written in pieces: a unit outside quotes, or a text between two quotes.
pub data Piece : Type 0 where
  bare : ℕ → Piece
  quoted : ℕ → Text → Piece

abbrev pub IsPiece : Piece → Type 0
IsPiece (bare c) = (is_quote c ≡ false) × (is_gap c ≡ false)
IsPiece (quoted q s) = (is_quote q ≡ true) × (has_unit q s ≡ false)

abbrev pub written : Piece → Text
written (bare c) = c ∷ []
written (quoted q s) = q ∷ (s ++ q ∷ [])

abbrev pub meant : Piece → Text
meant (bare c) = c ∷ []
meant (quoted q s) = s

-- A word is a piece and those that follow it at once.
abbrev pub Word : Type 0
Word = Piece × List Piece

abbrev pub AllPieces : List Piece → Type 0
AllPieces [] = Unit
AllPieces (p ∷ ps) = IsPiece p × AllPieces ps

abbrev pub written_pieces : List Piece → Text
written_pieces [] = []
written_pieces (p ∷ ps) = written p ++ written_pieces ps

abbrev pub meant_pieces : List Piece → Text
meant_pieces [] = []
meant_pieces (p ∷ ps) = meant p ++ meant_pieces ps

-- Between two words, and around them, stand gaps.
abbrev pub IsGaps : Text → Type 0
IsGaps [] = Unit
IsGaps (c ∷ gap) = (is_quote c ≡ false) × (is_gap c ≡ true) × IsGaps gap

-- A line: each word with the gaps behind it, a first unit and others.
abbrev pub written_words : List (Word × ℕ × Text) → Text
written_words [] = []
written_words (((p, ps), c, gap) ∷ words) =
    written_pieces (p ∷ ps) ++ (c ∷ (gap ++ written_words words))

abbrev pub meant_words : List (Word × ℕ × Text) → List Text
meant_words [] = []
meant_words (((p, ps), c, gap) ∷ words) = meant_pieces (p ∷ ps) ∷ meant_words words

abbrev pub AreWords : List (Word × ℕ × Text) → Type 0
AreWords [] = Unit
AreWords (((p, ps), c, gap) ∷ words) = AllPieces (p ∷ ps) × IsGaps (c ∷ gap) × AreWords words

read_units-append :
    (s rest : Text) (st : SplitState)
    → read_units (s ++ rest) st ≡ read_units rest (read_units s st)
read_units-append [] rest st = unfold read_units in refl
read_units-append (c ∷ s) rest st = cons c s rest st (read_units-append s rest)
  where
    cons :
        (c : ℕ) (s rest : Text) (st : SplitState)
        → ((st' : SplitState) → read_units (s ++ rest) st' ≡ read_units rest (read_units s st'))
        → read_units (c ∷ (s ++ rest)) st ≡ read_units rest (read_units (c ∷ s) st)
    cons c s rest st ih = unfold read_units in ih (step_unit st.quote st c)

-- Outside quotes.
abbrev plain : List Text → Text → Bool → SplitState
plain out cur started = record { out = out; cur = cur; quote = none; started = started }

abbrev inside : ℕ → List Text → Text → SplitState
inside q out cur = record { out = out; cur = cur; quote = some q; started = true }

read_cons :
    (c : ℕ) (raw : Text) (st : SplitState)
    → read_units (c ∷ raw) st ≡ read_units raw (step_unit st.quote st c)
unfolding read_units
read_cons c raw st = refl

read_nil : (st : SplitState) → read_units [] st ≡ st
unfolding read_units
read_nil st = refl

has_unit_cons :
    (q c : ℕ) (s : Text) → has_unit q (c ∷ s) ≡ false → (c == q ≡ false) × (has_unit q s ≡ false)
unfolding has_unit
has_unit_cons q c s h = ground arith

read-inside :
    (q : ℕ) (s : Text) (out : List Text) (cur : Text)
    → has_unit q s ≡ false
    → read_units (s ++ q ∷ []) (inside q out cur) ≡ plain out (cur ++ s) true
read-inside q [] out cur h =
    read_cons q [] (inside q out cur)
    ∙ (rw (==_self q)
        (read_nil (plain out cur true) ∙ ap (λ t. plain out t true) (sym (append-nil cur))))
read-inside q (c ∷ s) out cur h =
    let (here, later) = has_unit_cons q c s h in
    read_cons c (s ++ q ∷ []) (inside q out cur)
    ∙ (rw here (read-inside q s out (cur ++ c ∷ []) later))
    ∙ ap (λ t. plain out t true) (append_assoc cur (c ∷ []) s)

read-piece :
    (p : Piece) (out : List Text) (cur : Text) (started : Bool)
    → IsPiece p
    → read_units (written p) (plain out cur started) ≡ plain out (cur ++ meant p) true
read-piece (bare c) out cur started (q, g) =
    read_cons c [] (plain out cur started) ∙ (rw (q, g) (read_nil (plain out (cur ++ c ∷ []) true)))
read-piece (quoted q s) out cur started (h, k) =
    read_cons q (s ++ q ∷ []) (plain out cur started) ∙ (rw h (read-inside q s out cur k))

read-pieces :
    (ps : List Piece) (out : List Text) (cur : Text)
    → AllPieces ps
    → read_units (written_pieces ps) (plain out cur true) ≡ plain out (cur ++ meant_pieces ps) true
read-pieces [] out cur _ =
    read_nil (plain out cur true) ∙ ap (λ t. plain out t true) (sym (append-nil cur))
read-pieces (p ∷ ps) out cur (h, hs) =
    read_units-append (written p) (written_pieces ps) (plain out cur true)
    ∙ ap (read_units (written_pieces ps)) (read-piece p out cur true h)
    ∙ read-pieces ps out (cur ++ meant p) hs
    ∙ ap (λ t. plain out t true) (append_assoc cur (meant p) (meant_pieces ps))

read-word :
    (p : Piece) (ps : List Piece) (out : List Text)
    → AllPieces (p ∷ ps)
    → read_units (written_pieces (p ∷ ps)) (plain out [] false)
      ≡ plain out (meant_pieces (p ∷ ps)) true
read-word p ps out (h, hs) =
    read_units-append (written p) (written_pieces ps) (plain out [] false)
    ∙ ap (read_units (written_pieces ps)) (read-piece p out [] false h)
    ∙ read-pieces ps out (meant p) hs

read-gaps :
    (gap : Text) (out : List Text)
    → IsGaps gap
    → read_units gap (plain out [] false) ≡ plain out [] false
read-gaps [] out _ = read_nil (plain out [] false)
read-gaps (c ∷ gap) out (q, g, hs) =
    read_cons c gap (plain out [] false) ∙ (rw (q, g) (read-gaps gap out hs))

read-words :
    (words : List (Word × ℕ × Text)) (out : List Text)
    → AreWords words
    → read_units (written_words words) (plain out [] false)
      ≡ plain (out ++ meant_words words) [] false
read-words [] out _ =
    read_nil (plain out [] false) ∙ ap (λ o. plain o [] false) (sym (append-nil out))
read-words (((p, ps), c, gap) ∷ words) out (h, (q, g, hs), k) =
    read_units-append (written_pieces (p ∷ ps)) (c ∷ (gap ++ written_words words))
      (plain out [] false)
    ∙ ap (read_units (c ∷ (gap ++ written_words words))) (read-word p ps out h)
    ∙ read_cons c (gap ++ written_words words) (plain out (meant_pieces (p ∷ ps)) true)
    ∙ (rw (q, g)
        (read_units-append gap (written_words words)
            (plain (out ++ meant_pieces (p ∷ ps) ∷ []) [] false)
          ∙ ap (read_units (written_words words))
              (read-gaps gap (out ++ meant_pieces (p ∷ ps) ∷ []) hs)
          ∙ read-words words (out ++ meant_pieces (p ∷ ps) ∷ []) k))
    ∙ ap (λ o. plain o [] false) (append_assoc out (meant_pieces (p ∷ ps) ∷ []) (meant_words words))

-- The last word, which no gap need follow; no piece is no word.
abbrev pub last_meant : List Piece → List Text
last_meant [] = []
last_meant (p ∷ ps) = meant_pieces (p ∷ ps) ∷ []

last_token-read :
    (ps : List Piece) (out : List Text)
    → AllPieces ps
    → last_token (read_units (written_pieces ps) (plain out [] false)) ≡ out ++ last_meant ps
last_token-read [] out _ = ap last_token (read_nil (plain out [] false)) ∙ sym (append-nil out)
last_token-read (p ∷ ps) out h = ap last_token (read-word p ps out h)

-- Arguments that are written as words are read back: units as they are or texts in either quote, next
-- to each other within a word, and gaps of any length between the words and around them.
pub split_install_args-written :
    (gap : Text) (words : List (Word × ℕ × Text)) (last : List Piece)
    → IsGaps gap
    → AreWords words
    → AllPieces last
    → split_install_args (gap ++ (written_words words ++ written_pieces last))
      ≡ meant_words words ++ last_meant last
unfolding split_install_args
split_install_args-written gap words last g w l =
    ap last_token (
      read_units-append gap (written_words words ++ written_pieces last) (plain [] [] false)
      ∙ ap (read_units (written_words words ++ written_pieces last)) (read-gaps gap [] g)
      ∙ read_units-append (written_words words) (written_pieces last) (plain [] [] false)
      ∙ ap (read_units (written_pieces last)) (read-words words [] w))
    ∙ last_token-read last (meant_words words) l
