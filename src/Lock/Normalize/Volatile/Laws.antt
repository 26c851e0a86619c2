-- ===== src/Lock/Normalize/Volatile/Laws.antt =====
-- `normalizeVolatilePath` leaves the front of a path.
use script_jail.Base.{
  true, false, ◌||◌, [], ◌∷◌, ◌++◌, ℕ, ◌≤◌, ◌<◌, Option, none, some, Text, codes, length, ends_with,
  starts_with, text_eq, eq_of_text_eq, ◌≡◌, refl, sym, ap, ◌∙◌, subst, arith, Bool-cases,
  Option-cases, inl, inr, or-eq-true, append_assoc,
}
use script_jail.Lock.Normalize.Volatile.{
  debug_log_at, is_npm_debug_log_dir, debug_log_text, find_debug_log, rename_log,
  normalize_volatile_path,
}

cons_missed :
    (seen : Text) (c : ℕ) (s : Text)
    → debug_log_at (c ∷ s) ≡ none
    → find_debug_log seen (c ∷ s) ≡ find_debug_log (seen ++ c ∷ []) s
unfolding find_debug_log
cons_missed seen c s h = rw h

cons_hit :
    (seen : Text) (c : ℕ) (s digits : Text)
    → debug_log_at (c ∷ s) ≡ some digits
    → find_debug_log seen (c ∷ s) ≡ some (seen, digits)
unfolding find_debug_log
cons_hit seen c s digits h = rw h

rename_at :
    (path : Text) (o : Option (Text × Text))
    → find_debug_log [] path ≡ o
    → normalize_volatile_path path ≡ rename_log path o
unfolding normalize_volatile_path
rename_at path o h = ap (rename_log path) h

starts_nil : (s : Text) → starts_with s [] ≡ true
unfolding starts_with
starts_nil [] = refl
starts_nil (c ∷ s) = refl

-- The first match splits the text that is searched.
find_debug_log_split :
    (seen s prefix digits : Text)
    → find_debug_log seen s ≡ some (prefix, digits)
    → (rest : Text) × (seen ++ s ≡ prefix ++ rest)
find_debug_log_split seen [] prefix digits h =
    let no : find_debug_log seen [] ≡ none = unfold find_debug_log in refl in absurd (cc)
find_debug_log_split seen (c ∷ s) prefix digits h = elim (Option-cases (debug_log_at (c ∷ s))) [
  | inl missed ↦
      let later : find_debug_log (seen ++ c ∷ []) s ≡ some (prefix, digits) =
        sym (cons_missed seen c s missed) ∙ h in
      let (rest, split) = find_debug_log_split (seen ++ c ∷ []) s prefix digits later in
      (rest, sym (append_assoc seen (c ∷ []) s) ∙ split)
  | inr (found, hit) ↦
      let here : ◌≡◌ {A = Option (Text × Text)} (some (seen, found)) (some (prefix, digits)) =
        sym (cons_hit seen c s found hit) ∙ h in
      let same : seen ≡ prefix = cc in (c ∷ s, ap (λ p. p ++ c ∷ s) same)
]

length-ends_with : (s t : Text) → ends_with s t ≡ true → length t ≤ length s
unfolding ends_with text_eq
length-ends_with [] [] h = omega arith
length-ends_with [] (b ∷ t) h = cc
length-ends_with (a ∷ s) t h = elim (or-eq-true (text_eq (a ∷ s) t) (ends_with s t) h) [
  | inl e ↦ omega (arith, ap length (eq_of_text_eq (a ∷ s) t e))
  | inr e ↦ omega (arith, length-ends_with s t e)
]

-- The directory of the debug logs is long.
log_dir_long : (prefix : Text) → is_npm_debug_log_dir prefix ≡ true → 12 ≤ length prefix
unfolding is_npm_debug_log_dir
log_dir_long prefix h =
    let a = codes "/.npm/_logs/" in
    let b = codes "$HOME/.npm/_logs/" in
    let c = codes "$CACHE/_logs/" in
    elim (or-eq-true (ends_with prefix a || ends_with prefix b) (ends_with prefix c) h) [
      | inr e ↦ omega (arith, length-ends_with prefix c e)
      | inl more ↦ elim (or-eq-true (ends_with prefix a) (ends_with prefix b) more) [
        | inl e ↦ length-ends_with prefix a e
        | inr e ↦ omega (arith, length-ends_with prefix b e)
      ]
    ]

starts_with-front :
    (p x y q : Text) → length q ≤ length p → starts_with (p ++ x) q ≡ starts_with (p ++ y) q
unfolding starts_with
starts_with-front p x y [] h = starts_nil (p ++ x) ∙ sym (starts_nil (p ++ y))
starts_with-front [] x y (b ∷ q) h = elim h [ ]
starts_with-front (a ∷ p) x y (b ∷ q) h = rw (starts_with-front p x y q (omega arith))

text_eq-longer : (p x q : Text) → length q < length p → text_eq (p ++ x) q ≡ false
unfolding text_eq
text_eq-longer [] x q h = elim h [ ]
text_eq-longer (a ∷ p) x [] h = refl
text_eq-longer (a ∷ p) x (b ∷ q) h = ground (arith, text_eq-longer p x q)

-- A path is left, or it is a long directory and a name, and the name is changed.
pub data Renamed (path : Text) : Text → Type 0 where
  left : Renamed path path
  renamed :
      (prefix name name' : Text)
      → path ≡ prefix ++ name
      → 12 ≤ length prefix
      → Renamed path (prefix ++ name')

pub normalize_volatile_path-Renamed : (path : Text) → Renamed path (normalize_volatile_path path)
normalize_volatile_path-Renamed path = elim (Option-cases (find_debug_log [] path)) [
  | inl missed ↦ subst (Renamed path) (sym (rename_at path none missed)) left
  | inr ((prefix, digits), found) ↦ elim (Bool-cases (is_npm_debug_log_dir prefix)) [
    | inl dir ↦
        let (rest, split) = find_debug_log_split [] path prefix digits found in
        let same : normalize_volatile_path path ≡ debug_log_text prefix digits =
          rename_at path (some (prefix, digits)) found ∙ rw dir in
        subst (Renamed path) (sym same) (
          unfold debug_log_text in
          renamed prefix rest (codes "<timestamp>-debug-" ++ (digits ++ codes ".log")) split
            (log_dir_long prefix dir))
    | inr other ↦
        let same : normalize_volatile_path path ≡ path =
          rename_at path (some (prefix, digits)) found ∙ rw other in
        subst (Renamed path) (sym same) left
  ]
]

pub starts_with-Renamed :
    (path path' q : Text)
    → length q ≤ 12
    → Renamed path path'
    → starts_with path' q ≡ starts_with path q
starts_with-Renamed path path' q h left = refl
starts_with-Renamed path path' q h (renamed prefix name name' split long) =
    starts_with-front prefix name' name q (omega arith) ∙ ap (λ s. starts_with s q) (sym split)

pub text_eq-Renamed :
    (path path' q : Text) → length q < 12 → Renamed path path' → text_eq path' q ≡ text_eq path q
text_eq-Renamed path path' q h left = refl
text_eq-Renamed path path' q h (renamed prefix name name' split long) =
    text_eq-longer prefix name' q (omega arith)
    ∙ sym (ap (λ s. text_eq s q) split ∙ text_eq-longer prefix name q (omega arith))
