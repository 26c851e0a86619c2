-- ===== src/Lock/Tokenize/Collapse/Runs.antt =====
-- The scans of `collapseUnstable`: a scan starts anew behind a unit that is no word unit, and a
-- temporary suffix holds no slash.
use script_jail.Base.{
  true, false, not, ◌&&◌, [], ◌∷◌, ◌++◌, ℕ, ◌≤◌, Text, codes, length, all, leb, if◌then◌else◌, ◌≡◌,
  refl, ◌∙◌, arith, All, All-of_all, starts_with, append_assoc, append-nil, Bool-cases, inl, inr,
}
use script_jail.Lock.Tokenize.Collapse.{
  hash_mark, is_word, is_camel, flush, collapse_runs, temp_rest, is_temp_suffix, collapse_temp,
  collapse_launcher, collapse_unstable, is_alnum,
}

abbrev pub IsWord : Text → Type 0
IsWord = All (λ c. is_word c ≡ true)

-- A name of sixteen or more word units that is no word in camel case.
abbrev pub IsHash : Text → Type 0
IsHash h = (all is_word h ≡ true) × (16 ≤ length h) × (is_camel h ≡ false)

pub flush_of_IsHash : (h : Text) → IsHash h → flush h ≡ hash_mark
unfolding flush
flush_of_IsHash h (_, long, other) = ground arith

-- A run of word units is read whole.
pub collapse_runs_of_IsWord : (run h : Text) → IsWord h → collapse_runs run h ≡ flush (run ++ h)
unfolding collapse_runs
collapse_runs_of_IsWord run [] _ = rw append-nil
collapse_runs_of_IsWord run (c ∷ h) (w, ws) =
    rw (w, collapse_runs_of_IsWord (run ++ c ∷ []) h ws, append_assoc)

-- At a unit that is no word unit the scan starts anew.
pub collapse_runs-append :
    (run s t : Text) (c : ℕ)
    → is_word c ≡ false
    → collapse_runs run (s ++ c ∷ t) ≡ collapse_runs run s ++ c ∷ collapse_runs [] t
unfolding collapse_runs
collapse_runs-append run [] t c e = rw e
collapse_runs-append run (d ∷ s) t c e = elim (Bool-cases (is_word d)) [
  | inl w ↦ rw w (collapse_runs-append (run ++ d ∷ []) s t c e)
  | inr w ↦ rw (w, collapse_runs-append [] s t c e, append_assoc)
]

flush_stable : (run : Text) → IsWord run → collapse_runs [] (flush run) ≡ flush run
unfolding flush is_word
flush_stable run w = elim (Bool-cases (leb 16 (length run) && not (is_camel run))) [
  | inl e ↦ rw e (unfold collapse_runs is_camel in refl)
  | inr e ↦ rw e (collapse_runs_of_IsWord [] run w ∙ rw e)
]

IsWord-append : (run : Text) (c : ℕ) → IsWord run → is_word c ≡ true → IsWord (run ++ c ∷ [])
IsWord-append [] c _ w = (w, tt)
IsWord-append (d ∷ run) c (v, vs) w = (v, IsWord-append run c vs w)

collapse_runs_stable :
    (run s : Text) → IsWord run → collapse_runs [] (collapse_runs run s) ≡ collapse_runs run s
unfolding collapse_runs
collapse_runs_stable run [] w = unfold collapse_runs in flush_stable run w
collapse_runs_stable run (c ∷ s) w = elim (Bool-cases (is_word c)) [
  | inl e ↦ rw e (collapse_runs_stable (run ++ c ∷ []) s (IsWord-append run c w e))
  | inr e ↦ rw (
    e,
    collapse_runs-append [] (flush run) (collapse_runs [] s) c e,
    flush_stable run w,
    collapse_runs_stable [] s tt,
  )
]

all_alnum-slash : (a p : Text) → all is_alnum (a ++ b'/' ∷ p) ≡ false
all_alnum-slash [] p = refl
all_alnum-slash (c ∷ a) p = ground (arith, all_alnum-slash a p)

temp_rest-slash : (a p : Text) → temp_rest (a ++ b'/' ∷ p) ≡ false
unfolding temp_rest
temp_rest-slash [] [] = refl
temp_rest-slash [] (d ∷ p) = refl
temp_rest-slash (c ∷ []) p = ground arith
temp_rest-slash (c ∷ d ∷ a) p = ground (arith, all_alnum-slash a p)

-- A temporary suffix holds no slash.
is_temp_suffix-slash : (a p : Text) → is_temp_suffix (a ++ b'/' ∷ p) ≡ false
unfolding is_temp_suffix
is_temp_suffix-slash [] p = refl
is_temp_suffix-slash (w ∷ []) p = ground arith
is_temp_suffix-slash (w ∷ x ∷ []) p = ground arith
is_temp_suffix-slash (w ∷ x ∷ y ∷ []) p = ground arith
is_temp_suffix-slash (w ∷ x ∷ y ∷ z ∷ a) p = ground (arith, temp_rest-slash a p)

collapse_temp_cons :
    (c : ℕ) (s : Text)
    → collapse_temp (c ∷ s)
      ≡ (if is_temp_suffix (c ∷ s) then codes ".tmp<hash>" else c ∷ collapse_temp s)
unfolding collapse_temp
collapse_temp_cons c s = refl

-- Only what follows the last slash can lose a temporary suffix.
pub collapse_temp-slash : (a p : Text) → collapse_temp (a ++ b'/' ∷ p) ≡ a ++ b'/' ∷ collapse_temp p
collapse_temp-slash [] p = rw (collapse_temp_cons b'/' p, is_temp_suffix-slash [] p)
collapse_temp-slash (c ∷ a) p =
    rw (
      collapse_temp_cons c (a ++ b'/' ∷ p),
      is_temp_suffix-slash (c ∷ a) p,
      collapse_temp-slash a p,
    )

-- A temporary suffix does not begin with a word unit.
is_temp_suffix-word : (c : ℕ) (s : Text) → is_word c ≡ true → is_temp_suffix (c ∷ s) ≡ false
unfolding is_temp_suffix is_word starts_with
is_temp_suffix-word c s h = ground arith

pub collapse_temp-word :
    (h rest : Text) → IsWord h → collapse_temp (h ++ rest) ≡ h ++ collapse_temp rest
collapse_temp-word [] rest _ = refl
collapse_temp-word (c ∷ h) rest (w, ws) = rw (
  collapse_temp_cons c (h ++ rest),
  is_temp_suffix-word c (h ++ rest) w,
  collapse_temp-word h rest ws,
)

-- What follows a name that is read whole: nothing, or a unit that is no word unit.
abbrev pub EndsWord : Text → Type 0
EndsWord [] = Unit
EndsWord (c ∷ s) = is_word c ≡ false

pub collapse_temp-EndsWord : (rest : Text) → EndsWord rest → EndsWord (collapse_temp rest)
collapse_temp-EndsWord [] _ = unfold collapse_temp in tt
collapse_temp-EndsWord (c ∷ s) h = elim (Bool-cases (is_temp_suffix (c ∷ s))) [
  | inl e ↦ rw (collapse_temp_cons c s, e) (unfold is_word in refl)
  | inr e ↦ rw (collapse_temp_cons c s, e) h
]

-- A hash that is read whole is replaced by the mark.
pub collapse_runs-hash :
    (h rest : Text)
    → IsHash h
    → EndsWord rest
    → collapse_runs [] (h ++ rest) ≡ hash_mark ++ collapse_runs [] rest
unfolding collapse_runs
collapse_runs-hash h [] hash _ =
    rw
      (
        append-nil,
        collapse_runs_of_IsWord [] h (All-of_all is_word h hash.0),
        flush_of_IsHash h hash,
      )
      (unfold flush in refl)
collapse_runs-hash h (c ∷ s) hash e = rw (
  collapse_runs-append [] h s c e,
  collapse_runs_of_IsWord [] h (All-of_all is_word h hash.0),
  flush_of_IsHash h hash,
  collapse_runs-append [] [] s c e,
)

pub collapse_unstable_lem :
    (p : Text) → collapse_unstable p ≡ collapse_runs [] (collapse_launcher (collapse_temp p))
unfolding collapse_unstable
collapse_unstable_lem p = refl

pub slash_not_word : is_word b'/' ≡ false
unfolding is_word
slash_not_word = refl

-- Nothing that the scan for hashes leaves is collapsed by a second scan.
pub collapse_runs_idem : (s : Text) → collapse_runs [] (collapse_runs [] s) ≡ collapse_runs [] s
collapse_runs_idem s = collapse_runs_stable [] s tt
