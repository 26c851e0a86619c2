-- ===== src/Action/Diff/Drift/Steps.antt =====
-- One step of `canonicalize_from`, and how the canonical texts of two lines differ.
use script_jail.Base.{
  true, false, [], ◌∷◌, ◌++◌, ℕ, none, some, Text, codes, starts_with, starts_with-append, any, ◌≡◌,
  ◌≢◌, refl, sym, ap, ◌∙◌, subst, arith, inl, inr, Option-cases,
}
use script_jail.Lock.Normalize.Wrappers.{is_line_end}
use script_jail.Action.Diff.Drift.{
  LineState, at_start, in_line, in_value, volatile_key, after_unit, emitted, next_state,
  canonicalize_from,
}
use script_jail.Action.Diff.Drift.Keys.{generated, sha, key-cases, no_key-IsPlain}

pub canonicalize_cons :
    (state : LineState) (c : ℕ) (s : Text)
    → canonicalize_from state (c ∷ s)
      ≡ emitted state c s ++ canonicalize_from (next_state state c s) s
unfolding canonicalize_from
canonicalize_cons state c s = refl

pub start_none :
    (c : ℕ) (s : Text)
    → volatile_key (c ∷ s) ≡ none
    → canonicalize_from at_start (c ∷ s) ≡ c ∷ canonicalize_from (after_unit c) s
start_none c s h = canonicalize_cons at_start c s ∙ unfold emitted next_state in rw h refl

pub start_some :
    (c : ℕ) (s key : Text)
    → volatile_key (c ∷ s) ≡ some key
    → canonicalize_from at_start (c ∷ s)
      ≡ (key ++ codes ": <canonicalized>") ++ canonicalize_from in_value s
start_some c s key h = canonicalize_cons at_start c s ∙ unfold emitted next_state in rw h refl

pub line_cons :
    (c : ℕ) (s : Text) → canonicalize_from in_line (c ∷ s) ≡ c ∷ canonicalize_from (after_unit c) s
line_cons c s = canonicalize_cons in_line c s ∙ unfold emitted next_state in refl

pub value_end :
    (c : ℕ) (s : Text)
    → is_line_end c ≡ true
    → canonicalize_from in_value (c ∷ s) ≡ c ∷ canonicalize_from at_start s
value_end c s h = canonicalize_cons in_value c s ∙ unfold emitted next_state in rw h refl

pub value_skip :
    (c : ℕ) (s : Text)
    → is_line_end c ≡ false
    → canonicalize_from in_value (c ∷ s) ≡ canonicalize_from in_value s
value_skip c s h = canonicalize_cons in_value c s ∙ unfold emitted next_state in rw h refl

starts_cons :
    (c x : ℕ) (s p : Text) → starts_with (c ∷ s) (x ∷ p) ≡ true → (c ≡ x) × (starts_with s p ≡ true)
unfolding starts_with
starts_cons c x s p h = (ground arith, ground arith)

cons_starts : (c : ℕ) (s p : Text) → starts_with s p ≡ true → starts_with (c ∷ s) (c ∷ p) ≡ true
unfolding starts_with
cons_starts c s p h = ground arith

nothing_starts :
    (state : LineState) (x : ℕ) (p : Text)
    → starts_with (canonicalize_from state []) (x ∷ p) ≡ false
unfolding canonicalize_from starts_with
nothing_starts state x p = refl

in_line_after : (c : ℕ) → is_line_end c ≡ false → after_unit c ≡ in_line
in_line_after c h = rw h refl

-- What the rest of a line begins with, the line began with.
line_prefix :
    (p s : Text)
    → any is_line_end p ≡ false
    → starts_with (canonicalize_from in_line s) p ≡ true
    → starts_with s p ≡ true
line_prefix [] s n h = unfold starts_with in refl
line_prefix (x ∷ p) [] n h = absurd (cc (nothing_starts in_line x p))
line_prefix (x ∷ p) (c ∷ s) n h =
    let (same, rest) =
      starts_cons c x (canonicalize_from (after_unit c) s) p
        (ap (λ y. starts_with y (x ∷ p)) (sym (line_cons c s)) ∙ h) in
    let no_end : (is_line_end x ≡ false) × (any is_line_end p ≡ false) =
      (ground arith, ground arith) in
    let there : starts_with s p ≡ true = line_prefix p s no_end.1 (
      subst (λ st. starts_with (canonicalize_from st s) p ≡ true)
        (in_line_after c (ap is_line_end same ∙ no_end.0)) rest) in
    subst (λ y. starts_with (y ∷ s) (x ∷ p) ≡ true) (sym same) (cons_starts x s p there)

-- A line that does not begin with a key is not copied to a text that does.
not_copied :
    (x : ℕ) (p : Text) (c : ℕ) (s r : Text)
    → any is_line_end (x ∷ p) ≡ false
    → starts_with (c ∷ s) (x ∷ p) ≡ false
    → c ∷ canonicalize_from (after_unit c) s ≢ (x ∷ p) ++ r
not_copied x p c s r n h same =
    let (first, rest) =
      starts_cons c x (canonicalize_from (after_unit c) s) p
        (ap (λ y. starts_with y (x ∷ p)) same ∙ starts_with-append (x ∷ p) r) in
    let no_end : (is_line_end x ≡ false) × (any is_line_end p ≡ false) =
      (ground arith, ground arith) in
    let there : starts_with s p ≡ true = line_prefix p s no_end.1 (
      subst (λ st. starts_with (canonicalize_from st s) p ≡ true)
        (in_line_after c (ap is_line_end first ∙ no_end.0)) rest) in
    let bad : starts_with (c ∷ s) (x ∷ p) ≡ true =
      subst (λ y. starts_with (y ∷ s) (x ∷ p) ≡ true) (sym first) (cons_starts x s p there) in
    cc

-- A line with no key and a line with one have different canonical texts.
pub key_apart :
    (c d : ℕ) (s t key : Text)
    → volatile_key (c ∷ s) ≡ none
    → volatile_key (d ∷ t) ≡ some key
    → canonicalize_from at_start (c ∷ s) ≢ canonicalize_from at_start (d ∷ t)
key_apart c d s t key h k same =
    let (no_generated, no_sha) = no_key-IsPlain (c ∷ s) h in
    let copied : c ∷ canonicalize_from (after_unit c) s
        ≡ (key ++ codes ": <canonicalized>") ++ canonicalize_from in_value t =
      sym (start_none c s h) ∙ same ∙ start_some d t key k in
    elim (key-cases (d ∷ t) key k) [
      | inl e ↦
          not_copied b'g' (codes "enerated_at:") c s
            (codes " <canonicalized>" ++ canonicalize_from in_value t) refl no_generated
            (copied ∙ ap (λ y. (y ++ codes ": <canonicalized>") ++ canonicalize_from in_value t) e)
      | inr e ↦
          not_copied b'm' (codes "anager_lockfile_sha256:") c s
            (codes " <canonicalized>" ++ canonicalize_from in_value t) refl no_sha
            (copied ∙ ap (λ y. (y ++ codes ": <canonicalized>") ++ canonicalize_from in_value t) e)
    ]

pub head_tail : (c d : ℕ) (s t : Text) → c ∷ s ≡ d ∷ t → (c ≡ d) × (s ≡ t)
head_tail c d s t h = (cc, cc)

keys_apart : (s t : Text) → b'g' ∷ s ≢ b'm' ∷ t
keys_apart s t h = omega (arith, (head_tail b'g' b'm' s t h).0)

append_cancel : (p s t : Text) → p ++ s ≡ p ++ t → s ≡ t
append_cancel [] s t h = h
append_cancel (c ∷ p) s t h = append_cancel p s t (cc)

-- Lines with keys that have the same canonical text have the same key, and the same text behind it.
pub same_keys :
    (c d : ℕ) (s t key key' : Text)
    → volatile_key (c ∷ s) ≡ some key
    → volatile_key (d ∷ t) ≡ some key'
    → canonicalize_from at_start (c ∷ s) ≡ canonicalize_from at_start (d ∷ t)
    → (key ≡ key') × (canonicalize_from in_value s ≡ canonicalize_from in_value t)
same_keys c d s t key key' h k same =
    let both : (key ++ codes ": <canonicalized>") ++ canonicalize_from in_value s
        ≡ (key' ++ codes ": <canonicalized>") ++ canonicalize_from in_value t =
      sym (start_some c s key h) ∙ same ∙ start_some d t key' k in
    let with_keys = λ (a b : Text) (e : key ≡ a) (e' : key' ≡ b).
      ap (λ y. (y ++ codes ": <canonicalized>") ++ canonicalize_from in_value s) (sym e)
      ∙ both
      ∙ ap (λ y. (y ++ codes ": <canonicalized>") ++ canonicalize_from in_value t) e' in
    elim (key-cases (c ∷ s) key h) [
      | inl e ↦ elim (key-cases (d ∷ t) key' k) [
        | inl e' ↦ (
          e ∙ sym e',
          append_cancel (codes "generated_at: <canonicalized>") _ _
              (with_keys generated generated e e'),
        )
        | inr e' ↦ absurd (keys_apart _ _ (with_keys generated sha e e'))
      ]
      | inr e ↦ elim (key-cases (d ∷ t) key' k) [
        | inl e' ↦ absurd (keys_apart _ _ (sym (with_keys sha generated e e')))
        | inr e' ↦ (
          e ∙ sym e',
          append_cancel (codes "manager_lockfile_sha256: <canonicalized>") _ _
              (with_keys sha sha e e'),
        )
      ]
    ]

pub nil_apart : (c : ℕ) (s : Text) → [] ≢ c ∷ s
nil_apart c s h = cc

key_nonempty :
    (x key r : Text) → volatile_key x ≡ some key → [] ≢ (key ++ codes ": <canonicalized>") ++ r
key_nonempty x key r h same = elim (key-cases x key h) [
  | inl e ↦ nil_apart b'g' _ (same ∙ ap (λ y. (y ++ codes ": <canonicalized>") ++ r) e)
  | inr e ↦ nil_apart b'm' _ (same ∙ ap (λ y. (y ++ codes ": <canonicalized>") ++ r) e)
]

pub canonicalize_nil : (state : LineState) → canonicalize_from state [] ≡ []
unfolding canonicalize_from
canonicalize_nil state = refl

-- At the start of a line or in one, only the empty text has an empty canonical text.
pub start_apart : (c : ℕ) (s : Text) → [] ≢ canonicalize_from at_start (c ∷ s)
start_apart c s h = elim (Option-cases (volatile_key (c ∷ s))) [
  | inl e ↦ nil_apart c _ (h ∙ start_none c s e)
  | inr (key, e) ↦ key_nonempty (c ∷ s) key _ e (h ∙ start_some c s key e)
]
