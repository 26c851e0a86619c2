-- ===== src/Action/Diff/Drift/Laws.antt =====
-- When two locks match.
use script_jail.Base.{
  true, false, List, [], ◌∷◌, ◌++◌, ℕ, some, Text, codes, text_eq, text_eq_iff, text_eq_self,
  eq_of_text_eq, ◌≡◌, refl, sym, ap, ◌∙◌, subst, ◌↔◌, inl, inr, Bool-cases, Option-cases,
}
use script_jail.Lock.Normalize.Wrappers.{is_line_end}
use script_jail.Action.Diff.Drift.{
  RenderDiffArgs, Hunk, LineState, at_start, in_line, in_value, volatile_key, after_unit,
  canonicalize_from, canonicalize_volatile_fields, drifted, render_diff,
}
use script_jail.Action.Diff.Drift.Keys.{
  IsPlain, HasKey, no_key-IsPlain, no_key-of_IsPlain, key-HasKey, key-of_HasKey,
}
use script_jail.Action.Diff.Drift.Steps.{
  start_none, start_some, line_cons, value_end, value_skip, key_apart, head_tail, same_keys,
  nil_apart, canonicalize_nil, start_apart,
}

-- The texts agree from here on, the same state on both sides: outside a value unit by unit, and where
-- both begin a line with the same volatile key, whatever its values are up to the end of the line.
pub data Agree : LineState → Text → Text → Type 0 where
  both_end : (state : LineState) → Agree state [] []
  same_start :
      (c : ℕ) (s t : Text)
      → IsPlain (c ∷ s)
      → IsPlain (c ∷ t)
      → Agree (after_unit c) s t
      → Agree at_start (c ∷ s) (c ∷ t)
  same_key :
      (c d : ℕ) (s t key : Text)
      → HasKey key (c ∷ s)
      → HasKey key (d ∷ t)
      → Agree in_value s t
      → Agree at_start (c ∷ s) (d ∷ t)
  same_unit : (c : ℕ) (s t : Text) → Agree (after_unit c) s t → Agree in_line (c ∷ s) (c ∷ t)
  left_value :
      (c : ℕ) (s t : Text) → is_line_end c ≡ false → Agree in_value s t → Agree in_value (c ∷ s) t
  right_value :
      (c : ℕ) (s t : Text) → is_line_end c ≡ false → Agree in_value s t → Agree in_value s (c ∷ t)
  same_line_end :
      (c : ℕ) (s t : Text)
      → is_line_end c ≡ true
      → Agree at_start s t
      → Agree in_value (c ∷ s) (c ∷ t)

-- Texts that agree have the same canonical text.
pub canonicalize_of-Agree :
    (state : LineState) (s t : Text)
    → Agree state s t
    → canonicalize_from state s ≡ canonicalize_from state t
canonicalize_of-Agree state s t (both_end _) = refl
canonicalize_of-Agree state s t (same_start c s' t' h k a) =
    start_none c s' (no_key-of_IsPlain (c ∷ s') h)
    ∙ ap (◌∷◌ c) (canonicalize_of-Agree (after_unit c) s' t' a)
    ∙ sym (start_none c t' (no_key-of_IsPlain (c ∷ t') k))
canonicalize_of-Agree state s t (same_key c d s' t' key h k a) =
    start_some c s' key (key-of_HasKey (c ∷ s') key h)
    ∙ ap (λ r. (key ++ codes ": <canonicalized>") ++ r) (canonicalize_of-Agree in_value s' t' a)
    ∙ sym (start_some d t' key (key-of_HasKey (d ∷ t') key k))
canonicalize_of-Agree state s t (same_unit c s' t' a) =
    line_cons c s'
    ∙ ap (◌∷◌ c) (canonicalize_of-Agree (after_unit c) s' t' a)
    ∙ sym (line_cons c t')
canonicalize_of-Agree state s t (left_value c s' _ h a) =
    value_skip c s' h ∙ canonicalize_of-Agree in_value s' t a
canonicalize_of-Agree state s t (right_value c _ t' h a) =
    canonicalize_of-Agree in_value s t' a ∙ sym (value_skip c t' h)
canonicalize_of-Agree state s t (same_line_end c s' t' h a) =
    value_end c s' h ∙ ap (◌∷◌ c) (canonicalize_of-Agree at_start s' t' a) ∙ sym (value_end c t' h)

-- Texts with the same canonical text agree.
Agree-of_canonicalize :
    (state : LineState) (s t : Text)
    → canonicalize_from state s ≡ canonicalize_from state t
    → Agree state s t
Agree-of_canonicalize at_start [] [] h = both_end at_start
Agree-of_canonicalize at_start [] (d ∷ t) h =
    absurd (start_apart d t (sym (canonicalize_nil at_start) ∙ h))
Agree-of_canonicalize at_start (c ∷ s) [] h =
    absurd (start_apart c s (sym (h ∙ canonicalize_nil at_start)))
Agree-of_canonicalize at_start (c ∷ s) (d ∷ t) h = elim (Option-cases (volatile_key (c ∷ s))) [
  | inl e ↦ elim (Option-cases (volatile_key (d ∷ t))) [
    | inl e' ↦
        let (same, rest) = head_tail c d _ _ (sym (start_none c s e) ∙ h ∙ start_none d t e') in
        subst (λ x. Agree at_start (c ∷ s) (x ∷ t)) same
          (same_start c s t (no_key-IsPlain (c ∷ s) e)
            (no_key-IsPlain (c ∷ t) (ap (λ x. volatile_key (x ∷ t)) same ∙ e'))
            (Agree-of_canonicalize (after_unit c) s t
              (rest ∙ ap (λ x. canonicalize_from (after_unit x) t) (sym same))))
    | inr (key, e') ↦ absurd (key_apart c d s t key e e' h)
  ]
  | inr (key, e) ↦ elim (Option-cases (volatile_key (d ∷ t))) [
    | inl e' ↦ absurd (key_apart d c t s key e' e (sym h))
    | inr (key', e') ↦
        let (same, rest) = same_keys c d s t key key' e e' h in
        same_key c d s t key (key-HasKey (c ∷ s) key e)
          (key-HasKey (d ∷ t) key (e' ∙ ap some (sym same)))
          (Agree-of_canonicalize in_value s t rest)
  ]
]
Agree-of_canonicalize in_line [] [] h = both_end in_line
Agree-of_canonicalize in_line [] (d ∷ t) h =
    absurd (nil_apart d _ (sym (canonicalize_nil in_line) ∙ h ∙ line_cons d t))
Agree-of_canonicalize in_line (c ∷ s) [] h =
    absurd (nil_apart c _ (sym (canonicalize_nil in_line) ∙ sym h ∙ line_cons c s))
Agree-of_canonicalize in_line (c ∷ s) (d ∷ t) h =
    let (same, rest) = head_tail c d _ _ (sym (line_cons c s) ∙ h ∙ line_cons d t) in
    subst (λ x. Agree in_line (c ∷ s) (x ∷ t)) same
      (same_unit c s t (
        Agree-of_canonicalize (after_unit c) s t
          (rest ∙ ap (λ x. canonicalize_from (after_unit x) t) (sym same))))
Agree-of_canonicalize in_value [] [] h = both_end in_value
Agree-of_canonicalize in_value [] (d ∷ t) h = elim (Bool-cases (is_line_end d)) [
  | inl e ↦ absurd (nil_apart d _ (sym (canonicalize_nil in_value) ∙ h ∙ value_end d t e))
  | inr e ↦ right_value d [] t e (Agree-of_canonicalize in_value [] t (h ∙ value_skip d t e))
]
Agree-of_canonicalize in_value (c ∷ s) [] h = elim (Bool-cases (is_line_end c)) [
  | inl e ↦ absurd (nil_apart c _ (sym (canonicalize_nil in_value) ∙ sym h ∙ value_end c s e))
  | inr e ↦ left_value c s [] e (Agree-of_canonicalize in_value s [] (sym (value_skip c s e) ∙ h))
]
Agree-of_canonicalize in_value (c ∷ s) (d ∷ t) h = elim (Bool-cases (is_line_end c)) [
  | inr e ↦
      left_value c s (d ∷ t) e
        (Agree-of_canonicalize in_value s (d ∷ t) (sym (value_skip c s e) ∙ h))
  | inl e ↦ elim (Bool-cases (is_line_end d)) [
    | inr e' ↦
        right_value d (c ∷ s) t e'
          (Agree-of_canonicalize in_value (c ∷ s) t (h ∙ value_skip d t e'))
    | inl e' ↦
        let (same, rest) = head_tail c d _ _ (sym (value_end c s e) ∙ h ∙ value_end d t e') in
        subst (λ x. Agree in_value (c ∷ s) (x ∷ t)) same
          (same_line_end c s t e (Agree-of_canonicalize at_start s t rest))
  ]
]

module _ (create_two_files_patch : Text → Text → Text → Text → Text)
    (structured_patch : Text → Text → Text → Text → List Hunk) where
  drifted_apart :
      (args : RenderDiffArgs)
      → (drifted create_two_files_patch structured_patch args).is_match ≡ false
  unfolding drifted
  drifted_apart args = elim (Bool-cases (text_eq args.committed [])) [
    | inl e ↦ rw e refl
    | inr e ↦ rw e refl
  ]

  matches :
      (args : RenderDiffArgs)
      → (render_diff create_two_files_patch structured_patch args).is_match
        ≡ text_eq
            (canonicalize_volatile_fields args.committed)
            (canonicalize_volatile_fields args.generated)
  unfolding render_diff
  matches args = elim (Bool-cases (text_eq args.committed args.generated)) [
    | inl e ↦ rw e (
        sym (
          ap
            (λ s.
              text_eq (canonicalize_volatile_fields args.committed)
                (canonicalize_volatile_fields s))
            (sym (eq_of_text_eq args.committed args.generated e))
          ∙ text_eq_self (canonicalize_volatile_fields args.committed)))
    | inr e ↦
        elim (Bool-cases (
          text_eq (canonicalize_volatile_fields args.committed)
            (canonicalize_volatile_fields args.generated))) [
              | inl e' ↦ rw (e, e') refl
              | inr e' ↦ rw (e, e') (drifted_apart args)
            ]
  ]

  -- A generated lock matches the committed one exactly when they agree unit by unit, but for what
  -- follows `generated_at:` and `manager_lockfile_sha256:` in lines that begin with the same of the two
  -- on both sides.
  pub render_diff_lem :
      (args : RenderDiffArgs)
      → ((render_diff create_two_files_patch structured_patch args).is_match ≡ true)
        ↔ Agree at_start args.committed args.generated
  unfolding canonicalize_volatile_fields
  render_diff_lem args =
      let (to, from) =
        text_eq_iff (canonicalize_from at_start args.committed)
          (canonicalize_from at_start args.generated) in
      (
        λ h.
            Agree-of_canonicalize at_start args.committed args.generated
              (to (sym (matches args) ∙ h)),
        λ a. matches args ∙ from (canonicalize_of-Agree at_start args.committed args.generated a),
      )
