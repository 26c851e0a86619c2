-- ===== src/Lock/Normalize/Errors.antt =====
-- The errors of the loop of `normalize`, by the errors of its events.
use script_jail.Base.{
  ◌||◌, List, [], ◌∷◌, Option, none, some, any, ok, err, ◌>>=◌, Result-cases, if◌then◌else◌, ◌≡◌,
  refl, ap, ◌∙◌, ◌↔◌, ◌⊎◌, arith, Option-cases, inl, inr,
}
use script_jail.Lock.Schema.{Packages, AttributedEvent}
use script_jail.Lock.Tokenize.{TokenizeRoots, canonicalize_tokenize_roots}
use script_jail.Lock.Normalize.{
  NormalizeContext, NormalizeError, os_of, pkg_dir_error, attribute, step, run, normalize,
}
use script_jail.Lock.Normalize.Noise.{is_system_noise}
use script_jail.Lock.Normalize.Blocks.{finish}
use script_jail.Lock.Normalize.Exact.{is_some}

-- `a ?? b`
abbrev or_later : Option NormalizeError → Option NormalizeError → Option NormalizeError
or_later none later = later
or_later (some e) later = some e

is_some_or : (a b : Option NormalizeError) → is_some (or_later a b) ≡ (is_some a || is_some b)
is_some_or none b = refl
is_some_or (some e) b = refl

module _ (ctx : NormalizeContext) (roots : TokenizeRoots) where
  -- the error of one event
  unfoldable pub event_error : AttributedEvent → Option NormalizeError
  event_error ev = if is_system_noise (os_of ctx) roots ev.raw then none else pkg_dir_error ctx ev

  -- the error of the first event that has one
  unfoldable pub first_error : List AttributedEvent → Option NormalizeError
  first_error [] = none
  first_error (ev ∷ events) = or_later (event_error ev) (first_error events)

  step_error :
      (out : Packages) (ev : AttributedEvent) (e : NormalizeError)
      → event_error ev ≡ some e
      → step ctx roots out ev ≡ err e
  unfolding step attribute event_error
  step_error out ev e h = ground arith

  step_succeeds :
      (out : Packages) (ev : AttributedEvent)
      → event_error ev ≡ none
      → (out' : Packages) × (step ctx roots out ev ≡ ok out')
  unfolding step attribute event_error
  step_succeeds out ev h = elim (Result-cases (step ctx roots out ev)) [
    | inl good ↦ good
    | inr (e, bad) ↦ absurd (ground arith)
  ]

  first_error_cons :
      (ev : AttributedEvent) (events : List AttributedEvent)
      → first_error (ev ∷ events) ≡ or_later (event_error ev) (first_error events)
  unfolding first_error
  first_error_cons ev events = refl

  pub is_some-first_error :
      (events : List AttributedEvent)
      → is_some (first_error events) ≡ any (λ ev. is_some (event_error ev)) events
  is_some-first_error [] = unfold first_error in refl
  is_some-first_error (ev ∷ events) =
      ap is_some (first_error_cons ev events)
      ∙ is_some_or (event_error ev) (first_error events)
      ∙ rw (is_some-first_error events)

  run-unfold :
      (out : Packages) (ev : AttributedEvent) (events : List AttributedEvent)
      → run ctx roots out (ev ∷ events)
        ≡ (step ctx roots out ev >>= λ out'. run ctx roots out' events)
  unfolding run
  run-unfold out ev events = refl

  -- The loop throws the error of the first event that has one, and ends if none has.
  run-cases :
      (out : Packages) (events : List AttributedEvent)
      → ((first_error events ≡ none) × ((out' : Packages) × (run ctx roots out events ≡ ok out')))
        ⊎ ((e : NormalizeError) × (first_error events ≡ some e)
            × (run ctx roots out events ≡ err e))
  run-cases out [] = inl (unfold first_error in refl, (out, unfold run in refl))
  run-cases out (ev ∷ events) = elim (Option-cases (event_error ev)) [
    | inr (e, bad) ↦ inr (
      e,
      first_error_cons ev events ∙ rw bad,
      run-unfold out ev events ∙ rw (step_error out ev e bad),
    )
    | inl fine ↦
        let (mid, first) = step_succeeds out ev fine in
        elim (run-cases mid events) [
          | inl (no_error, (out', rest)) ↦ inl (
            first_error_cons ev events ∙ rw (fine, no_error),
            (out', run-unfold out ev events ∙ rw (first, rest)),
          )
          | inr (e, later, rest) ↦ inr (
            e,
            first_error_cons ev events ∙ rw (fine, later),
            run-unfold out ev events ∙ rw (first, rest),
          )
        ]
  ]

normalize-unfold :
    (events : List AttributedEvent) (ctx : NormalizeContext)
    → normalize events ctx
      ≡ (run ctx (canonicalize_tokenize_roots ctx.roots) [] events >>= λ out. ok (finish out))
unfolding normalize
normalize-unfold events ctx = refl

-- `normalize` throws an error exactly when it is the error of the first event that has one.
pub normalize-eq-err :
    (events : List AttributedEvent) (ctx : NormalizeContext) (e : NormalizeError)
    → (normalize events ctx ≡ err e)
      ↔ (first_error ctx (canonicalize_tokenize_roots ctx.roots) events ≡ some e)
normalize-eq-err events ctx e =
    let roots = canonicalize_tokenize_roots ctx.roots in
    elim (run-cases ctx roots [] events) [
      | inl (no_error, (out, done)) ↦
          let good : normalize events ctx ≡ ok (finish out) =
            normalize-unfold events ctx ∙ rw done in
          (λ h. absurd (cc), λ h. absurd (cc))
      | inr (e', first, thrown) ↦
          let bad : normalize events ctx ≡ err e' = normalize-unfold events ctx ∙ rw thrown in
          (
            λ h. let same : e' ≡ e = cc in first ∙ ap some same,
            λ h. let same : e' ≡ e = cc in bad ∙ ap err same,
          )
    ]

-- `normalize` returns if no event has an error.
pub normalize_total :
    (events : List AttributedEvent) (ctx : NormalizeContext)
    → first_error ctx (canonicalize_tokenize_roots ctx.roots) events ≡ none
    → (out : Packages) × (normalize events ctx ≡ ok out)
normalize_total events ctx h =
    elim (run-cases ctx (canonicalize_tokenize_roots ctx.roots) [] events) [
      | inl (_, (out, done)) ↦ (finish out, normalize-unfold events ctx ∙ rw done)
      | inr (e, first, _) ↦ absurd (cc)
    ]

-- No event has an error if `normalize` returns.
pub no_error :
    (events : List AttributedEvent) (ctx : NormalizeContext) (out : Packages)
    → normalize events ctx ≡ ok out
    → first_error ctx (canonicalize_tokenize_roots ctx.roots) events ≡ none
no_error events ctx out h = elim (run-cases ctx (canonicalize_tokenize_roots ctx.roots) [] events) [
  | inl (fine, _) ↦ fine
  | inr (e, _, thrown) ↦
      let bad : normalize events ctx ≡ err e = normalize-unfold events ctx ∙ rw thrown in
      absurd (cc)
]
