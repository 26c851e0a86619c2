-- ===== src/Lock/Normalize/Exact.antt =====
-- What stands in the blocks: the entries of the events that are neither noise nor artefacts of the
-- install, and nothing else.
use mathlib.Core.Option
use script_jail.Base.{
  Bool, true, false, not, ◌&&◌, ◌||◌, List, [], ◌∷◌, Option, none, some, Text, text_eq, contains,
  any, ok, >>=-eq-ok, if◌then◌else◌, ◌≡◌, refl, ap, ◌∙◌, arith, Bool-cases, inl, inr,
}
use script_jail.Lock.Schema.{Stage, Field, PackageBlock, Packages, get, AttributedEvent}
use script_jail.Lock.Tokenize.{TokenizeRoots}
use script_jail.Lock.Normalize.{
  NormalizeContext, os_of, is_dropped_artifact, place, attribute, step, run,
}
use script_jail.Lock.Normalize.Noise.{is_system_noise}
use script_jail.Lock.Normalize.Entries.{Entry, entries}
use script_jail.Lock.Normalize.Blocks.{
  stage_eq, record_entries, stage_block, stages_of, lookup_block, finish_block, finish_package,
  finish,
}
use script_jail.Lock.Normalize.Blocks.Laws.{
  has_entry, or_empty, contains-push_all, lookup_block-record_entries,
}

abbrev pub is_some {ℓ} : {A : Type ℓ} → Option A → Bool
is_some none = false
is_some (some a) = true

-- The list `f` of a stage of a package; a block that is not there has empty lists.
abbrev pub list_of : Text → Stage → Field → Packages → List Text
list_of pkg stage f out = get (or_empty (lookup_block pkg stage out)) f

module _ (ctx : NormalizeContext) (roots : TokenizeRoots) where
  -- The event reaches the block of its package and stage.
  unfoldable pub is_recorded : AttributedEvent → Bool
  is_recorded ev =
      not (is_system_noise (os_of ctx) roots ev.raw) && not (is_dropped_artifact ctx roots ev)

  unfoldable pub touches : Text → Stage → AttributedEvent → Bool
  touches pkg stage ev = is_recorded ev && (text_eq ev.pkg pkg && stage_eq ev.lifecycle stage)

  -- The event puts `t` on the list `f` of the stage of the package.
  unfoldable pub adds : Text → Stage → Field → Text → AttributedEvent → Bool
  adds pkg stage f t ev =
      touches pkg stage ev && has_entry f t (entries (place ctx roots ev) ev.raw)

  -- A step that succeeds records the event or leaves the blocks.
  pub step_ok :
      (out out' : Packages) (ev : AttributedEvent)
      → step ctx roots out ev ≡ ok out'
      → out' ≡ (
          if is_recorded ev
          then record_entries ev.pkg ev.lifecycle (entries (place ctx roots ev) ev.raw) out
          else out)
  unfolding step attribute is_recorded
  step_ok out out' ev h = ground arith

  contains-record :
      (pkg p : Text) (stage s : Stage) (es : List Entry) (out : Packages) (f : Field) (t : Text)
      → contains (list_of p s f (record_entries pkg stage es out)) t ≡ (
          contains (list_of p s f out) t
          || ((text_eq pkg p && stage_eq stage s) && has_entry f t es))
  contains-record pkg p stage s es out f t = elim (Bool-cases (text_eq pkg p && stage_eq stage s)) [
    | inl e ↦
        rw (lookup_block-record_entries pkg p stage s es out, e)
          (contains-push_all es (or_empty (lookup_block p s out)) f t)
    | inr e ↦ rw (lookup_block-record_entries pkg p stage s es out, e) (ground arith)
  ]

  contains-step :
      (out out' : Packages) (ev : AttributedEvent) (p : Text) (s : Stage) (f : Field) (t : Text)
      → step ctx roots out ev ≡ ok out'
      → contains (list_of p s f out') t ≡ (contains (list_of p s f out) t || adds p s f t ev)
  unfolding adds touches
  contains-step out out' ev p s f t h =
      let e = step_ok out out' ev h in
      elim (Bool-cases (is_recorded ev)) [
        | inl r ↦
            rw (e, r)
              (contains-record ev.pkg p ev.lifecycle s (entries (place ctx roots ev) ev.raw) out f
                t)
        | inr r ↦ rw (e, r) (ground arith)
      ]

  pub run_cons :
      (out out' : Packages) (ev : AttributedEvent) (events : List AttributedEvent)
      → run ctx roots out (ev ∷ events) ≡ ok out'
      → (mid : Packages) × (step ctx roots out ev ≡ ok mid) × (run ctx roots mid events ≡ ok out')
  unfolding run
  run_cons out out' ev events h =
      >>=-eq-ok (step ctx roots out ev) (λ mid. run ctx roots mid events) h

  or_assoc : (a b c : Bool) → ((a || b) || c) ≡ (a || (b || c))
  or_assoc a b c = ground arith

  pub contains-run :
      (out out' : Packages) (events : List AttributedEvent) (p : Text) (s : Stage) (f : Field)
      (t : Text)
      → run ctx roots out events ≡ ok out'
      → contains (list_of p s f out') t
        ≡ (contains (list_of p s f out) t || any (adds p s f t) events)
  contains-run out out' [] p s f t h =
      let e : out ≡ out' = unfold run in ground arith in rw e (ground arith)
  contains-run out out' (ev ∷ events) p s f t h =
      let (mid, first, rest) = run_cons out out' ev events h in
      contains-run mid out' events p s f t rest
      ∙ rw (contains-step out mid ev p s f t first)
          (or_assoc (contains (list_of p s f out) t) (adds p s f t ev) (any (adds p s f t) events))

  is_some-step :
      (out out' : Packages) (ev : AttributedEvent) (p : Text) (s : Stage)
      → step ctx roots out ev ≡ ok out'
      → is_some (lookup_block p s out') ≡ (is_some (lookup_block p s out) || touches p s ev)
  unfolding touches
  is_some-step out out' ev p s h =
      let e = step_ok out out' ev h in
      let es = entries (place ctx roots ev) ev.raw in
      elim (Bool-cases (is_recorded ev)) [
        | inl r ↦ elim (Bool-cases (text_eq ev.pkg p && stage_eq ev.lifecycle s)) [
          | inl hit ↦
              rw (e, r, lookup_block-record_entries ev.pkg p ev.lifecycle s es out, hit)
                (ground arith)
          | inr miss ↦
              rw (e, r, lookup_block-record_entries ev.pkg p ev.lifecycle s es out, miss)
                (ground arith)
        ]
        | inr r ↦ rw (e, r) (ground arith)
      ]

  -- A block is there exactly when an event reached it.
  pub is_some-run :
      (out out' : Packages) (events : List AttributedEvent) (p : Text) (s : Stage)
      → run ctx roots out events ≡ ok out'
      → is_some (lookup_block p s out')
        ≡ (is_some (lookup_block p s out) || any (touches p s) events)
  is_some-run out out' [] p s h =
      let e : out ≡ out' = unfold run in ground arith in rw e (ground arith)
  is_some-run out out' (ev ∷ events) p s h =
      let (mid, first, rest) = run_cons out out' ev events h in
      is_some-run mid out' events p s rest
      ∙ rw (is_some-step out mid ev p s first)
          (or_assoc (is_some (lookup_block p s out)) (touches p s ev) (any (touches p s) events))

stage_block-finish_package :
    (s : Stage) (stages : PackageBlock)
    → stage_block s (finish_package stages) ≡ Option.map finish_block (stage_block s stages)
unfolding stage_block finish_package
stage_block-finish_package s [] = refl
stage_block-finish_package s ((r, block) ∷ rest) = ground (arith, stage_block-finish_package s rest)

stages_of-finish :
    (p : Text) (out : Packages) → stages_of p (finish out) ≡ finish_package (stages_of p out)
unfolding stages_of finish finish_package
stages_of-finish p [] = refl
stages_of-finish p ((q, stages) ∷ rest) = ground (arith, stages_of-finish p rest)

-- Finishing changes each block on its own.
pub lookup_block-finish :
    (p : Text) (s : Stage) (out : Packages)
    → lookup_block p s (finish out) ≡ Option.map finish_block (lookup_block p s out)
lookup_block-finish p s out =
    ap (stage_block s) (stages_of-finish p out) ∙ stage_block-finish_package s (stages_of p out)
