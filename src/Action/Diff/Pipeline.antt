-- ===== src/Action/Diff/Pipeline.antt =====
-- From an event to the gate: what normalisation records, the print of the lock keeps, and the gate
-- finds.
mod Tests
use mathlib.Core.List.{Memᴰ}
use script_jail.Base.{
  true, false, List, [], ◌∷◌, Option, some, Text, codes, starts_with, contains, ok, ◌≡◌, ◌≢◌, refl,
  sym, ap, ◌∙◌, subst,
}
use script_jail.Lock.Schema.{
  Stage, preinstall, install, postinstall, prepare, Field, AttributedEvent,
}
use script_jail.Lock.Normalize.{NormalizeContext, normalize}
use script_jail.Lock.Normalize.Exact.{list_of}
use script_jail.Lock.Normalize.Bypass.{is_bypass_sign, bypass_surfaces}
use script_jail.Lock.Render.{RenderInput, stage_name, render_doc, render}
use script_jail.Action.Value.{Value, property, proto_key}
use script_jail.Action.Diff.{Found, find_audit_bypass}
use script_jail.Action.Diff.Listed.{IsListed}
use script_jail.Action.Diff.Gates.{KeepsLists, packages_of, find_audit_bypass_lem}
use script_jail.Action.Diff.Rendered.{bypass-IsListed}

tagged_nonempty : (t : Text) → starts_with t (codes "<") ≡ true → t ≢ []
unfolding starts_with
tagged_nonempty [] h e = cc
tagged_nonempty (c ∷ s) h e = cc

stage_named : (stage : Stage) → stage_name stage ≢ proto_key
stage_named preinstall e = cc
stage_named install e = cc
stage_named postinstall e = cc
stage_named prepare e = cc

module _ (stringify : Value → Text) (parse : Text → Option Value)
    (safe_parse : Value → Option Value) (keeps : KeepsLists (codes "audit_bypass") safe_parse) where
  -- An event with a sign of a bypass fails the gate: if `normalize` returns, the parser reads back the
  -- lock that is printed of it, and the strict parse, if it succeeds, keeps the `audit_bypass` lists of
  -- packages and stages that are not named __proto__, then the gate finds a tagged entry of the package
  -- and the stage of the event, if that package is not named __proto__.
  pub bypass_fails_gate :
      (events : List AttributedEvent) (ctx : NormalizeContext) (input : RenderInput)
      → normalize events ctx ≡ ok input.packages
      → parse (render stringify input) ≡ some (render_doc input)
      → (ev : AttributedEvent) → Memᴰ ev events
      → ev.pkg ≢ proto_key
      → is_bypass_sign ev.raw ≡ true
      → (t : Text) × (starts_with t (codes "<") ≡ true)
        × Memᴰ
            (record { package_id = ev.pkg; stage = stage_name ev.lifecycle; entry = t })
            (find_audit_bypass parse safe_parse (render stringify input))
  bypass_fails_gate events ctx input done parses ev listed named sign =
      let (t, tag, held) = bypass_surfaces events ctx input.packages done ev listed sign in
      let found : Found = record {
        package_id = ev.pkg;
        stage = stage_name ev.lifecycle;
        entry = t;
      } in
      let there = bypass-IsListed input ev.pkg ev.lifecycle t named held (tagged_nonempty t tag) in
      (
        t,
        tag,
        (find_audit_bypass_lem parse safe_parse (render stringify input) found named
              (stage_named ev.lifecycle) keeps).1
            (subst (λ o. IsListed (codes "audit_bypass") found (packages_of o)) (sym parses) there),
      )
