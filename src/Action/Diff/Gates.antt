-- ===== src/Action/Diff/Gates.antt =====
-- What the two gates find in a document.
use mathlib.Core.List.{Memᴰ}
use script_jail.Base.{
  true, [], Option, none, some, Text, codes, ◌≡◌, ◌≢◌, refl, ◌↔◌, inl, inr, Bool-cases,
}
use script_jail.Action.Value.{
  Value, Members, null_value, text, scalar, array, object, property, proto_key,
}
use script_jail.Action.Diff.{
  Found, is_no_object, or_else, packages_raw, walk_raw, walk_doc, find_audit_bypass,
  collect_network_attempts,
}
use script_jail.Action.Diff.Listed.{Inside, inside, InPackages, IsListed}
use script_jail.Action.Diff.Walk.{raw_sound, raw_complete}

-- At a field, the values that the strict parse returns hold what the document holds, but for what it
-- passes over: `z.record` skips a key `__proto__`.
abbrev pub KeepsLists : Text → (Value → Option Value) → Type 0
KeepsLists field safe_parse =
    (doc packages : Value)
    → safe_parse doc ≡ some packages
    → (f : Found) → f.package_id ≢ proto_key
    → f.stage ≢ proto_key
    → IsListed field f (some packages) ↔ IsListed field f (property (codes "packages") doc)

-- the `packages` of a document; a text that is no YAML has none
abbrev pub packages_of : Option Value → Option Value
packages_of none = none
packages_of (some doc) = property (codes "packages") doc

nothing-Inside : (P : Members → Type 0) → Inside P none → ⊥
nothing-Inside P (inside e _ _) = cc

no_packages : (doc : Value) → is_no_object doc ≡ true → property (codes "packages") doc ≡ none
unfolding property
no_packages null_value h = refl
no_packages (text t) h = refl
no_packages scalar h = refl
no_packages (array vs) h = refl
no_packages (object ms) h = cc

module _ (field : Text) (safe_parse : Value → Option Value) (keeps : KeepsLists field safe_parse)
    (f : Found) (named : f.package_id ≢ proto_key) (staged : f.stage ≢ proto_key) where
  raw_exact :
      (doc : Value) (strict : Option Value)
      → safe_parse doc ≡ strict
      → Memᴰ f (walk_raw field (or_else strict (property (codes "packages") doc)))
        ↔ IsListed field f (property (codes "packages") doc)
  raw_exact doc none e = (raw_sound field f _, raw_complete field f _)
  raw_exact doc (some packages) e =
      let (to, from) = keeps doc packages e f named staged in
      (
        λ m. to (raw_sound field f (some packages) m),
        λ l. raw_complete field f (some packages) (from l),
      )

  walk_exact :
      (o : Option Value) → Memᴰ f (walk_doc safe_parse field o) ↔ IsListed field f (packages_of o)
  unfolding walk_doc packages_raw
  walk_exact none = (λ m. absurd (elim m [ ]), λ l. absurd (nothing-Inside _ l))
  walk_exact (some doc) = elim (Bool-cases (is_no_object doc)) [
    | inr e ↦ rw e (raw_exact doc (safe_parse doc) refl)
    | inl e ↦
        rw (e, no_packages doc e)
          (
            λ (m : Memᴰ f []). absurd (elim m [ ]),
            λ l. absurd (nothing-Inside (InPackages field f) l),
          )
  ]

module _ (parse : Text → Option Value) (safe_parse : Value → Option Value) (generated : Text)
    (f : Found) (named : f.package_id ≢ proto_key) (staged : f.stage ≢ proto_key) where
  -- Where the strict parse, if it succeeds, keeps the `audit_bypass` lists of packages and stages that
  -- are not named __proto__, the gate finds for each such package and stage exactly the texts, not
  -- empty, that `audit_bypass` lists of the document hold, whether or not the schema takes the document.
  pub find_audit_bypass_lem :
      KeepsLists (codes "audit_bypass") safe_parse
      → Memᴰ f (find_audit_bypass parse safe_parse generated)
        ↔ IsListed (codes "audit_bypass") f (packages_of (parse generated))
  unfolding find_audit_bypass
  find_audit_bypass_lem keeps =
      walk_exact (codes "audit_bypass") safe_parse keeps f named staged (parse generated)

  -- Where the strict parse, if it succeeds, keeps the `network_attempts` lists of packages and stages
  -- that are not named __proto__, the network attempts found of such a package and stage are exactly
  -- the texts, not empty, that `network_attempts` lists of the document hold.
  collect_network_attempts_lem :
      KeepsLists (codes "network_attempts") safe_parse
      → Memᴰ f (collect_network_attempts parse safe_parse generated)
        ↔ IsListed (codes "network_attempts") f (packages_of (parse generated))
  unfolding collect_network_attempts
  collect_network_attempts_lem keeps =
      walk_exact (codes "network_attempts") safe_parse keeps f named staged (parse generated)
