-- ===== src/Action/Diff/Walk.antt =====
-- The walk finds every text that a list of the lock holds, and nothing else.
use mathlib.Core.List.{Memᴰ}
use mathlib.Core.List.Memᴰ
use script_jail.Base.{
  List, ◌++◌, Option, none, some, Text, codes, ◌≡◌, refl, sym, ap, ◌∙◌, subst, ◌⊎◌, inl, inr,
}
use script_jail.Action.Value.{
  Value, Values, Members, null_value, text, scalar, array, object, property, entries_of,
}
use script_jail.Action.Diff.{
  Found, nonempty_text, add_found, walk_values, walk_list, walk_stages, walk_stages_of,
  walk_lifecycle, walk_packages, walk_packages_of, walk_raw,
}
use script_jail.Action.Diff.Listed.{
  Holds, Has, Inside, inside, InList, in_list, InStages, in_stages, InPackages, in_packages,
  IsListed,
}

abbrev found : Text → Text → Text → Found
found package_id stage t = record { package_id = package_id; stage = stage; entry = t }

module _ (package_id stage : Text) where
  cons_values :
      (v : Value) (vs : Values)
      → walk_values package_id stage (Values.cons v vs)
        ≡ add_found package_id stage (nonempty_text v) (walk_values package_id stage vs)
  unfolding walk_values
  cons_values v vs = refl

  add_here :
      (o : Option Text) (t : Text) (out : List Found)
      → o ≡ some t
      → Memᴰ (found package_id stage t) (add_found package_id stage o out)
  add_here none t out h = cc
  add_here (some s) t out h =
      Memᴰ.head (λ i. found package_id stage (elim (sym h i) [ none ↦ t | some r ↦ r ]))

  add_later :
      (o : Option Text) (f : Found) (out : List Found)
      → Memᴰ f out
      → Memᴰ f (add_found package_id stage o out)
  add_later none f out m = m
  add_later (some s) f out m = Memᴰ.tail m

  values_complete :
      (t : Text) (v : Value) (vs : Values)
      → Holds v vs
      → nonempty_text v ≡ some t
      → Memᴰ (found package_id stage t) (walk_values package_id stage vs)
  values_complete t v Values.nil m h = elim m [ ]
  values_complete t v (Values.cons w vs) (Holds.here e) h =
      subst (Memᴰ (found package_id stage t)) (sym (cons_values w vs))
        (add_here (nonempty_text w) t _ (ap nonempty_text (sym e) ∙ h))
  values_complete t v (Values.cons w vs) (Holds.later m) h =
      subst (Memᴰ (found package_id stage t)) (sym (cons_values w vs))
        (add_later (nonempty_text w) _ _ (values_complete t v vs m h))

  add_cases :
      (o : Option Text) (f : Found) (out : List Found)
      → Memᴰ f (add_found package_id stage o out)
      → ((f ≡ found package_id stage f.entry) × (o ≡ some f.entry)) ⊎ Memᴰ f out
  add_cases none f out m = inr m
  add_cases (some t) f out (Memᴰ.head e) =
      let same : f.entry ≡ t = ap (λ (g : Found). g.entry) e in
      inl (e ∙ ap (found package_id stage) (sym same), ap some (sym same))
  add_cases (some t) f out (Memᴰ.tail m) = inr m

  values_sound :
      (f : Found) (vs : Values)
      → Memᴰ f (walk_values package_id stage vs)
      → (f ≡ found package_id stage f.entry)
        × ((v : Value) × Holds v vs × (nonempty_text v ≡ some f.entry))
  values_sound f Values.nil m = absurd (unfold walk_values in (elim m [ ]))
  values_sound f (Values.cons w vs) m =
      elim (add_cases (nonempty_text w) f _ (subst (Memᴰ f) (cons_values w vs) m)) [
        | inl (same, is_text) ↦ (same, (w, Holds.here refl, is_text))
        | inr m' ↦
            let (same, (v, h, is_text)) = values_sound f vs m' in
            (same, (v, Holds.later h, is_text))
      ]

  list_complete :
      (t : Text) (o : Option Value)
      → InList t o
      → Memᴰ (found package_id stage t) (walk_list package_id stage o)
  list_complete t o (in_list {vs} {v} e h is_text) =
      subst (λ o'. Memᴰ (found package_id stage t) (walk_list package_id stage o')) (sym e)
        (unfold walk_list in (values_complete t v vs h is_text))

  list_sound :
      (f : Found) (o : Option Value)
      → Memᴰ f (walk_list package_id stage o)
      → (f ≡ found package_id stage f.entry) × InList f.entry o
  list_sound f none m = absurd (unfold walk_list in (elim m [ ]))
  list_sound f (some null_value) m = absurd (unfold walk_list in (elim m [ ]))
  list_sound f (some (text t)) m = absurd (unfold walk_list in (elim m [ ]))
  list_sound f (some scalar) m = absurd (unfold walk_list in (elim m [ ]))
  list_sound f (some (array vs)) m =
      let (same, (v, h, is_text)) = values_sound f vs (unfold walk_list in m) in
      (same, in_list refl h is_text)
  list_sound f (some (object ms)) m = absurd (unfold walk_list in (elim m [ ]))

module _ (field package_id : Text) where
  stages_cons :
      (stage : Text) (block : Value) (ms : Members)
      → walk_stages field package_id (Members.entry stage block ms)
        ≡ walk_list package_id stage (property field block) ++ walk_stages field package_id ms
  unfolding walk_stages
  stages_cons stage block ms = refl

  stages_complete :
      (stage t : Text) (block : Value) (ms : Members)
      → Has stage block ms
      → InList t (property field block)
      → Memᴰ (found package_id stage t) (walk_stages field package_id ms)
  stages_complete stage t block Members.end m l = elim m [ ]
  stages_complete stage t block (Members.entry k w ms) (Has.here e e') l =
      subst (Memᴰ (found package_id stage t)) (sym (stages_cons k w ms)) (
        Memᴰ.append_left (walk_stages field package_id ms) (
          subst (λ s. Memᴰ (found package_id stage t) (walk_list package_id s (property field w))) e
            (list_complete package_id stage t (property field w)
              (subst (λ b. InList t (property field b)) e' l))))
  stages_complete stage t block (Members.entry k w ms) (Has.later m) l =
      subst (Memᴰ (found package_id stage t)) (sym (stages_cons k w ms)) (
        Memᴰ.append_right (walk_list package_id k (property field w))
          (stages_complete stage t block ms m l))

  stages_sound :
      (f : Found) (ms : Members)
      → Memᴰ f (walk_stages field package_id ms)
      → (f.package_id ≡ package_id) × InStages field f ms
  stages_sound f Members.end m = absurd (unfold walk_stages in (elim m [ ]))
  stages_sound f (Members.entry k w ms) m =
      elim (Memᴰ.append_cases (walk_list package_id k (property field w))
        (subst (Memᴰ f) (stages_cons k w ms) m)) [
          | inl m' ↦
              let (same, l) = list_sound package_id k f (property field w) m' in
              (
                ap (λ (g : Found). g.package_id) same,
                in_stages (Has.here (ap (λ (g : Found). g.stage) same) refl) l,
              )
          | inr m' ↦
              let (same, inner) = stages_sound f ms m' in
              (same, elim inner [ in_stages h l ↦ in_stages (Has.later h) l ])
        ]

  lifecycle_complete :
      (stage t : Text) (o : Option Value)
      → Inside (InStages field (found package_id stage t)) o
      → Memᴰ (found package_id stage t) (walk_lifecycle field package_id o)
  lifecycle_complete stage t o (inside {v} {ms} e e' (in_stages {block} h l)) =
      subst (λ o'. Memᴰ (found package_id stage t) (walk_lifecycle field package_id o')) (sym e)
        (unfold walk_lifecycle in rw e' (stages_complete stage t block ms h l))

  stages_of_sound :
      (f : Found) (v : Value) (o : Option Members)
      → entries_of v ≡ o
      → Memᴰ f (walk_stages_of field package_id o)
      → (f.package_id ≡ package_id) × Inside (InStages field f) (some v)
  stages_of_sound f v none e m = absurd (elim m [ ])
  stages_of_sound f v (some ms) e m =
      let (same, inner) = stages_sound f ms m in (same, inside refl e inner)

  lifecycle_sound :
      (f : Found) (o : Option Value)
      → Memᴰ f (walk_lifecycle field package_id o)
      → (f.package_id ≡ package_id) × Inside (InStages field f) o
  unfolding walk_lifecycle
  lifecycle_sound f none m = absurd (elim m [ ])
  lifecycle_sound f (some v) m = stages_of_sound f v (entries_of v) refl m

module _ (field : Text) where
  packages_cons :
      (package_id : Text) (pkg : Value) (ms : Members)
      → walk_packages field (Members.entry package_id pkg ms)
        ≡ walk_lifecycle field package_id (property (codes "lifecycle") pkg)
          ++ walk_packages field ms
  unfolding walk_packages
  packages_cons package_id pkg ms = refl

  abbrev lifecycle_of : Value → Option Value
  lifecycle_of pkg = property (codes "lifecycle") pkg

  packages_complete :
      (f : Found) (pkg : Value) (ms : Members)
      → Has f.package_id pkg ms
      → Inside (InStages field f) (lifecycle_of pkg)
      → Memᴰ f (walk_packages field ms)
  packages_complete f pkg Members.end m l = elim m [ ]
  packages_complete f pkg (Members.entry k w ms) (Has.here e e') l =
      subst (Memᴰ f) (sym (packages_cons k w ms)) (
        Memᴰ.append_left (walk_packages field ms) (
          subst (λ p. Memᴰ f (walk_lifecycle field p (lifecycle_of w))) e
            (lifecycle_complete field f.package_id f.stage f.entry (lifecycle_of w)
              (subst (λ p. Inside (InStages field f) (lifecycle_of p)) e' l))))
  packages_complete f pkg (Members.entry k w ms) (Has.later m) l =
      subst (Memᴰ f) (sym (packages_cons k w ms)) (
        Memᴰ.append_right (walk_lifecycle field k (lifecycle_of w))
          (packages_complete f pkg ms m l))

  packages_sound :
      (f : Found) (ms : Members) → Memᴰ f (walk_packages field ms) → InPackages field f ms
  packages_sound f Members.end m = absurd (unfold walk_packages in (elim m [ ]))
  packages_sound f (Members.entry k w ms) m =
      elim (Memᴰ.append_cases (walk_lifecycle field k (lifecycle_of w))
        (subst (Memᴰ f) (packages_cons k w ms) m)) [
          | inl m' ↦
              let (same, l) = lifecycle_sound field k f (lifecycle_of w) m' in
              in_packages (Has.here same refl) l
          | inr m' ↦ elim (packages_sound f ms m') [ in_packages h l ↦ in_packages (Has.later h) l ]
        ]

  packages_of_sound :
      (f : Found) (v : Value) (o : Option Members)
      → entries_of v ≡ o
      → Memᴰ f (walk_packages_of field o)
      → IsListed field f (some v)
  packages_of_sound f v none e m = absurd (elim m [ ])
  packages_of_sound f v (some ms) e m = inside refl e (packages_sound f ms m)

  pub raw_sound : (f : Found) (o : Option Value) → Memᴰ f (walk_raw field o) → IsListed field f o
  unfolding walk_raw
  raw_sound f none m = absurd (elim m [ ])
  raw_sound f (some v) m = packages_of_sound f v (entries_of v) refl m

  pub raw_complete : (f : Found) (o : Option Value) → IsListed field f o → Memᴰ f (walk_raw field o)
  raw_complete f o (inside {v} {ms} e e' (in_packages {pkg} h l)) =
      subst (λ o'. Memᴰ f (walk_raw field o')) (sym e)
        (unfold walk_raw in rw e' (packages_complete f pkg ms h l))
