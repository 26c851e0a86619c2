-- ===== src/Lock/Normalize/Thrown.antt =====
-- The error of `normalize`, said of the events alone.
use script_jail.Base.{
  true, false, List, [], ◌∷◌, none, some, Text, codes, text_eq, text_eq_self, eq_of_text_eq, lookup,
  err, ◌≡◌, ◌≢◌, ◌↔◌, refl, sym, ap, ◌∙◌, Bool-cases, Option-cases, inl, inr,
}
use script_jail.Lock.Schema.{
  FsEvent, RawEvent, read, write, env_read, spawn, dlopen, connect, exec, env_tamper,
  AttributedEvent,
}
use script_jail.Lock.Tokenize.{TokenizeRoots, canonicalize_tokenize_roots}
use script_jail.Lock.Normalize.{
  NormalizeContext, NormalizeError, missing_pkg_dir, read_kind, write_kind, os_of, claims_root,
  fs_error, pkg_dir_error, normalize,
}
use script_jail.Lock.Normalize.Noise.{optional_has, is_system_noise}
use script_jail.Lock.Normalize.Errors.{event_error, first_error, normalize-eq-err}

-- The error names the package, and the kind and the path of an fs event.
pub data Names (pkg : Text) (raw : RawEvent) (e : NormalizeError) : Type 0 where
  of_read :
      (f : FsEvent)
      → raw ≡ RawEvent.read f
      → e ≡ missing_pkg_dir pkg read_kind f.path
      → Names pkg raw e
  of_write :
      (f : FsEvent)
      → raw ≡ RawEvent.write f
      → e ≡ missing_pkg_dir pkg write_kind f.path
      → Names pkg raw e

module _ (ctx : NormalizeContext) (roots : TokenizeRoots) where
  -- An fs event, not noise, of a package that has no directory, is no key of the root and is not
  -- `<unattributed>`.
  abbrev pub Fails : AttributedEvent → NormalizeError → Type 0
  Fails ev e =
      (is_system_noise (os_of ctx) roots ev.raw ≡ false)
      × (lookup ev.pkg ctx.pkg_dirs ≡ none)
      × (optional_has ctx.root_pkg_keys ev.pkg ≡ false)
      × (ev.pkg ≢ codes "<unattributed>")
      × Names ev.pkg ev.raw e

  -- The first event that fails.
  pub data FirstFails (e : NormalizeError) : List AttributedEvent → Type 0 where
    here :
        {ev : AttributedEvent} {events : List AttributedEvent}
        → Fails ev e
        → FirstFails e (ev ∷ events)
    later :
        {ev : AttributedEvent} {events : List AttributedEvent}
        → ((e' : NormalizeError) → ¬ Fails ev e')
        → FirstFails e events
        → FirstFails e (ev ∷ events)

  fs_error-Names :
      (pkg : Text) (raw : RawEvent) (e : NormalizeError)
      → fs_error pkg raw ≡ some e ↔ Names pkg raw e
  fs_error-Names pkg raw e = (to raw, from)
    where
      to : (raw : RawEvent) → fs_error pkg raw ≡ some e → Names pkg raw e
      to (read f) h = of_read f refl (cc)
      to (write f) h = of_write f refl (cc)
      to (env_read f) h = cc
      to (spawn f) h = cc
      to (dlopen f) h = cc
      to (connect f) h = cc
      to (exec f) h = cc
      to (env_tamper f) h = cc

      from : Names pkg raw e → fs_error pkg raw ≡ some e
      from (of_read f r n) = rw (r, n) refl
      from (of_write f r n) = rw (r, n) refl

  event_error_to :
      (ev : AttributedEvent) (e : NormalizeError) → event_error ctx roots ev ≡ some e → Fails ev e
  unfolding event_error pkg_dir_error claims_root
  event_error_to ev e h = elim (Bool-cases (is_system_noise (os_of ctx) roots ev.raw)) [
    | inl n ↦ let never : none ≡ some e = rw n at h in cc
    | inr n ↦ elim (Option-cases (lookup ev.pkg ctx.pkg_dirs)) [
      | inr (d, l) ↦ let never : none ≡ some e = rw (n, l) at h in cc
      | inl l ↦ elim (Bool-cases (optional_has ctx.root_pkg_keys ev.pkg)) [
        | inl k ↦ let never : none ≡ some e = rw (n, l, k) at h in cc
        | inr k ↦ elim (Bool-cases (text_eq ev.pkg (codes "<unattributed>"))) [
          | inl u ↦ let never : none ≡ some e = rw (n, l, k, u) at h in cc
          | inr u ↦
              let thrown : fs_error ev.pkg ev.raw ≡ some e = rw (n, l, k, u) at h in
              (n, l, k, other u, (fs_error-Names ev.pkg ev.raw e).0 thrown)
        ]
      ]
    ]
  ]
    where
      other : text_eq ev.pkg (codes "<unattributed>") ≡ false → ev.pkg ≢ codes "<unattributed>"
      other u same =
          let held : text_eq ev.pkg (codes "<unattributed>") ≡ true =
            ap (text_eq ev.pkg) (sym same) ∙ text_eq_self ev.pkg in
          cc

  event_error_from :
      (ev : AttributedEvent) (e : NormalizeError) → Fails ev e → event_error ctx roots ev ≡ some e
  unfolding event_error pkg_dir_error claims_root
  event_error_from ev e (n, l, k, u, names) =
      elim (Bool-cases (text_eq ev.pkg (codes "<unattributed>"))) [
        | inl same ↦ absurd (u (eq_of_text_eq ev.pkg (codes "<unattributed>") same))
        | inr other ↦ rw (n, l, k, other) ((fs_error-Names ev.pkg ev.raw e).1 names)
      ]

  first_error_to :
      (events : List AttributedEvent) (e : NormalizeError)
      → first_error ctx roots events ≡ some e
      → FirstFails e events
  unfolding first_error
  first_error_to [] e h = cc
  first_error_to (ev ∷ events) e h = elim (Option-cases (event_error ctx roots ev)) [
    | inr (e', bad) ↦
        let same : some e' ≡ some e = rw bad at h in here (event_error_to ev e (bad ∙ same))
    | inl fine ↦
        let rest : first_error ctx roots events ≡ some e = rw fine at h in
        later (λ e' f. let bad = event_error_from ev e' f in cc) (first_error_to events e rest)
  ]

  first_error_from :
      (events : List AttributedEvent) (e : NormalizeError)
      → FirstFails e events
      → first_error ctx roots events ≡ some e
  unfolding first_error
  first_error_from [] e f = elim f [ ]
  first_error_from (ev ∷ events) e (here f) = rw (event_error_from ev e f) refl
  first_error_from (ev ∷ events) e (later fine f) = elim (Option-cases (event_error ctx roots ev)) [
    | inr (e', bad) ↦ absurd (fine e' (event_error_to ev e' bad))
    | inl none_there ↦ rw none_there (first_error_from events e f)
  ]

-- `normalize` throws exactly at the first fs event, noise left aside, of a package that has no
-- directory, is no key of the root and is not `<unattributed>`, with an error that names the package,
-- the kind and the path of that event.
pub normalize-FirstFails :
    (events : List AttributedEvent) (ctx : NormalizeContext) (e : NormalizeError)
    → (normalize events ctx ≡ err e)
      ↔ FirstFails ctx (canonicalize_tokenize_roots ctx.roots) e events
normalize-FirstFails events ctx e =
    let roots = canonicalize_tokenize_roots ctx.roots in
    let (to, from) = normalize-eq-err events ctx e in
    (
      λ h. first_error_to ctx roots events e (to h),
      λ f. from (first_error_from ctx roots events e f),
    )
