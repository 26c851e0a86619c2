-- ===== src/Action/Diff/Egress.antt =====
-- Which recorded egress is announced as bound for the host.
use mathlib.Core.List.{Memᴰ}
use script_jail.Base.{
  Bool, text_eq_self, eq_of_text_eq, contains, codes, ◌⊎◌, true, false, not, List, [], ◌∷◌, Text,
  starts_with, starts_with-append, filter, if◌then◌else◌, ◌≡◌, refl, ap, ◌∙◌, arith, ◌↔◌, inl, inr,
  Bool-cases,
}
use script_jail.Lock.Schema.{Manager, npm, pnpm, yarn, NetworkEvent, Field}
use script_jail.Lock.Normalize.Entries.{Place, Entry, forged_root, connect_entries}
use script_jail.Action.Diff.{Found, is_pnpm, is_audited_only, partition}

filter_cons :
    (p : Found → Bool) (d : Found) (es : List Found)
    → filter p (d ∷ es) ≡ (if p d then d ∷ filter p es else filter p es)
filter_cons p d es = refl

-- The members of a list on which a test holds.
mem-filter :
    (p : Found → Bool) (es : List Found) (e : Found)
    → Memᴰ e (filter p es) ↔ (Memᴰ e es × (p e ≡ true))
mem-filter p [] e = (λ m. absurd (elim m [ ]), λ q. absurd (elim q.0 [ ]))
mem-filter p (d ∷ es) e =
    let (to, from) = mem-filter p es e in
    elim (Bool-cases (p d)) [
      | inl h ↦ rw h (
        λ (m : Memᴰ e (d ∷ filter p es)). elim m [
          | Memᴰ.head same ↦ (Memᴰ.head same, ap p same ∙ h)
          | Memᴰ.tail m' ↦ let (m'', k) = to m' in (Memᴰ.tail m'', k)
        ],
        λ (m, k). elim m [
          | Memᴰ.head same ↦ Memᴰ.head same
          | Memᴰ.tail m' ↦ Memᴰ.tail (from (m', k))
        ],
      )
      | inr h ↦ rw h (
        λ (m : Memᴰ e (filter p es)). let (m', k) = to m in (Memᴰ.tail m', k),
        λ (m, k). elim m [ Memᴰ.head same ↦ absurd (cc (ap p same)) | Memᴰ.tail m' ↦ from (m', k) ],
      )
    ]

rendered_forged :
    (l : Place) (connect : NetworkEvent) (t : Text)
    → l.forged_prefix ≡ forged_root
    → Memᴰ (Field.network_attempts, t) (connect_entries l connect)
    → starts_with t forged_root ≡ true
unfolding connect_entries
rendered_forged l connect t forged (Memᴰ.head same) =
    ap (λ (e : Entry). starts_with e.1 forged_root) same
    ∙ rw forged (starts_with-append forged_root _)
rendered_forged l connect t forged (Memᴰ.tail m) = absurd (elim m [ ])

module _ (manager : Manager) (ids : List Text) where
  partition-filter :
      (es : List Found)
      → partition manager ids es ≡ (
        filter (is_audited_only manager ids) es,
        filter (λ e. not (is_audited_only manager ids e)) es,
      )
  unfolding partition
  partition-filter [] = refl
  partition-filter (d ∷ es) = elim (Bool-cases (is_audited_only manager ids d)) [
    | inl h ↦ rw (partition-filter es, h) refl
    | inr h ↦ rw (partition-filter es, h) refl
  ]

  false_of_not : (b : Bool) → not b ≡ true → b ≡ false
  false_of_not b h = ground arith

  tests_lem :
      (es : List Found) (e : Found)
      → (Memᴰ e (partition manager ids es).0 ↔ (Memᴰ e es × (is_audited_only manager ids e ≡ true)))
        × (Memᴰ e (partition manager ids es).1
            ↔ (Memᴰ e es × (is_audited_only manager ids e ≡ false)))
  tests_lem es e =
      let (to, from) = mem-filter (λ d. not (is_audited_only manager ids d)) es e in
      rw (partition-filter es) (
        mem-filter (is_audited_only manager ids) es e,
        (
          λ m. let (m', k) = to m in (m', false_of_not (is_audited_only manager ids e) k),
          λ (m, k). from (m, ap not k),
        ),
      )

  -- An attempt that is recorded for the stage `prepare` of a package that is a key of the root, without
  -- the mark of a forged root, where the manager is `npm` or `yarn`.
  abbrev pub IsRootPrepare : Found → Type 0
  IsRootPrepare e =
      (e.stage ≡ codes "prepare")
      × ((manager ≡ npm) ⊎ (manager ≡ yarn))
      × (contains ids e.package_id ≡ true)
      × (starts_with e.entry (codes "<FORGED_ROOT> ") ≡ false)

  is_audited_only-IsRootPrepare :
      (e : Found) → is_audited_only manager ids e ≡ true → IsRootPrepare e
  unfolding is_audited_only
  is_audited_only-IsRootPrepare e h = (
    eq_of_text_eq e.stage (codes "prepare") (ground arith),
    other_manager manager (ground arith),
    ground arith,
    ground arith,
  )
    where
      other_manager : (m : Manager) → not (is_pnpm m) ≡ true → (m ≡ npm) ⊎ (m ≡ yarn)
      other_manager npm h = inl refl
      other_manager pnpm h = cc
      other_manager yarn h = inr refl

  IsRootPrepare-is_audited_only :
      (e : Found) → IsRootPrepare e → is_audited_only manager ids e ≡ true
  unfolding is_audited_only
  IsRootPrepare-is_audited_only e (stage, inl m, key, mark) =
      rw (stage, m, key, mark, text_eq_self (codes "prepare")) refl
  IsRootPrepare-is_audited_only e (stage, inr m, key, mark) =
      rw (stage, m, key, mark, text_eq_self (codes "prepare")) refl

  not-IsRootPrepare : (e : Found) → is_audited_only manager ids e ≡ false ↔ ¬ IsRootPrepare e
  not-IsRootPrepare e = (
    λ out p. let held = IsRootPrepare-is_audited_only e p in cc,
    λ refused. elim (Bool-cases (is_audited_only manager ids e)) [
      | inl held ↦ absurd (refused (is_audited_only-IsRootPrepare e held))
      | inr kept ↦ kept
    ],
  )

  -- Each recorded attempt is on exactly one side: with those that were audited only if it is recorded
  -- for the stage `prepare` of a key of the root, without the mark of a forged root, under `npm` or
  -- `yarn`, and else with those that are bound for the host.
  pub partition_lem :
      (es : List Found) (e : Found)
      → (Memᴰ e (partition manager ids es).0 ↔ (Memᴰ e es × IsRootPrepare e))
        × (Memᴰ e (partition manager ids es).1 ↔ (Memᴰ e es × (¬ IsRootPrepare e)))
  partition_lem es e =
      let ((to, from), (to', from')) = tests_lem es e in
      let (never, none_there) = not-IsRootPrepare e in
      (
        (
          λ m. let (l, k) = to m in (l, is_audited_only-IsRootPrepare e k),
          λ (l, p). from (l, IsRootPrepare-is_audited_only e p),
        ),
        (λ m. let (l, k) = to' m in (l, never k), λ (l, p). from' (l, none_there p)),
      )

  forged_not_audited :
      (e : Found) → starts_with e.entry forged_root ≡ true → is_audited_only manager ids e ≡ false
  unfolding is_audited_only
  forged_not_audited e h = rw h (ground arith)

  -- An attempt that holds the text of a connect event of a forged root is counted among those that are
  -- bound for the host, whatever package and stage it is recorded for, and not among those that were
  -- audited only.
  pub forged_connect_host_bound :
      (l : Place) (connect : NetworkEvent) (es : List Found) (e : Found)
      → l.forged_prefix ≡ forged_root
      → Memᴰ (Field.network_attempts, e.entry) (connect_entries l connect)
      → Memᴰ e es
      → Memᴰ e (partition manager ids es).1 × ¬ Memᴰ e (partition manager ids es).0
  forged_connect_host_bound l connect es e forged rendered listed =
      let ((to, _), (_, from)) = tests_lem es e in
      let mark = forged_not_audited e (rendered_forged l connect e.entry forged rendered) in
      (from (listed, mark), λ m. let (_, k) = to m in cc)
