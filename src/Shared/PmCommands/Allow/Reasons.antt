-- ===== src/Shared/PmCommands/Allow/Reasons.antt =====
-- Every argument is accounted for, and what is reported of those that are dropped.
use script_jail.Base.{
  Bool, true, ◌||◌, List, [], ◌∷◌, map, Option, none, some, Text, codes, text_eq, text_eq_self,
  contains, lookup, All, ◌≡◌, refl, sym, subst, inl, inr, arith, Bool-cases,
}
use script_jail.Shared.PmCommands.Flags.{Platform, is_bare_flag, joined_value, canonical_flag_key}
use script_jail.Shared.PmCommands.Allow.{
  AllowEntry, Allowlist, SanitizeResult, Verdict, value_of, split_value, or_split, is_rejected,
  keep_value, drop_value, drop_names, or_flag, drop_reason, judge_flag, judge_key, judge,
  settle_last, settle, filter_against_allowlist,
}
use script_jail.Shared.PmCommands.Allow.Kept.{filter_next}

-- The constants that a reason may be.
abbrev pub reasons : List Text
reasons = codes "<positional>" ∷ codes "<flag>" ∷ map (λ (p : Text × Text). p.1) drop_names

abbrev IsReason : Text → Type 0
IsReason t = contains reasons t ≡ true

-- The arguments, in their order, are dealt out to two lists.
pub data DealtOut : List Text → List Text → List Text → Type 0 where
  end : DealtOut [] [] []
  first :
      {a : Text} {kept dropped args : List Text}
      → DealtOut kept dropped args
      → DealtOut (a ∷ kept) dropped (a ∷ args)
  second :
      {a : Text} {kept dropped args : List Text}
      → DealtOut kept dropped args
      → DealtOut kept (a ∷ dropped) (a ∷ args)

or-true : (b : Bool) → (b || true) ≡ true
or-true b = ground arith

value_listed :
    (key name : Text) (m : List (Text × Text))
    → lookup key m ≡ some name
    → contains (map (λ (p : Text × Text). p.1) m) name ≡ true
unfolding lookup contains
value_listed key name [] h = cc
value_listed key name ((k, v) ∷ m) h = elim (Bool-cases (text_eq k key)) [
  | inl t ↦
      let found : some v ≡ some name = rw t at h in
      let same : v ≡ name = cc in rw same (rw (text_eq_self name) refl)
  | inr f ↦
      let later : lookup key m ≡ some name = rw f at h in
      let listed = value_listed key name m later in rw listed (or-true (text_eq v name))
]

or_flag-IsReason : (key : Text) (o : Option Text) → lookup key drop_names ≡ o → IsReason (or_flag o)
unfolding contains text_eq
or_flag-IsReason key none h = refl
or_flag-IsReason key (some name) h =
    let listed = value_listed key name drop_names h in
    rw (listed, or-true (text_eq (codes "<flag>") name))
      (or-true (text_eq (codes "<positional>") name))

drop_reason-IsReason : (key : Text) → IsReason (drop_reason key)
unfolding drop_reason
drop_reason-IsReason key = or_flag-IsReason key (lookup key drop_names) refl

-- The reason of a verdict, if it drops.
abbrev GivesReason : Verdict → Type 0
GivesReason Verdict.keep = Unit
GivesReason Verdict.keep_with_value = Unit
GivesReason (Verdict.drop reason) = IsReason reason
GivesReason (Verdict.drop_with_value reason) = IsReason reason

keep_value-GivesReason : (split : Option Text) → GivesReason (keep_value split)
keep_value-GivesReason none = tt
keep_value-GivesReason (some value) = tt

drop_value-GivesReason :
    (key : Text) (split : Option Text) → GivesReason (drop_value (drop_reason key) split)
drop_value-GivesReason key none = drop_reason-IsReason key
drop_value-GivesReason key (some value) = drop_reason-IsReason key

judge_flag-GivesReason :
    (key : Text) (entry : Option AllowEntry) (a : Text) (next : Option Text)
    → GivesReason (judge_flag key entry a next)
judge_flag-GivesReason key none a next = elim (Bool-cases (is_bare_flag a)) [
  | inl t ↦ rw t (drop_value-GivesReason key (value_of next))
  | inr f ↦ rw f (drop_reason-IsReason key)
]
judge_flag-GivesReason key (some entry) a next =
    elim (Bool-cases
      (is_rejected entry.reject_value (or_split (joined_value a) (split_value entry a next)))) [
        | inl t ↦ rw t (drop_value-GivesReason key (split_value entry a next))
        | inr f ↦ rw f (keep_value-GivesReason (split_value entry a next))
      ]

judge_key-GivesReason :
    (allow : Allowlist) (key : Option Text) (a : Text) (next : Option Text)
    → GivesReason (judge_key allow key a next)
unfolding contains text_eq
judge_key-GivesReason allow none a next = refl
judge_key-GivesReason allow (some []) a next = refl
judge_key-GivesReason allow (some (c ∷ key)) a next =
    judge_flag-GivesReason (c ∷ key) (lookup (c ∷ key) allow) a next

-- What is true of the result of a filter of some arguments.
abbrev pub Accounts : List Text → SanitizeResult → Type 0
Accounts args r = DealtOut r.kept r.dropped args × All IsReason r.dropped_keys

settle_last-Accounts :
    (a : Text) (v : Verdict) → GivesReason v → Accounts (a ∷ []) (settle_last a v)
settle_last-Accounts a Verdict.keep h = (DealtOut.first DealtOut.end, tt)
settle_last-Accounts a Verdict.keep_with_value h = (DealtOut.first DealtOut.end, tt)
settle_last-Accounts a (Verdict.drop reason) h = (DealtOut.second DealtOut.end, (h, tt))
settle_last-Accounts a (Verdict.drop_with_value reason) h = (DealtOut.second DealtOut.end, (h, tt))

settle-Accounts :
    (a b : Text) (args : List Text) (v : Verdict) (at_next after_next : Unit {0} → SanitizeResult)
    → GivesReason v
    → Accounts (b ∷ args) (at_next tt)
    → Accounts args (after_next tt)
    → Accounts (a ∷ b ∷ args) (settle a b v at_next after_next)
settle-Accounts a b args Verdict.keep at_next after_next h (g, gs) k = (DealtOut.first g, gs)
settle-Accounts a b args Verdict.keep_with_value at_next after_next h g (k, ks) =
    (DealtOut.first (DealtOut.first k), ks)
settle-Accounts a b args (Verdict.drop reason) at_next after_next h (g, gs) k =
    (DealtOut.second g, (h, gs))
settle-Accounts a b args (Verdict.drop_with_value reason) at_next after_next h g (k, ks) =
    (DealtOut.second (DealtOut.second k), (h, ks))

module _ (platform : Platform) (allow : Allowlist) where
  judge-GivesReason : (a : Text) (next : Option Text) → GivesReason (judge platform allow a next)
  unfolding judge
  judge-GivesReason a next = judge_key-GivesReason allow (canonical_flag_key platform a) a next

  -- Each argument is kept or dropped, once and in its order, and every reported reason is one of the
  -- constants: no part of an argument is reported.
  pub filter_against_allowlist-Accounts :
      (args : List Text) → Accounts args (filter_against_allowlist platform allow args)
  filter_against_allowlist-Accounts [] = unfold filter_against_allowlist in (DealtOut.end, tt)
  filter_against_allowlist-Accounts (a ∷ []) =
      unfold filter_against_allowlist in
      settle_last-Accounts a (judge platform allow a none) (judge-GivesReason a none)
  filter_against_allowlist-Accounts (a ∷ b ∷ args) =
      subst (Accounts (a ∷ b ∷ args)) (sym (filter_next platform allow a b args)) (
        settle-Accounts a b args (judge platform allow a (some b)) _ _
          (judge-GivesReason a (some b)) (filter_against_allowlist-Accounts (b ∷ args))
          (filter_against_allowlist-Accounts args))
