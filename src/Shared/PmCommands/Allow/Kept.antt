-- ===== src/Shared/PmCommands/Allow/Kept.antt =====
-- What the filter keeps.
use script_jail.Base.{
  ℕ, Bool, true, false, ◌&&◌, List, [], ◌∷◌, ◌++◌, Option, none, some, Text, codes, starts_with,
  lookup, ◌==◌, ◌≡◌, refl, sym, ◌∙◌, ap, subst, inl, inr, Bool-cases, Option-cases,
}
use script_jail.Shared.PmCommands.Flags.{Platform, is_bare_flag, joined_value, canonical_flag_key}
use script_jail.Shared.PmCommands.Allow.{
  AllowEntry, Allowlist, SanitizeResult, Verdict, keep, keep_with_value, value_of, split_value,
  or_split, is_rejected, keep_value, drop_value, drop_reason, judge_allowed, judge_flag, judge_key,
  judge, add_kept, settle_last, settle, filter_against_allowlist,
}

abbrev is_keep : Verdict → Bool
is_keep Verdict.keep = true
is_keep Verdict.keep_with_value = true
is_keep (Verdict.drop reason) = false
is_keep (Verdict.drop_with_value reason) = false

is_keep-drop_value :
    (reason : Text) (value : Option Text) → is_keep (drop_value reason value) ≡ false
is_keep-drop_value reason none = refl
is_keep-drop_value reason (some value) = refl

-- Two next arguments of which neither is a value are the same to a flag.
split_value-none :
    (e : AllowEntry) (a : Text) (next : Option Text)
    → value_of next ≡ none
    → split_value e a next ≡ none
split_value-none e a next h = elim (Bool-cases (e.takes_value && is_bare_flag a)) [
  | inl t ↦ rw t h
  | inr f ↦ rw f refl
]

abbrev pub head : List Text → Option Text
head [] = none
head (a ∷ rest) = some a

module _ (platform : Platform) (allow : Allowlist) where
  -- A flag whose key is on the list, with a value that its entry does not reject.
  pub data IsAllowed (a : Text) (next : Option Text) : Type 0 where
    allowed :
        (c : ℕ) (key : Text) (entry : AllowEntry)
        → canonical_flag_key platform a ≡ some (c ∷ key)
        → lookup (c ∷ key) allow ≡ some entry
        → is_rejected entry.reject_value (or_split (joined_value a) (split_value entry a next))
          ≡ false
        → IsAllowed a next

  judge_allowed-kept :
      (key : Text) (entry : AllowEntry) (a : Text) (split : Option Text)
      → is_keep (judge_allowed key entry a split) ≡ true
      → is_rejected entry.reject_value (or_split (joined_value a) split) ≡ false
  judge_allowed-kept key entry a split h =
      elim (Bool-cases (is_rejected entry.reject_value (or_split (joined_value a) split))) [
        | inr f ↦ f
        | inl t ↦
            let dropped : is_keep (drop_value (drop_reason key) split) ≡ true = rw t at h in
            cc (dropped, is_keep-drop_value (drop_reason key) split)
      ]

  not_kept : (key a : Text) (next : Option Text) → is_keep (judge_flag key none a next) ≡ false
  not_kept key a next = elim (Bool-cases (is_bare_flag a)) [
    | inl t ↦ rw t (is_keep-drop_value (drop_reason key) (value_of next))
    | inr f ↦ rw f refl
  ]

  judge_key-IsAllowed :
      (a : Text) (next key : Option Text)
      → canonical_flag_key platform a ≡ key
      → is_keep (judge_key allow key a next) ≡ true
      → IsAllowed a next
  judge_key-IsAllowed a next none k h = cc
  judge_key-IsAllowed a next (some []) k h = cc
  judge_key-IsAllowed a next (some (c ∷ key)) k h = elim (Option-cases (lookup (c ∷ key) allow)) [
    | inl n ↦
        let kept : is_keep (judge_flag (c ∷ key) none a next) ≡ true = rw n at h in
        cc (kept, not_kept (c ∷ key) a next)
    | inr (entry, e) ↦
        let kept : is_keep (judge_allowed (c ∷ key) entry a (split_value entry a next)) ≡ true =
          rw e at h in
        IsAllowed.allowed c key entry k e
          (judge_allowed-kept (c ∷ key) entry a (split_value entry a next) kept)
  ]

  judge-IsAllowed :
      (a : Text) (next : Option Text)
      → is_keep (judge platform allow a next) ≡ true
      → IsAllowed a next
  unfolding judge
  judge-IsAllowed a next h = judge_key-IsAllowed a next (canonical_flag_key platform a) refl h

  -- How an allowed flag is judged.
  judge-keep_value :
      (a : Text) (next : Option Text) (c : ℕ) (key : Text) (entry : AllowEntry)
      → canonical_flag_key platform a ≡ some (c ∷ key)
      → lookup (c ∷ key) allow ≡ some entry
      → is_rejected entry.reject_value (or_split (joined_value a) (split_value entry a next))
        ≡ false
      → judge platform allow a next ≡ keep_value (split_value entry a next)
  unfolding judge
  judge-keep_value a next c key entry k e r = rw (k, e, r) refl

  -- A flag that is kept alone is kept before any argument that is no value.
  judge-keep :
      (a : Text) (next other : Option Text)
      → judge platform allow a next ≡ keep
      → value_of other ≡ none
      → judge platform allow a other ≡ keep
  judge-keep a next other h v = elim (judge-IsAllowed a next (ap is_keep h)) [
    | IsAllowed.allowed c key entry k e r ↦
        let alone : split_value entry a next ≡ none =
          keep_value-none (split_value entry a next)
            (sym (judge-keep_value a next c key entry k e r) ∙ h) in
        let none_too = split_value-none entry a other v in
        judge-keep_value a other c key entry k e (
          subst (λ s. is_rejected entry.reject_value (or_split (joined_value a) s) ≡ false)
            (alone ∙ sym none_too) r)
        ∙ ap keep_value none_too
  ]
    where
      keep_value-none : (s : Option Text) → keep_value s ≡ keep → s ≡ none
      keep_value-none none e = refl
      keep_value-none (some value) e = cc

  dash_of_key :
      (a key : Text) → canonical_flag_key platform a ≡ some key → starts_with a (codes "-") ≡ true
  unfolding canonical_flag_key starts_with
  dash_of_key [] key h = cc
  dash_of_key (x ∷ a) key h = elim (Bool-cases (x == b'-')) [
    | inl t ↦ rw t refl
    | inr f ↦ let never : none ≡ some key = rw f at h in cc
  ]

  value_of_dash : (a : Text) → starts_with a (codes "-") ≡ true → value_of (some a) ≡ none
  value_of_dash a h = rw h refl

  -- A flag is no value.
  value_of_flag :
      (a : Text) (next : Option Text)
      → is_keep (judge platform allow a next) ≡ true
      → value_of (some a) ≡ none
  value_of_flag a next h = elim (judge-IsAllowed a next h) [
    | IsAllowed.allowed c key entry k e r ↦ value_of_dash a (dash_of_key a (c ∷ key) k)
  ]

  -- What is kept as a value is no flag.
  value_has_no_key :
      (a b key : Text)
      → judge platform allow a (some b) ≡ keep_with_value
      → canonical_flag_key platform b ≡ some key
      → ⊥
  value_has_no_key a b key h k = elim (judge-IsAllowed a (some b) (ap is_keep h)) [
    | IsAllowed.allowed c flag entry k' e r ↦
        let none_split =
          split_value-none entry a (some b) (value_of_dash b (dash_of_key b key k)) in
        let kept : keep_value (split_value entry a (some b)) ≡ keep_with_value =
          sym (judge-keep_value a (some b) c flag entry k' e r) ∙ h in
        let wrong : keep ≡ keep_with_value = rw none_split at kept in cc
  ]

  -- Kept arguments: flags, each alone or with its value.
  pub data Groups : List Text → Type 0 where
    done : Groups []
    alone :
        {a : Text} {rest : List Text}
        → judge platform allow a none ≡ keep
        → Groups rest
        → Groups (a ∷ rest)
    with_value :
        {a b : Text} {rest : List Text}
        → judge platform allow a (some b) ≡ keep_with_value
        → Groups rest
        → Groups (a ∷ b ∷ rest)

  -- No value stands in front.
  Groups-head : {args : List Text} → Groups args → value_of (head args) ≡ none
  Groups-head Groups.done = refl
  Groups-head (Groups.alone {a} j g) = value_of_flag a none (ap is_keep j)
  Groups-head (Groups.with_value {a} {b} j g) = value_of_flag a (some b) (ap is_keep j)

  no_value_alone : (a : Text) → judge platform allow a none ≡ keep_with_value → ⊥
  no_value_alone a h = elim (judge-IsAllowed a none (ap is_keep h)) [
    | IsAllowed.allowed c key entry k e r ↦
        let kept : keep_value (split_value entry a none) ≡ keep_with_value =
          sym (judge-keep_value a none c key entry k e r) ∙ h in
        let wrong : keep ≡ keep_with_value = rw (split_value-none entry a none refl) at kept in cc
  ]

  settle_last-Groups :
      (a : Text) (v : Verdict) → judge platform allow a none ≡ v → Groups (settle_last a v).kept
  settle_last-Groups a Verdict.keep h = Groups.alone h Groups.done
  settle_last-Groups a Verdict.keep_with_value h = absurd (no_value_alone a h)
  settle_last-Groups a (Verdict.drop reason) h = Groups.done
  settle_last-Groups a (Verdict.drop_with_value reason) h = Groups.done

  settle-Groups :
      (a b : Text) (v : Verdict) (at_next after_next : Unit {0} → SanitizeResult)
      → judge platform allow a (some b) ≡ v
      → Groups (at_next tt).kept
      → Groups (after_next tt).kept
      → Groups (settle a b v at_next after_next).kept
  settle-Groups a b Verdict.keep at_next after_next h g k =
      Groups.alone (judge-keep a (some b) none h refl) g
  settle-Groups a b Verdict.keep_with_value at_next after_next h g k = Groups.with_value h k
  settle-Groups a b (Verdict.drop reason) at_next after_next h g k = g
  settle-Groups a b (Verdict.drop_with_value reason) at_next after_next h g k = k

  pub filter_next :
      (a b : Text) (args : List Text)
      → filter_against_allowlist platform allow (a ∷ b ∷ args)
        ≡ settle a b
            (judge platform allow a (some b))
            (λ _. filter_against_allowlist platform allow (b ∷ args))
            (λ _. filter_against_allowlist platform allow args)
  unfolding filter_against_allowlist
  filter_next a b args = refl

  filter-Groups : (args : List Text) → Groups (filter_against_allowlist platform allow args).kept
  filter-Groups [] = unfold filter_against_allowlist in Groups.done
  filter-Groups (a ∷ []) =
      unfold filter_against_allowlist in settle_last-Groups a (judge platform allow a none) refl
  filter-Groups (a ∷ b ∷ args) =
      subst (λ r. Groups r.kept) (sym (filter_next a b args))
        (settle-Groups a b (judge platform allow a (some b)) _ _ refl (filter-Groups (b ∷ args))
          (filter-Groups args))

  -- Groups go through unchanged.
  filter-alone :
      (a : Text) (rest : List Text)
      → judge platform allow a none ≡ keep
      → value_of (head rest) ≡ none
      → filter_against_allowlist platform allow (a ∷ rest)
        ≡ add_kept a (filter_against_allowlist platform allow rest)
  filter-alone a [] h v = unfold filter_against_allowlist in (rw h refl)
  filter-alone a (b ∷ rest) h v = filter_next a b rest ∙ (rw (judge-keep a none (some b) h v) refl)

  Groups-unchanged :
      {args : List Text}
      → Groups args
      → filter_against_allowlist platform allow args
        ≡ record { kept = args; dropped = []; dropped_keys = [] }
  Groups-unchanged Groups.done = unfold filter_against_allowlist in refl
  Groups-unchanged (Groups.alone {a} {rest} j g) =
      filter-alone a rest j (Groups-head g) ∙ ap (add_kept a) (Groups-unchanged g)
  Groups-unchanged (Groups.with_value {a} {b} {rest} j g) =
      filter_next a b rest ∙ (rw j (ap (λ r. add_kept a (add_kept b r)) (Groups-unchanged g)))

  -- What was kept is kept again, all of it and as it stands: the filter that the guest applies to
  -- what the host has filtered changes nothing.
  pub filter_against_allowlist_idem :
      (args : List Text)
      → filter_against_allowlist platform allow (filter_against_allowlist platform allow args).kept
        ≡ record {
          kept = (filter_against_allowlist platform allow args).kept;
          dropped = [];
          dropped_keys = [];
        }
  filter_against_allowlist_idem args = Groups-unchanged (filter-Groups args)

  -- A flag among groups is allowed, with the value that follows it if there is one.
  Groups-IsAllowed :
      {args : List Text} (before after : List Text) (a key : Text)
      → Groups args
      → args ≡ before ++ a ∷ after
      → canonical_flag_key platform a ≡ some key
      → IsAllowed a (head after)
  Groups-IsAllowed before after a key Groups.done e k = absurd (empty_without before e)
    where
      empty_without : (xs : List Text) → [] ≡ xs ++ a ∷ after → ⊥
      empty_without [] h = cc
      empty_without (x ∷ xs) h = cc
  Groups-IsAllowed [] after a key (Groups.alone {a = x} {rest = rest} j g) e k =
      let same : x ≡ a = cc in
      let tail : rest ≡ after = cc in
      let kept : judge platform allow a none ≡ keep =
        subst (λ y. judge platform allow y none ≡ keep) same j in
      judge-IsAllowed a (head after) (
        ap is_keep (
          judge-keep a none (head after) kept
            (ap (λ r. value_of (head r)) (sym tail) ∙ Groups-head g)))
  Groups-IsAllowed (y ∷ before) after a key (Groups.alone {a = x} {rest = rest} j g) e k =
      let tail : rest ≡ before ++ a ∷ after = cc in Groups-IsAllowed before after a key g tail k
  Groups-IsAllowed [] after a key (Groups.with_value {a = x} {b = b} {rest = rest} j g) e k =
      let same : x ≡ a = cc in
      let tail : b ∷ rest ≡ after = cc in
      let kept : judge platform allow a (head after) ≡ keep_with_value =
        subst (λ n. judge platform allow a n ≡ keep_with_value) (ap head tail)
          (subst (λ y. judge platform allow y (some b) ≡ keep_with_value) same j) in
      judge-IsAllowed a (head after) (ap is_keep kept)
  Groups-IsAllowed (y ∷ []) after a key (Groups.with_value {a = x} {b = b} {rest = rest} j g) e k =
      let same : b ≡ a = cc in
      absurd (value_has_no_key x b key j (ap (canonical_flag_key platform) same ∙ k))
  Groups-IsAllowed (y ∷ z ∷ before) after a key
        (Groups.with_value {a = x} {b = b} {rest = rest} j g) e k =
      let tail : rest ≡ before ++ a ∷ after = cc in Groups-IsAllowed before after a key g tail k

  -- Whatever flag is kept, its key is on the allowlist, with an entry that does not reject the
  -- value which the flag has among the kept arguments.
  pub filter-IsAllowed :
      (args before after : List Text) (a key : Text)
      → (filter_against_allowlist platform allow args).kept ≡ before ++ a ∷ after
      → canonical_flag_key platform a ≡ some key
      → IsAllowed a (head after)
  filter-IsAllowed args before after a key e k =
      Groups-IsAllowed before after a key (filter-Groups args) e k
