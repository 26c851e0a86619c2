-- ===== src/Action/Select/Laws.antt =====
-- What is selected, and what comes of it.
use script_jail.Base.{
  Bool, true, false, List, [], ◌∷◌, ◌++◌, filter, All, some, Text, Result, ok, if◌then◌else◌, ◌≡◌,
  refl, sym, ap, ◌∙◌, subst, inl, inr, Bool-cases, Option-cases,
}
use script_jail.Action.Select.{
  ConcreteBackend, firecracker, docker, bare, RequestedBackend, auto, is_auto, is_aligned, Run,
  returned, unavailable, failed, Effect, selected, warned, SelectError, try_backend, try_each,
  order_of, base_order, rejected, run_selected_backend,
}

-- An effect touches no backend but those that the audit may use.
abbrev pub IsAllowed : (ConcreteBackend → Bool) → Effect → Type 0
IsAllowed p (selected b) = p b ≡ true
IsAllowed p (warned b message) = p b ≡ true

-- `run` says that a backend is not available.
abbrev pub IsUnavailable : {A : Type 0} → Run A → Type 0
IsUnavailable (returned a) = ⊥
IsUnavailable (unavailable message) = Unit
IsUnavailable (failed message) = ⊥

unavailable_message :
    {A : Type 0} (r : Run A) → IsUnavailable r → (message : Text) × (r ≡ unavailable message)
unavailable_message (returned a) u = absurd u
unavailable_message (unavailable message) u = (message, refl)
unavailable_message (failed message) u = absurd u

module _ {A : Type 0} (run : ConcreteBackend → Run A) (requested : RequestedBackend)
    (order : List ConcreteBackend) where
  try_each_cons :
      (missing : List (ConcreteBackend × Text)) (b : ConcreteBackend) (names : List ConcreteBackend)
      → try_each run requested order missing (b ∷ names)
        ≡ try_backend run requested b
            (run b)
            (λ message. try_each run requested order (missing ++ (b, message) ∷ []) names)
  unfolding try_each
  try_each_cons missing b names = refl

  module _ (p : ConcreteBackend → Bool) where
    try_backend-IsAllowed :
        (b : ConcreteBackend) (r : Run A) (later : Text → List Effect × Result SelectError A)
        → p b ≡ true
        → ((message : Text) → All (IsAllowed p) (later message).0)
        → All (IsAllowed p) (try_backend run requested b r later).0
    try_backend-IsAllowed b (returned a) later h k = (h, tt)
    try_backend-IsAllowed b (failed message) later h k = (h, tt)
    try_backend-IsAllowed b (unavailable message) later h k =
        elim (Bool-cases (is_auto requested)) [
          | inl e ↦ rw e (h, (h, k message))
          | inr e ↦ rw e (h, tt)
        ]

    try_each-IsAllowed :
        (missing : List (ConcreteBackend × Text)) (names : List ConcreteBackend)
        → All (λ b. p b ≡ true) names
        → All (IsAllowed p) (try_each run requested order missing names).0
    try_each-IsAllowed missing [] _ = unfold try_each in tt
    try_each-IsAllowed missing (b ∷ names) (h, hs) =
        subst (λ s. All (IsAllowed p) s.0) (sym (try_each_cons missing b names))
          (try_backend-IsAllowed b (run b) _ h
            (λ message. try_each-IsAllowed (missing ++ (b, message) ∷ []) names hs))

  -- The loop passes over what is not available.
  try_each-skips :
      (missing : List (ConcreteBackend × Text)) (before after : List ConcreteBackend)
      (b : ConcreteBackend) (a : A)
      → is_auto requested ≡ true
      → All (λ c. IsUnavailable (run c)) before
      → run b ≡ returned a
      → (try_each run requested order missing (before ++ b ∷ after)).1 ≡ ok a
  try_each-skips missing [] after b a e _ h =
      ap (λ s. s.1) (try_each_cons missing b after) ∙ rw h refl
  try_each-skips missing (c ∷ before) after b a e (u, us) h =
      let (message, m) = unavailable_message (run c) u in
      ap (λ s. s.1) (try_each_cons missing c (before ++ b ∷ after))
      ∙ rw (m, e) (try_each-skips (missing ++ (c, message) ∷ []) before after b a e us h)

filter-aligned : (bs : List ConcreteBackend) → All (λ b. is_aligned b ≡ true) (filter is_aligned bs)
filter-aligned [] = tt
filter-aligned (b ∷ bs) = elim (Bool-cases (is_aligned b)) [
  | inl e ↦ rw e (e, filter-aligned bs)
  | inr e ↦ rw e (filter-aligned bs)
]

module _ {A : Type 0} (run : ConcreteBackend → Run A) (requested : RequestedBackend) where
  -- Where the audit must be aligned with the repository, no backend is selected but the aligned ones,
  -- whatever is requested and whatever is available.
  pub run_selected_backend-IsAllowed :
      All (IsAllowed is_aligned) (run_selected_backend run requested (some true)).0
  unfolding run_selected_backend order_of
  run_selected_backend-IsAllowed = elim (Option-cases (rejected true requested)) [
    | inl e ↦
        rw e (
          try_each-IsAllowed run requested _ is_aligned [] _
            (filter-aligned (base_order requested)))
    | inr (b, e) ↦ rw e tt
  ]

-- On `auto` the result is that of the first backend of the order that is available, aligned or not as
-- the call asks, if that backend returns.
pub run_selected_backend-auto :
    {A : Type 0} (run : ConcreteBackend → Run A) (aligned : Bool)
    (before after : List ConcreteBackend) (b : ConcreteBackend) (a : A)
    → (if aligned then firecracker ∷ docker ∷ [] else firecracker ∷ docker ∷ bare ∷ [])
      ≡ before ++ b ∷ after
    → All (λ c. IsUnavailable (run c)) before
    → run b ≡ returned a
    → (run_selected_backend run auto (some aligned)).1 ≡ ok a
unfolding run_selected_backend order_of
run_selected_backend-auto run true before after b a split us h =
    ap (λ names. (try_each run auto (firecracker ∷ docker ∷ []) [] names).1) split
    ∙ try_each-skips run auto _ [] before after b a refl us h
run_selected_backend-auto run false before after b a split us h =
    ap (λ names. (try_each run auto (firecracker ∷ docker ∷ bare ∷ []) [] names).1) split
    ∙ try_each-skips run auto _ [] before after b a refl us h
