-- ===== src/Guest/Attribution/Cache.antt =====
-- The cache between calls, while /proc changes under it.
use script_jail.Base.{
  ℕ, false, List, [], ◌∷◌, Option, none, some, ◌==◌, ==_iff, ==_self, if◌then◌else◌, ◌≡◌, refl, ◌∙◌,
  inl, inr, Bool-cases,
}
use script_jail.Guest.Pids.{get_pid, get_pid-set_pid, get_pid-delete_pid}
use script_jail.Guest.Attribution.{
  AttributionResult, ProcReader, RootIdentity, walk, Cache, answer, attribute, invalidate,
}

-- A call of the object: /proc as it stands then is part of it.
pub data Call : Type 0 where
  attributed : ProcReader → ℕ → Call
  invalidated : ℕ → Call

module _ (root : RootIdentity) where
  abbrev pub after_call : Call → Cache → Cache
  after_call (attributed reader pid) cache = (attribute reader root pid cache).0
  after_call (invalidated pid) cache = invalidate pid cache

  -- The cache after some calls, the last one in front.
  abbrev pub after_calls : List Call → Cache
  after_calls [] = []
  after_calls (call ∷ calls) = after_call call (after_calls calls)

  abbrev or_walk :
      ProcReader → ℕ → Option (Option AttributionResult) → Option (Option AttributionResult)
  or_walk reader pid (some known) = some known
  or_walk reader pid none = some (walk reader root pid)

  -- The walk of the first call for `pid` since it was last invalidated, without a cache.
  abbrev pub first_walk : ℕ → List Call → Option (Option AttributionResult)
  first_walk pid [] = none
  first_walk pid (invalidated key ∷ calls) = if key == pid then none else first_walk pid calls
  first_walk pid (attributed reader key ∷ calls) =
      let known = first_walk pid calls in if key == pid then or_walk reader pid known else known

  answer-get_pid :
      (reader : ProcReader) (pid key : ℕ) (cache : Cache)
      (known : Option (Option AttributionResult))
      → get_pid key cache ≡ known
      → get_pid pid (answer reader root key cache known).0
        ≡ (if key == pid then or_walk reader pid (get_pid pid cache) else get_pid pid cache)
  answer-get_pid reader pid key cache known h = elim (Bool-cases (key == pid)) [
    | inl e ↦ let same = (==_iff key pid).0 e in rw (e, ← same) (at_key known h)
    | inr e ↦ rw e (elsewhere known e)
  ]
    where
      at_key :
          (o : Option (Option AttributionResult))
          → get_pid key cache ≡ o
          → get_pid key (answer reader root key cache o).0 ≡ or_walk reader key (get_pid key cache)
      at_key none h' =
          get_pid-set_pid key key (walk reader root key) cache ∙ (rw (==_self key, h') refl)
      at_key (some v) h' = rw h' refl

      elsewhere :
          (o : Option (Option AttributionResult))
          → key == pid ≡ false
          → get_pid pid (answer reader root key cache o).0 ≡ get_pid pid cache
      elsewhere none e = get_pid-set_pid pid key (walk reader root key) cache ∙ (rw e refl)
      elsewhere (some v) e = refl

  attribute-get_pid :
      (reader : ProcReader) (pid key : ℕ) (cache : Cache)
      → get_pid pid (attribute reader root key cache).0
        ≡ (if key == pid then or_walk reader pid (get_pid pid cache) else get_pid pid cache)
  unfolding attribute
  attribute-get_pid reader pid key cache =
      answer-get_pid reader pid key cache (get_pid key cache) refl

  invalidate-get_pid :
      (pid key : ℕ) (cache : Cache)
      → get_pid pid (invalidate key cache) ≡ (if key == pid then none else get_pid pid cache)
  unfolding invalidate
  invalidate-get_pid pid key cache = get_pid-delete_pid pid key cache

  -- After any calls the cache holds, for each process, what the first call for it since its last
  -- invalidation found in /proc as it stood at that call, and nothing if there was no such call.
  pub after_calls-first_walk :
      (calls : List Call) (pid : ℕ) → get_pid pid (after_calls calls) ≡ first_walk pid calls
  after_calls-first_walk [] pid = unfold get_pid in refl
  after_calls-first_walk (invalidated key ∷ calls) pid =
      rw (invalidate-get_pid pid key (after_calls calls), after_calls-first_walk calls pid) refl
  after_calls-first_walk (attributed reader key ∷ calls) pid =
      rw (attribute-get_pid reader pid key (after_calls calls), after_calls-first_walk calls pid)
        refl

  answer-value :
      (reader : ProcReader) (pid : ℕ) (cache : Cache) (known : Option (Option AttributionResult))
      → some (answer reader root pid cache known).1 ≡ or_walk reader pid known
  answer-value reader pid cache none = refl
  answer-value reader pid cache (some v) = refl

  -- After any calls, `attribute` answers with what the first call for the process since its last
  -- invalidation found in /proc as it stood at that call, or with a new walk if there was none.
  pub attribute-first_walk :
      (calls : List Call) (reader : ProcReader) (pid : ℕ)
      → some (attribute reader root pid (after_calls calls)).1
        ≡ first_walk pid (attributed reader pid ∷ calls)
  unfolding attribute
  attribute-first_walk calls reader pid =
      answer-value reader pid (after_calls calls) (get_pid pid (after_calls calls))
      ∙ (rw (after_calls-first_walk calls pid, ==_self pid) refl)
