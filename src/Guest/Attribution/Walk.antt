-- ===== src/Guest/Attribution/Walk.antt =====
-- The walk over the ancestors, in terms of the process tree.
use script_jail.Base.{
  ℕ, zero, suc, ◌<◌, false, ◌||◌, Option, none, some, ◌==◌, if◌then◌else◌, ◌≡◌, ◌↔◌, inl, inr, refl,
  ◌∙◌, arith, Bool-cases,
}
use script_jail.Guest.Attribution.{
  AttributionResult, ProcReader, RootIdentity, env_attribution, or_parent, max_depth, walk_from,
  walk,
}

module _ (reader : ProcReader) (root : RootIdentity) where
  -- `pid` is no pseudo-process of the kernel.
  abbrev pub IsProcess : ℕ → Type 0
  IsProcess pid = (pid == 0 || pid == 1) ≡ false

  -- What the environment of a process says.
  abbrev pub own : ℕ → Option AttributionResult
  own pid = env_attribution root (reader.read_environ pid)

  -- From `pid` a number of parents leads to `ancestor`, over processes that name no package.
  pub data Climbs : ℕ → ℕ → ℕ → Type 0 where
    here : {pid : ℕ} → Climbs pid pid 0
    up :
        {pid parent ancestor hops : ℕ}
        → IsProcess pid
        → own pid ≡ none
        → reader.read_ppid pid ≡ some parent
        → Climbs parent ancestor hops
        → Climbs pid ancestor (suc hops)

  -- The nearest ancestor that names a package says so within a bound.
  pub data Nearest (pid bound : ℕ) (r : AttributionResult) : Type 0 where
    nearest :
        (ancestor hops : ℕ)
        → hops < bound
        → Climbs pid ancestor hops
        → IsProcess ancestor
        → own ancestor ≡ some r
        → Nearest pid bound r

  step_lem :
      (depth pid : ℕ)
      → walk_from reader root (suc depth) pid ≡ (
          if pid == 0 || pid == 1
          then none
          else or_parent (own pid) (reader.read_ppid pid) (walk_from reader root depth))
  unfolding walk_from
  step_lem depth pid = refl

  Nearest-up :
      {pid parent bound : ℕ} {r : AttributionResult}
      → IsProcess pid
      → own pid ≡ none
      → reader.read_ppid pid ≡ some parent
      → Nearest parent bound r
      → Nearest pid (suc bound) r
  Nearest-up p o u (Nearest.nearest ancestor hops lt c q e) =
      Nearest.nearest ancestor (suc hops) (omega arith) (Climbs.up p o u c) q e

  or_parent-Nearest :
      {bound pid : ℕ} {r : AttributionResult} (next : ℕ → Option AttributionResult)
      (o : Option AttributionResult) (parent : Option ℕ)
      → ((p : ℕ) → next p ≡ some r → Nearest p bound r)
      → IsProcess pid
      → own pid ≡ o
      → reader.read_ppid pid ≡ parent
      → or_parent o parent next ≡ some r
      → Nearest pid (suc bound) r
  or_parent-Nearest {pid = pid} next (some a) parent ih p o u h =
      Nearest.nearest pid 0 (omega arith) Climbs.here p (o ∙ h)
  or_parent-Nearest next none none ih p o u h = cc
  or_parent-Nearest next none (some parent) ih p o u h = Nearest-up p o u (ih parent h)

  walk_from-Nearest :
      (depth pid : ℕ) (r : AttributionResult)
      → walk_from reader root depth pid ≡ some r
      → Nearest pid depth r
  walk_from-Nearest zero pid r h =
      let never : walk_from reader root 0 pid ≡ none = unfold walk_from in refl in cc
  walk_from-Nearest (suc depth) pid r h = elim (Bool-cases (pid == 0 || pid == 1)) [
    | inl e ↦ let never : none ≡ some r = rw (step_lem depth pid, e) at h in cc
    | inr e ↦
        let rest : or_parent (own pid) (reader.read_ppid pid) (walk_from reader root depth)
            ≡ some r =
          rw (step_lem depth pid, e) at h in
        or_parent-Nearest (walk_from reader root depth) (own pid) (reader.read_ppid pid)
          (λ p k. walk_from-Nearest depth p r k) e refl refl rest
  ]

  walk_from_complete :
      {pid ancestor hops : ℕ} {r : AttributionResult} (depth : ℕ)
      → hops < depth
      → Climbs pid ancestor hops
      → IsProcess ancestor
      → own ancestor ≡ some r
      → walk_from reader root depth pid ≡ some r
  walk_from_complete zero lt c p e = absurd (omega arith)
  walk_from_complete {pid} (suc depth) lt Climbs.here p e = step_lem depth pid ∙ (rw (p, e) refl)
  walk_from_complete {pid} (suc depth) lt (Climbs.up q o u c) p e =
      step_lem depth pid ∙ (rw (q, o, u) (walk_from_complete depth (omega arith) c p e))

  -- The walk gives a result exactly when it is what the nearest ancestor that names a package says,
  -- the process itself first, fewer than 1,024 parents away and below the kernel's processes.
  pub walk_lem :
      (pid : ℕ) (r : AttributionResult) → (walk reader root pid ≡ some r) ↔ Nearest pid max_depth r
  walk_lem pid r = (
    walk_from-Nearest max_depth pid r,
    λ n. elim n [ Nearest.nearest ancestor hops lt c p e ↦ walk_from_complete max_depth lt c p e ],
  )
