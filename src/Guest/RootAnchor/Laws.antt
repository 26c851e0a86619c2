-- ===== src/Guest/RootAnchor/Laws.antt =====
-- The verdict in terms of the process tree alone.
use script_jail.Base.{
  ℕ, zero, suc, ◌<◌, Bool, true, false, List, [], ◌∷◌, Option, none, some, ◌==◌, ==_iff,
  if◌then◌else◌, ◌≡◌, ◌↔◌, ◌⊎◌, inl, inr, refl, sym, ◌∙◌, ap, subst, arith, All, All-imp,
  Bool-cases,
}
use script_jail.Guest.RootAnchor.{
  RepoRootAnchorInput, max_depth, has_pid, is_disqualified, go_up, is_anchored_from,
  is_repo_root_anchored,
}

module _ (input : RepoRootAnchorInput) where
  -- A process that the walk passes: its number was used once, it is not the root, its directory is
  -- known, and if it ran a program of its own then in the repository.
  abbrev pub IsHop : ℕ → Type 0
  IsHop pid =
      (input.recycled pid ≡ false)
      × (pid == input.root_pid ≡ false)
      × (input.cwd_unknown pid ≡ false)
      × (is_disqualified input.work_dir (input.exec_cwd pid) ≡ false)

  -- From `pid` a number of parents leads to the root over hops alone.
  pub data Clean : ℕ → ℕ → Type 0 where
    root : {pid : ℕ} → input.recycled pid ≡ false → pid == input.root_pid ≡ true → Clean pid 0
    hop :
        {pid parent hops : ℕ}
        → IsHop pid
        → input.child_parent pid ≡ some parent
        → Clean parent hops
        → Clean pid (suc hops)

  -- Each process has one parent, so the number of parents to the root is fixed.
  Clean-unique : {pid m n : ℕ} → Clean pid m → Clean pid n → m ≡ n
  Clean-unique (Clean.root r e) (Clean.root r' e') = refl
  Clean-unique (Clean.root r e) (Clean.hop h p c) = cc
  Clean-unique (Clean.hop h p c) (Clean.root r e) = cc
  Clean-unique (Clean.hop {parent = a} {hops = m} h p c)
        (Clean.hop {parent = b} {hops = n} h' p' c') =
      let same : a ≡ b = cc in ap suc (Clean-unique c (subst (λ q. Clean q n) (sym same) c'))

  step_lem :
      (depth : ℕ) (seen : List ℕ) (cur : ℕ)
      → is_anchored_from input (suc depth) seen cur ≡ (
          if has_pid seen cur
          then false
          else (if input.recycled cur
              then false
              else (if cur == input.root_pid
                  then true
                  else (if input.cwd_unknown cur
                      then false
                      else (if is_disqualified input.work_dir (input.exec_cwd cur)
                          then false
                          else go_up
                              (input.child_parent cur)
                              (λ parent. is_anchored_from input depth (cur ∷ seen) parent))))))
  unfolding is_anchored_from
  step_lem depth seen cur = refl

-- The checks of one round, in their order.
abbrev round : Bool → Bool → Bool → Bool → Bool → Bool → Bool
round seen recycled is_root unknown disqualified rest =
    if seen
    then false
    else (if recycled
        then false
        else (if is_root
            then true
            else (if unknown then false else (if disqualified then false else rest))))

round-eq-true :
    (s r i u d rest : Bool)
    → round s r i u d rest ≡ true
    → (r ≡ false) × ((i ≡ true) ⊎ ((i ≡ false) × (u ≡ false) × (d ≡ false) × (rest ≡ true)))
round-eq-true s r true u d rest h = (ground arith, inl refl)
round-eq-true s r false u d rest h =
    (ground arith, inr (refl, ground arith, ground arith, ground arith))

go_up-eq-true :
    (next : Option ℕ) (f : ℕ → Bool)
    → go_up next f ≡ true
    → (parent : ℕ) × (next ≡ some parent) × (f parent ≡ true)
go_up-eq-true none f h = cc
go_up-eq-true (some parent) f h = (parent, refl, h)

-- A clean walk of fewer parents than a bound.
pub data IsAnchored (input : RepoRootAnchorInput) (pid bound : ℕ) : Type 0 where
  within : (hops : ℕ) → hops < bound → Clean input pid hops → IsAnchored input pid bound

module _ (input : RepoRootAnchorInput) where
  IsAnchored-hop :
      {pid parent bound : ℕ}
      → IsHop input pid
      → input.child_parent pid ≡ some parent
      → IsAnchored input parent bound
      → IsAnchored input pid (suc bound)
  IsAnchored-hop h p (IsAnchored.within hops lt c) =
      IsAnchored.within (suc hops) (omega arith) (Clean.hop h p c)

  is_anchored_from-IsAnchored :
      (depth : ℕ) (seen : List ℕ) (cur : ℕ)
      → is_anchored_from input depth seen cur ≡ true
      → IsAnchored input cur depth
  is_anchored_from-IsAnchored zero seen cur h =
      let never : is_anchored_from input 0 seen cur ≡ false = unfold is_anchored_from in refl in cc
  is_anchored_from-IsAnchored (suc depth) seen cur h =
      let (r, rest) =
        round-eq-true (has_pid seen cur) (input.recycled cur) (cur == input.root_pid)
          (input.cwd_unknown cur) (is_disqualified input.work_dir (input.exec_cwd cur)) _
          (sym (step_lem input depth seen cur) ∙ h) in
      elim rest [
        | inl e ↦ IsAnchored.within 0 (omega arith) (Clean.root r e)
        | inr (i, u, d, up) ↦
            let (parent, p, next) = go_up-eq-true (input.child_parent cur) _ up in
            IsAnchored-hop (r, i, u, d) p
              (is_anchored_from-IsAnchored depth (cur ∷ seen) parent next)
      ]

  -- Every process seen is further from the root.
  abbrev IsFurther : ℕ → ℕ → Type 0
  IsFurther hops pid = (m : ℕ) × (hops < m) × Clean input pid m

  IsFurther-not_seen :
      (seen : List ℕ) (cur hops : ℕ)
      → Clean input cur hops
      → All (IsFurther hops) seen
      → has_pid seen cur ≡ false
  unfolding has_pid
  IsFurther-not_seen [] cur hops c _ = refl
  IsFurther-not_seen (x ∷ seen) cur hops c ((m, lt, d), far) = elim (Bool-cases (x == cur)) [
    | inl e ↦
        let same : m ≡ hops =
          Clean-unique input (subst (λ q. Clean input q m) ((==_iff x cur).0 e) d) c in
        absurd (omega (arith, same, lt))
    | inr e ↦ rw e (IsFurther-not_seen seen cur hops c far)
  ]

  is_anchored_from_complete :
      {cur hops : ℕ} (depth : ℕ) (seen : List ℕ)
      → hops < depth
      → Clean input cur hops
      → All (IsFurther hops) seen
      → is_anchored_from input depth seen cur ≡ true
  is_anchored_from_complete zero seen lt c far = absurd (omega arith)
  is_anchored_from_complete {cur} {hops} (suc depth) seen lt (Clean.root r e) far =
      step_lem input depth seen cur
      ∙ (rw (IsFurther-not_seen seen cur 0 (Clean.root r e) far, r, e) refl)
  is_anchored_from_complete {cur} {hops} (suc depth) seen lt (Clean.hop {hops = n} (r, i, u, d) p c)
        far =
      step_lem input depth seen cur
      ∙ (rw (IsFurther-not_seen seen cur (suc n) (Clean.hop (r, i, u, d) p c) far, r, i, u, d, p)
          (is_anchored_from_complete depth (cur ∷ seen) (omega arith) c (
            (suc n, omega arith, Clean.hop (r, i, u, d) p c),
            All-imp (IsFurther (suc n)) (IsFurther n) seen (λ q f. (f.0, omega (arith, f.1), f.2))
                far,
          )))

  pub is_repo_root_anchored_lem :
      (is_repo_root_anchored input ≡ true) ↔ IsAnchored input input.pid max_depth
  unfolding is_repo_root_anchored
  is_repo_root_anchored_lem = (
    is_anchored_from-IsAnchored max_depth [] input.pid,
    λ a. elim a [ IsAnchored.within hops lt c ↦ is_anchored_from_complete max_depth [] lt c tt ],
  )

  -- `q` stands above `p`, no root below it.
  pub data Below : ℕ → ℕ → Type 0 where
    self : {pid : ℕ} → Below pid pid
    up :
        {pid parent top : ℕ}
        → pid == input.root_pid ≡ false
        → input.child_parent pid ≡ some parent
        → Below parent top
        → Below pid top

  Below-Clean :
      {pid top hops : ℕ} → Below pid top → Clean input pid hops → (m : ℕ) × Clean input top m
  Below-Clean Below.self c = (_, c)
  Below-Clean (Below.up n p b) (Clean.root r e) = cc
  Below-Clean (Below.up {parent = a} n p b) (Clean.hop {parent = q} {hops = k} h p' c) =
      let same : q ≡ a = cc in Below-Clean b (subst (λ x. Clean input x k) same c)

  Clean-not_outside :
      {pid hops : ℕ}
      → Clean input pid hops
      → pid == input.root_pid ≡ false
      → is_disqualified input.work_dir (input.exec_cwd pid) ≡ true
      → ⊥
  Clean-not_outside (Clean.root r i) n d = cc
  Clean-not_outside (Clean.hop (r, i, u, q) p c) n d = cc

  -- Neither a process that ran a program of its own outside the repository nor any process that
  -- descends from it below the root is anchored, whatever the maps say of the others.
  pub is_repo_root_anchored-outside :
      (top : ℕ)
      → Below input.pid top
      → top == input.root_pid ≡ false
      → is_disqualified input.work_dir (input.exec_cwd top) ≡ true
      → is_repo_root_anchored input ≡ false
  is_repo_root_anchored-outside top b n d = elim (Bool-cases (is_repo_root_anchored input)) [
    | inr e ↦ e
    | inl e ↦ elim (is_repo_root_anchored_lem.0 e) [
      | IsAnchored.within hops lt c ↦
          let (m, k) = Below-Clean b c in absurd (Clean-not_outside k n d)
    ]
  ]
