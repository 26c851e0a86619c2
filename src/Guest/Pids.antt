-- ===== src/Guest/Pids.antt =====
-- `Map<number, V>`, keyed by process ids: `get`, `set` and `delete`, in terms of the list of its
-- entries, the newest in front.
use script_jail.Base.{ℕ, List, [], ◌∷◌, Option, none, some, ◌==◌, if◌then◌else◌, ◌≡◌, refl, arith}

module _ {ℓ} {V : Type ℓ} where
  unfoldable pub get_pid : ℕ → List (ℕ × V) → Option V
  get_pid pid [] = none
  get_pid pid ((key, v) ∷ entries) = if key == pid then some v else get_pid pid entries

  abbrev pub set_pid : ℕ → V → List (ℕ × V) → List (ℕ × V)
  set_pid pid v entries = (pid, v) ∷ entries

  unfoldable pub delete_pid : ℕ → List (ℕ × V) → List (ℕ × V)
  delete_pid pid [] = []
  delete_pid pid ((key, v) ∷ entries) =
      let rest = delete_pid pid entries in if key == pid then rest else (key, v) ∷ rest

  pub get_pid-set_pid :
      (pid key : ℕ) (v : V) (entries : List (ℕ × V))
      → get_pid pid (set_pid key v entries) ≡ (if key == pid then some v else get_pid pid entries)
  unfolding get_pid
  get_pid-set_pid pid key v entries = refl

  pub get_pid-delete_pid :
      (pid key : ℕ) (entries : List (ℕ × V))
      → get_pid pid (delete_pid key entries) ≡ (if key == pid then none else get_pid pid entries)
  unfolding get_pid delete_pid
  get_pid-delete_pid pid key [] = ground arith
  get_pid-delete_pid pid key ((k, v) ∷ entries) = ground (arith, get_pid-delete_pid pid key entries)
