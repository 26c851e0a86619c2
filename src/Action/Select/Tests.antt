-- ===== src/Action/Select/Tests.antt =====
-- A machine with no firecracker, and the theorems at it.
use script_jail.Base.{true, [], ◌∷◌, All, codes, ℕ, ok, err, some, ◌≡◌, refl}
use script_jail.Action.Select.{
  ConcreteBackend, firecracker, docker, bare, auto, concrete, is_aligned, Run, returned,
  unavailable, selected, warned, not_aligned, try_each, order_of, run_selected_backend,
}
use script_jail.Action.Select.Laws.{
  IsAllowed, run_selected_backend-IsAllowed, run_selected_backend-auto,
}

abbrev run : ConcreteBackend → Run ℕ
run firecracker = unavailable (codes "no /dev/kvm")
run docker = returned 7
run bare = returned 8

falls_back :
    run_selected_backend run auto (some true)
    ≡ (selected firecracker ∷ warned firecracker (codes "no /dev/kvm") ∷ selected docker ∷ [], ok 7)
unfolding run_selected_backend order_of try_each
falls_back = refl

no_bare_install : (run_selected_backend run (concrete bare) (some true)).1 ≡ err (not_aligned bare)
unfolding run_selected_backend
no_bare_install = refl

run_selected_backend-IsAllowed_example :
    All (IsAllowed is_aligned) (run_selected_backend run auto (some true)).0
run_selected_backend-IsAllowed_example = run_selected_backend-IsAllowed run auto

run_selected_backend-auto_example : (run_selected_backend run auto (some true)).1 ≡ ok 7
run_selected_backend-auto_example =
    run_selected_backend-auto run true (firecracker ∷ []) [] docker 7 refl (tt, tt) refl
