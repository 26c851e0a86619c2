-- ===== src/Action/Select.antt =====
-- src/action/backend/select.ts: which backend audits. A backend's `run` is the parameter `run`: it
-- returns a result, throws a `BackendUnavailableError`, or throws another error. What the function
-- does besides is a list of effects, in their order.
pub mod Laws
mod Tests
use script_jail.Base.{
  Bool, true, false, not, ◌&&◌, List, [], ◌∷◌, ◌++◌, filter, any, Option, none, some, Text, codes,
  Result, ok, err, if◌then◌else◌,
}
use script_jail.Lock.Normalize.Noise.{is_true}

pub data ConcreteBackend : Type 0 where
  firecracker docker bare : ConcreteBackend

pub data RequestedBackend : Type 0 where
  auto : RequestedBackend
  concrete : ConcreteBackend → RequestedBackend

abbrev pub backend_eq : ConcreteBackend → ConcreteBackend → Bool
backend_eq firecracker firecracker = true
backend_eq docker docker = true
backend_eq bare bare = true
backend_eq _ _ = false

abbrev pub is_auto : RequestedBackend → Bool
is_auto auto = true
is_auto (concrete b) = false

abbrev pub auto_order : List ConcreteBackend
auto_order = firecracker ∷ docker ∷ bare ∷ []

abbrev pub install_aligned_backends : List ConcreteBackend
install_aligned_backends = firecracker ∷ docker ∷ []

abbrev pub is_aligned : ConcreteBackend → Bool
is_aligned b = any (backend_eq b) install_aligned_backends

-- what `run` comes to
pub data Run (A : Type 0) : Type 0 where
  returned : A → Run A
  unavailable : Text → Run A
  failed : Text → Run A

pub data Effect : Type 0 where
  selected : ConcreteBackend → Effect
  warned : ConcreteBackend → Text → Effect

-- what is thrown
pub data SelectError : Type 0 where
  not_aligned : ConcreteBackend → SelectError
  backend_unavailable : ConcreteBackend → Text → SelectError
  backend_failed : Text → SelectError
  none_available : List ConcreteBackend → List (ConcreteBackend × Text) → SelectError

abbrev pub base_order : RequestedBackend → List ConcreteBackend
base_order auto = auto_order
base_order (concrete b) = b ∷ []

unfoldable pub order_of : RequestedBackend → Bool → List ConcreteBackend
order_of requested aligned =
    if aligned then filter is_aligned (base_order requested) else base_order requested

-- the explicit backend that `install: true` rejects
abbrev pub rejected : Bool → RequestedBackend → Option ConcreteBackend
rejected aligned auto = none
rejected aligned (concrete b) = if aligned && not (is_aligned b) then some b else none

module _ {A : Type 0} (run : ConcreteBackend → Run A) (requested : RequestedBackend) where
  abbrev pub Selection : Type 0
  Selection = List Effect × Result SelectError A

  -- the loop has come to an end: `order` and `unavailable`
  abbrev pub exhausted : List ConcreteBackend → List (ConcreteBackend × Text) → Selection
  exhausted order missing = ([], err (none_available order missing))

  -- the body of the loop at a backend: `later` is the rest of the loop, with the message noted
  abbrev pub try_backend : ConcreteBackend → Run A → (Text → Selection) → Selection
  try_backend name (returned a) later = (selected name ∷ [], ok a)
  try_backend name (failed message) later = (selected name ∷ [], err (backend_failed message))
  try_backend name (unavailable message) later =
      if is_auto requested
      then (selected name ∷ warned name message ∷ (later message).0, (later message).1)
      else (selected name ∷ [], err (backend_unavailable name message))

  unfoldable pub try_each :
      List ConcreteBackend → List (ConcreteBackend × Text) → List ConcreteBackend → Selection
  try_each order missing [] = exhausted order missing
  try_each order missing (name ∷ names) =
      try_backend name (run name)
        (λ message. try_each order (missing ++ (name, message) ∷ []) names)

  -- the `throw` in front of the loop, or the loop
  abbrev pub select_unless : Option ConcreteBackend → Bool → Selection
  select_unless (some b) aligned = ([], err (not_aligned b))
  select_unless none aligned = try_each (order_of requested aligned) [] (order_of requested aligned)

  unfoldable pub run_selected_backend : Option Bool → Selection
  run_selected_backend require_repo_dir_aligned =
      let aligned = is_true require_repo_dir_aligned in
      select_unless (rejected aligned requested) aligned
