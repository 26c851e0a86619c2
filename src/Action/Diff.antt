-- ===== src/Action/Diff.antt =====
-- src/action/diff.ts: the gates on a generated lock. `parse` is the YAML parser, which gives `none`
-- where it throws; `safe_parse` is `Lock.safeParse`, which gives the parsed `packages` of a lock that
-- the schema takes. `findAuditBypass` and `collectNetworkAttempts` are one walk here, at two fields.
pub mod Drift
pub mod Listed
pub mod Walk
pub mod Gates
pub mod Rendered
pub mod Pipeline
pub mod Egress
mod Tests
use script_jail.Base.{
  Bool, true, false, not, ◌&&◌, List, [], ◌∷◌, ◌++◌, map, Option, none, some, Text, codes, length,
  take, contains, starts_with, text_eq, decimal, ltb, ℕ, ◌-◌, if◌then◌else◌,
}
use script_jail.Lock.Schema.{Manager, npm, pnpm, yarn}
use script_jail.Lock.Normalize.Entries.{forged_root}
use script_jail.Action.Value.{
  Value, Values, Members, null_value, text, scalar, array, object, property, entries_of,
}

-- `AuditBypassEntry` and `NetworkAttemptEntry`, which have the same properties
pub record Found : Type 0 where
  pub package_id : Text
  pub stage : Text
  pub entry : Text

-- `typeof entry === 'string' && entry.length > 0`
abbrev pub nonempty_text : Value → Option Text
nonempty_text null_value = none
nonempty_text (text []) = none
nonempty_text (text (c ∷ s)) = some (c ∷ s)
nonempty_text scalar = none
nonempty_text (array vs) = none
nonempty_text (object ms) = none

abbrev pub add_found : Text → Text → Option Text → List Found → List Found
add_found package_id stage none out = out
add_found package_id stage (some t) out =
    record { package_id = package_id; stage = stage; entry = t } ∷ out

-- the innermost loop, over the entries of an array
unfoldable pub walk_values : Text → Text → Values → List Found
walk_values package_id stage Values.nil = []
walk_values package_id stage (Values.cons v vs) =
    add_found package_id stage (nonempty_text v) (walk_values package_id stage vs)

-- `Array.isArray(ab)`
unfoldable pub walk_list : Text → Text → Option Value → List Found
walk_list package_id stage none = []
walk_list package_id stage (some null_value) = []
walk_list package_id stage (some (text t)) = []
walk_list package_id stage (some scalar) = []
walk_list package_id stage (some (array vs)) = walk_values package_id stage vs
walk_list package_id stage (some (object ms)) = []

-- the loop over the stages; a block that is no object has no property
unfoldable pub walk_stages : Text → Text → Members → List Found
walk_stages field package_id Members.end = []
walk_stages field package_id (Members.entry stage block rest) =
    walk_list package_id stage (property field block) ++ walk_stages field package_id rest

-- `Object.entries(lifecycle)`, of an object
abbrev pub walk_stages_of : Text → Text → Option Members → List Found
walk_stages_of field package_id none = []
walk_stages_of field package_id (some stages) = walk_stages field package_id stages

-- a `lifecycle` that is missing or no object is passed over
unfoldable pub walk_lifecycle : Text → Text → Option Value → List Found
walk_lifecycle field package_id none = []
walk_lifecycle field package_id (some lifecycle) =
    walk_stages_of field package_id (entries_of lifecycle)

unfoldable pub walk_packages : Text → Members → List Found
walk_packages field Members.end = []
walk_packages field (Members.entry package_id pkg rest) =
    walk_lifecycle field package_id (property (codes "lifecycle") pkg) ++ walk_packages field rest

-- what the walk starts from: the strict parse where it succeeds, else the value as it is
abbrev pub or_else {ℓ} : {A : Type ℓ} → Option A → Option A → Option A
or_else (some a) other = some a
or_else none other = other

unfoldable pub packages_raw : (Value → Option Value) → Value → Option Value
packages_raw safe_parse doc = or_else (safe_parse doc) (property (codes "packages") doc)

abbrev pub walk_packages_of : Text → Option Members → List Found
walk_packages_of field none = []
walk_packages_of field (some members) = walk_packages field members

unfoldable pub walk_raw : Text → Option Value → List Found
walk_raw field none = []
walk_raw field (some packages) = walk_packages_of field (entries_of packages)

-- `doc === null || typeof doc !== 'object'`
abbrev pub is_no_object : Value → Bool
is_no_object null_value = true
is_no_object (text t) = true
is_no_object scalar = true
is_no_object (array vs) = false
is_no_object (object ms) = false

unfoldable pub walk_doc : (Value → Option Value) → Text → Option Value → List Found
walk_doc safe_parse field none = []
walk_doc safe_parse field (some doc) =
    if is_no_object doc then [] else walk_raw field (packages_raw safe_parse doc)

module _ (parse : Text → Option Value) (safe_parse : Value → Option Value) where
  unfoldable pub find_audit_bypass : Text → List Found
  find_audit_bypass generated = walk_doc safe_parse (codes "audit_bypass") (parse generated)

  unfoldable pub collect_network_attempts : Text → List Found
  collect_network_attempts generated =
      walk_doc safe_parse (codes "network_attempts") (parse generated)

-- `parts.join(separator)`
unfoldable pub join : Text → List Text → Text
join separator [] = []
join separator (p ∷ []) = p
join separator (p ∷ q ∷ ps) = p ++ (separator ++ join separator (q ∷ ps))

abbrev pub max_bypass : ℕ
max_bypass = 10

abbrev pub bypass_line : Found → Text
bypass_line e = e.package_id ++ (codes " (" ++ (e.stage ++ (codes "): " ++ e.entry)))

unfoldable pub format_audit_bypass_error : List Found → Text
format_audit_bypass_error found =
    codes "Audit envelope was bypassed — see audit_bypass entries: ["
    ++ (join (codes "; ") (map bypass_line (take max_bypass found))
        ++ (codes "]"
            ++ (if ltb max_bypass (length found)
                then codes " (+" ++ (decimal (length found - max_bypass) ++ codes " more)")
                else [])))

abbrev pub is_pnpm : Manager → Bool
is_pnpm npm = false
is_pnpm pnpm = true
is_pnpm yarn = false

-- the `prepare` script of the genuine root, which `npm` and `yarn` do not run on the host
unfoldable pub is_audited_only : Manager → List Text → Found → Bool
is_audited_only manager root_package_ids e =
    text_eq e.stage (codes "prepare")
    && not (is_pnpm manager)
    && contains root_package_ids e.package_id
    && not (starts_with e.entry forged_root)

-- the loop that partitions: `auditedOnly` and `hostBound`
unfoldable pub partition : Manager → List Text → List Found → List Found × List Found
partition manager root_package_ids [] = ([], [])
partition manager root_package_ids (e ∷ es) =
    let rest = partition manager root_package_ids es in
    if is_audited_only manager root_package_ids e
    then (e ∷ rest.0, rest.1)
    else (rest.0, e ∷ rest.1)

abbrev pub max_egress : ℕ
max_egress = 20

abbrev pub egress_line : Found → Text
egress_line e =
    codes "  " ++ (e.package_id ++ (codes " (" ++ (e.stage ++ (codes ")  " ++ e.entry))))

unfoldable pub more_line : List Found → List Text
more_line found =
    if ltb max_egress (length found)
    then (codes "  (+"
        ++ (decimal (length found - max_egress) ++ codes " more — see the committed lock)"))
      ∷ []
    else []

unfoldable pub egress_lines : List Found → List Text
egress_lines found = map egress_line (take max_egress found) ++ more_line found

unfoldable pub egress_summary : List Found → Text
egress_summary [] =
    codes
      "script-jail install: part 2 runs lifecycle scripts on the host; the root `prepare` egress below was audited in the sandbox and will NOT run on the host."
egress_summary (e ∷ es) =
    codes
      "script-jail install: part 2 runs lifecycle scripts ONLINE on the host. The offline audit recorded "
    ++ (decimal (length (e ∷ es))
        ++ codes
            " network egress attempt(s) that WILL now succeed (listed below). IPs are offline-audit values — the host may resolve different addresses; review the committed lock before trusting this install.")

unfoldable pub audited_lines : List Found → List Text
audited_lines [] = []
audited_lines (e ∷ es) =
    codes "  audited in the sandbox; NOT run on the host (root `prepare`):" ∷ egress_lines (e ∷ es)

pub record EgressWarning : Type 0 where
  pub summary : Text
  pub detail : Text

unfoldable pub format_egress_warning : List Found → Manager → List Text → EgressWarning
format_egress_warning found manager root_package_ids =
    let (audited_only, host_bound) = partition manager root_package_ids found in
    record {
      summary = egress_summary host_bound;
      detail =
          join (codes "\n") (egress_lines host_bound ++ audited_lines audited_only) ++ codes "\n";
    }
