-- ===== src/Lock/Render.antt =====
-- src/lock/render.ts: the document that is printed. `stringify` of the package yaml is a parameter.
-- The members of an object stand in the order in which they are added, as for any key that is no
-- array index.
pub mod Order
use script_jail.Base.{
  Bool, if◌then◌else◌, text_eq, List, [], ◌∷◌, map, ℕ, Option, none, some, Text, codes, text_lt,
  ltb, lookup, sort_by,
}
use script_jail.Lock.Schema.{
  Stage, preinstall, install, postinstall, prepare, LifecycleBlock, Field, get, PackageBlock,
  Packages, Manager, npm, pnpm, yarn,
}
use script_jail.Lock.Normalize.Blocks.{stage_block}
use script_jail.Action.Value.{Value, Values, Members, text, scalar, array, object, proto_key}

pub record RenderInput : Type 0 where
  pub manager : Manager
  pub manager_lockfile_sha256 : Text
  pub node_version : Text
  pub generated_at : Text
  pub packages : Packages

abbrev pub manager_name : Manager → Text
manager_name npm = codes "npm"
manager_name pnpm = codes "pnpm"
manager_name yarn = codes "yarn"

abbrev pub stage_name : Stage → Text
stage_name preinstall = codes "preinstall"
stage_name install = codes "install"
stage_name postinstall = codes "postinstall"
stage_name prepare = codes "prepare"

abbrev pub field_name : Field → Text
field_name Field.external_reads = codes "external_reads"
field_name Field.escaped_writes = codes "escaped_writes"
field_name Field.env_read = codes "env_read"
field_name Field.spawn_attempts = codes "spawn_attempts"
field_name Field.spawn_blocked = codes "spawn_blocked"
field_name Field.dlopen_attempts = codes "dlopen_attempts"
field_name Field.network_attempts = codes "network_attempts"
field_name Field.audit_bypass = codes "audit_bypass"
field_name Field.env_tamper = codes "env_tamper"

-- `LIFECYCLE_ORDER.indexOf(stage)`
abbrev pub lifecycle_order : Stage → ℕ
lifecycle_order preinstall = 0
lifecycle_order install = 1
lifecycle_order postinstall = 2
lifecycle_order prepare = 3

abbrev pub empty_list_fields : List Field
empty_list_fields =
    Field.external_reads ∷ Field.escaped_writes ∷ Field.env_read ∷ Field.spawn_attempts
    ∷ Field.spawn_blocked ∷ Field.dlopen_attempts ∷ Field.network_attempts ∷ []

abbrev pub optional_list_fields : List Field
optional_list_fields = Field.audit_bypass ∷ Field.env_tamper ∷ []

-- a list of texts as a value
unfoldable pub values_of : List Text → Values
values_of [] = Values.nil
values_of (t ∷ ts) = Values.cons (text t) (values_of ts)

-- `if (v.length > 0) out[f] = v`
abbrev pub add_nonempty : Field → List Text → Members → Members
add_nonempty f [] rest = rest
add_nonempty f (t ∷ ts) rest = Members.entry (field_name f) (array (values_of (t ∷ ts))) rest

unfoldable pub optional_members : LifecycleBlock → List Field → Members
optional_members block [] = Members.end
optional_members block (f ∷ fs) = add_nonempty f (get block f) (optional_members block fs)

unfoldable pub list_members : LifecycleBlock → List Field → Members
list_members block [] = optional_members block optional_list_fields
list_members block (f ∷ fs) =
    Members.entry (field_name f) (array (values_of (get block f))) (list_members block fs)

unfoldable pub render_block : LifecycleBlock → Value
render_block block = object (list_members block empty_list_fields)

abbrev pub add_block : Stage → Option LifecycleBlock → Members → Members
add_block stage none rest = rest
add_block stage (some block) rest = Members.entry (stage_name stage) (render_block block) rest

-- the loop over the stages
unfoldable pub stage_members : PackageBlock → List Stage → Members
stage_members pkg [] = Members.end
stage_members pkg (stage ∷ stages) =
    add_block stage (stage_block stage pkg) (stage_members pkg stages)

abbrev pub earlier : Stage → Stage → Bool
earlier a b = ltb (lifecycle_order a) (lifecycle_order b)

unfoldable pub render_package : PackageBlock → Value
render_package pkg = object (
    Members.entry (codes "lifecycle")
      (object (stage_members pkg (sort_by earlier (map (λ (p : Stage × LifecycleBlock). p.0) pkg))))
      Members.end)

-- `packages[k] = v`: at `__proto__` it sets the prototype of `packages`, which gets no property.
abbrev pub add_package : Text → Option PackageBlock → Members → Members
add_package key none rest = rest
add_package key (some pkg) rest =
    if text_eq key proto_key then rest else Members.entry key (render_package pkg) rest

-- the loop over the keys
unfoldable pub package_members : Packages → List Text → Members
package_members packages [] = Members.end
package_members packages (key ∷ keys) =
    add_package key (lookup key packages) (package_members packages keys)

unfoldable pub render_packages : Packages → Value
render_packages packages =
    object
      (package_members packages (sort_by text_lt (map (λ (p : Text × PackageBlock). p.0) packages)))

unfoldable pub render_doc : RenderInput → Value
render_doc input = object (
    Members.entry (codes "schema_version") scalar (
      Members.entry (codes "manager") (text (manager_name input.manager)) (
        Members.entry (codes "manager_lockfile_sha256") (text input.manager_lockfile_sha256) (
          Members.entry (codes "node_version") (text input.node_version) (
            Members.entry (codes "generated_at") (text input.generated_at)
              (Members.entry (codes "packages") (render_packages input.packages) Members.end))))))

abbrev pub render : (Value → Text) → RenderInput → Text
render stringify input = stringify (render_doc input)
