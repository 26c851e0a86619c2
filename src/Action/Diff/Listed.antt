-- ===== src/Action/Diff/Listed.antt =====
-- What it is for a list of a lock to hold a text, said without a walk.
use script_jail.Base.{Option, some, Text, codes, ◌≡◌}
use script_jail.Action.Value.{Value, Values, Members, array, property, entries_of}
use script_jail.Action.Diff.{Found, nonempty_text}

-- A value of an array.
pub data Holds (v : Value) : Values → Type 0 where
  here : {w : Value} {vs : Values} → v ≡ w → Holds v (Values.cons w vs)
  later : {w : Value} {vs : Values} → Holds v vs → Holds v (Values.cons w vs)

-- A member of an object.
pub data Has (key : Text) (v : Value) : Members → Type 0 where
  here : {k : Text} {w : Value} {ms : Members} → key ≡ k → v ≡ w → Has key v (Members.entry k w ms)
  later : {k : Text} {w : Value} {ms : Members} → Has key v ms → Has key v (Members.entry k w ms)

-- The members of an object or an array have a property.
pub data Inside (P : Members → Type 0) (o : Option Value) : Type 0 where
  inside : {v : Value} {ms : Members} → o ≡ some v → entries_of v ≡ some ms → P ms → Inside P o

-- A value is an array that holds a text, which is not empty.
pub data InList (t : Text) (o : Option Value) : Type 0 where
  in_list :
      {vs : Values} {v : Value}
      → o ≡ some (array vs)
      → Holds v vs
      → nonempty_text v ≡ some t
      → InList t o

pub data InStages (field : Text) (f : Found) (ms : Members) : Type 0 where
  in_stages :
      {block : Value}
      → Has f.stage block ms
      → InList f.entry (property field block)
      → InStages field f ms

pub data InPackages (field : Text) (f : Found) (ms : Members) : Type 0 where
  in_packages :
      {pkg : Value}
      → Has f.package_id pkg ms
      → Inside (InStages field f) (property (codes "lifecycle") pkg)
      → InPackages field f ms

-- `packages.<package>.lifecycle.<stage>.<field>` is an array that holds the text, which is not empty.
abbrev pub IsListed : Text → Found → Option Value → Type 0
IsListed field f packages = Inside (InPackages field f) packages
