-- ===== src/Action/Value.antt =====
-- The JavaScript values that the YAML parser returns. The members of an object stand in the order of
-- `Object.entries`.
use script_jail.Base.{ℕ, suc, Option, none, some, Text, codes, text_eq, decimal, if◌then◌else◌}

mutual
  pub data Value : Type 0 where
    null_value : Value
    text : Text → Value
    -- a number or a Boolean
    scalar : Value
    array : Values → Value
    object : Members → Value

  pub data Values : Type 0 where
    nil : Values
    cons : Value → Values → Values

  pub data Members : Type 0 where
    end : Members
    entry : Text → Value → Members → Members

unfoldable pub member : Text → Members → Option Value
member key Members.end = none
member key (Members.entry k v rest) = if text_eq k key then some v else member key rest

-- The name that is no property where an object is filled by assignment.
abbrev pub proto_key : Text
proto_key = codes "__proto__"

-- `(v as { key?: unknown }).key`, at a `v` that is an object or an array; an array has none of the
-- names that are asked for
unfoldable pub property : Text → Value → Option Value
property key null_value = none
property key (text t) = none
property key scalar = none
property key (array vs) = none
property key (object ms) = member key ms

-- the entries of an array: its indices, in decimal
unfoldable pub numbered : ℕ → Values → Members
numbered n Values.nil = Members.end
numbered n (Values.cons v vs) = Members.entry (decimal n) v (numbered (suc n) vs)

-- `Object.entries(v)`, where `typeof v === 'object'` and `v` is not `null`
unfoldable pub entries_of : Value → Option Members
entries_of null_value = none
entries_of (text t) = none
entries_of scalar = none
entries_of (array vs) = some (numbered 0 vs)
entries_of (object ms) = some ms
