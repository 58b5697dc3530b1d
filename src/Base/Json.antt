-- ===== src/Base/Json.antt =====
-- JSON values, as `unknown` payloads, attributes and fingerprinted requests hold them.
use Prim.Native.String.{String}
use mathlib.Core.Bool.{Bool}
use mathlib.Core.Option.{Option, none, some}
use text.Mathlib.Text.{◌==◌ as str_eq}
use loyalty_interchange_prot.Base.Int.{ℤ}
use loyalty_interchange_prot.Base.Tests.{if◌then◌else◌}

-- `undefined` is JavaScript's, which `JSON.stringify` leaves out of objects.
mutual
  pub data Json : Type 0 where
    undefined null : Json
    boolean : Bool → Json
    number : ℤ → Json
    str : String → Json
    arr : Items → Json
    obj : Fields → Json

  pub data Items : Type 0 where
    nil : Items
    cons : Json → Items → Items

  pub data Fields : Type 0 where
    end : Fields
    field : String → Json → Fields → Fields

-- `value["key"]` of an object's fields
unfoldable pub get_field : String → Fields → Option Json
get_field k end = none
get_field k (field j v fs) = if str_eq j k then some v else get_field k fs

-- the fields without one: `const { key: _, ...rest } = value`
unfoldable pub without : String → Fields → Fields
without k end = end
without k (field j v fs) = if str_eq j k then fs else field j v (without k fs)

-- `value["key"] = v`
unfoldable pub set_field : String → Json → Fields → Fields
set_field k v end = field k v end
set_field k v (field j w fs) = if str_eq j k then field k v fs else field j w (set_field k v fs)

-- a field for an optional string
abbrev pub str_or_undefined : Option String → Json
str_or_undefined none = undefined
str_or_undefined (some s) = str s
