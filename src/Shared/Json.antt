-- ===== src/Shared/Json.antt =====
-- A value that `json.loads` returns, with the tests `isinstance(v, dict)` and `isinstance(v, str)`.
-- A number is kept as it is spelled. A JSON object is a `dict` with text keys.
use Prim.Native.String.{String}
use mathlib.Core.Bool.{Bool}
use mathlib.Core.Option.{Option, none, some}
use mlflow_integration.Shared.Tests.{if◌then◌else◌, ◌==◌, string_eq}

mutual
  pub data Json : Type 0 where
    null : Json
    boolean : Bool → Json
    number : String → Json
    text : String → Json
    array : Items → Json
    object : Fields → Json

  pub data Items : Type 0 where
    nil : Items
    cons : Json → Items → Items

  pub data Fields : Type 0 where
    end : Fields
    field : String → Json → Fields → Fields

-- fields.get(key)
unfoldable pub get : String → Fields → Option Json
get key end = none
get key (field k v rest) = if k == key then some v else get key rest

abbrev pub as_text : Option Json → Option String
as_text (some (text s)) = some s
as_text v = none

abbrev pub as_object : Option Json → Option Fields
as_object (some (object fields)) = some fields
as_object v = none
