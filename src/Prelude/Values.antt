-- ===== src/Prelude/Values.antt =====
-- A decoded JSON value, Go's `interface{}`, and a `map[string]interface{}` as an association list
-- (a nil map is empty). A number is kept as it was written.
use Prim.Native.String.{String}
use mathlib.Core.Bool.{Bool}
use mathlib.Core.List.{List, [], ◌∷◌}
use mathlib.Core.Option.{Option, none, some}
use dantegpu_core.Prelude.Tests.{if◌then◌else◌}
use text.Mathlib.Text.{◌==◌ as text_eq}

mutual
  pub data Json : Type 0 where
    null : Json
    bool : Bool → Json
    num : String → Json
    str : String → Json
    arr : Items → Json
    obj : Fields → Json

  pub data Items : Type 0 where
    no_items : Items
    item : Json → Items → Items

  pub data Fields : Type 0 where
    no_fields : Fields
    field : String → Json → Fields → Fields

abbrev pub Params : Type 0
Params = List (String × Json)

-- `params[name] = value`
abbrev pub put_param : String → Json → Params → Params
put_param name value [] = (name, value) ∷ []
put_param name value (entry ∷ rest) =
    if text_eq entry.0 name then (entry.0, value) ∷ rest else entry ∷ put_param name value rest

-- `params[name]`, none where the name is missing.
abbrev pub get_param : Params → String → Option Json
get_param [] name = none
get_param (entry ∷ rest) name = if text_eq entry.0 name then some entry.1 else get_param rest name
