-- ===== src/Protocol/Json.antt =====
-- The JSON values that `json.loads` returns, as far as wyoming_vietnamese/protocol.py looks at them,
-- with the two dictionary operations that it applies. `json.loads` itself is a parameter.
use wyoming_vietnamese.Common.{if◌then◌else◌, ℤ, Bool, Option, none, some}
use Prim.Native.String.{String}
use text.Mathlib.Text.{◌==◌ as str_eq}

mutual
  pub data Json : Type 0 where
    null : Json
    boolean : Bool → Json
    integer : ℤ → Json
    -- A number with a fraction or an exponent, by its text.
    float : String → Json
    str : String → Json
    array : Items → Json
    object : Fields → Json

  pub data Items : Type 0 where
    nil : Items
    cons : Json → Items → Items

  pub data Fields : Type 0 where
    end : Fields
    field : String → Json → Fields → Fields

-- `d.get(name)`
unfoldable pub get : Fields → String → Option Json
get end name = none
get (field k v fs) name = if str_eq k name then some v else get fs name

-- `d[name] = value`: an old key keeps its place, a new one goes to the end.
unfoldable pub assign : Fields → String → Json → Fields
assign end name value = field name value end
assign (field k v fs) name value =
    if str_eq k name then field k value fs else field k v (assign fs name value)

-- `d.update(other)`
unfoldable pub update : Fields → Fields → Fields
update d end = d
update d (field k v fs) = update (assign d k v) fs
