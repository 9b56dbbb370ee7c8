-- ===== src/Desktop/Json.antt =====
-- Values of `JSON.parse` whose numbers are natural, as update-state.ts meets them.
use brevi.Base.{ℕ, String, Bool, Option, none, some, if◌then◌else◌, str_eq}

mutual
  pub data Json : Type 0 where
    null : Json
    bool : Bool → Json
    num : ℕ → Json
    str : String → Json
    arr : Items → Json
    obj : Fields → Json

  pub data Items : Type 0 where
    nil : Items
    cons : Json → Items → Items

  pub data Fields : Type 0 where
    end : Fields
    field : String → Json → Fields → Fields

-- `value.key` of an object: `none` is undefined.
unfoldable pub get_field : String → Fields → Option Json
get_field key end = none
get_field key (field k v fs) = if str_eq k key then some v else get_field key fs
