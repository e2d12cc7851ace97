-- ===== src/Value.antt =====
-- Go's `any`, as the YAML decoder of the program fills it: a map of any values is `Fields`, a slice
-- of them `Items`. A float and a timestamp are kept by the text that fmt prints for them, a value
-- of any other type by what representationName says of it and by that text.
pub mod Print
pub mod Maps
use rootline.Base.{String, Option, none, some, Bool, ◌==◌, if◌then◌else◌}
use rootline.Base.Int.{ℤ}

mutual
  pub data Value : Type 0 where
    null : Value
    str : String → Value
    bool : Bool → Value
    int : ℤ → Value
    float : String → Value
    time : String → Value
    seq : Items → Value
    mapping : Fields → Value
    other : String → String → Value

  pub data Items : Type 0 where
    nil : Items
    cons : Value → Items → Items

  pub data Fields : Type 0 where
    end : Fields
    field : String → Value → Fields → Fields

-- v, ok := m[k]
unfoldable pub get : String → Fields → Option Value
get k end = none
get k (field j v m) = if j == k then some v else get k m

-- m[k] = v
unfoldable pub put : String → Value → Fields → Fields
put k v end = field k v end
put k v (field j w m) = if j == k then field k v m else field j w (put k v m)
