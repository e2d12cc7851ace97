-- ===== src/Value/Maps.antt =====
-- The laws of maps of any values.
use rootline.Base.{String, ◌≡◌, refl, none, some, ◌==◌, if◌then◌else◌, arith, eq_iff}
use rootline.Value.{Value, Fields, end, field, get, put}

pub get-put :
    (k j : String) (v : Value) (m : Fields)
    → get j (put k v m) ≡ (if k == j then some v else get j m)
unfolding get put
get-put k j v end = refl
get-put k j v (field i w m) = ground (arith, eq_iff k j, eq_iff i k, eq_iff i j, get-put k j v m)

-- Each key stands once, as in a Go map.
abbrev pub IsMap : Fields → Type 0
IsMap end = Unit
IsMap (field k v m) = (get k m ≡ none) × IsMap m
