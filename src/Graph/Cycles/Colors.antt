-- ===== src/Graph/Cycles/Colors.antt =====
-- The colours of the search: what a step paints, and how many nodes are still white.
use rootline.Base.{
  ℕ, suc, ◌+◌, ◌≤◌, String, ◌≡◌, ◌≢◌, ◌⊎◌, inl, inr, refl, List, [], ◌∷◌, arith, ◌==◌,
  if◌then◌else◌, eq_iff, In, length,
}
use rootline.Base.Dict.{lookup, lookup-insert}
use rootline.Graph.Cycles.{Color, white, gray, black, Search, color_of, paint, fresh}

pub color_of-paint :
    (u : String) (c : Color) (s : Search) (v : String)
    → color_of (paint u c s) v ≡ (if u == v then c else color_of s v)
unfolding color_of paint
color_of-paint u c s v = ground (arith, lookup-insert u v c s.color)

pub color_of-paint_self : (u : String) (c : Color) (s : Search) → color_of (paint u c s) u ≡ c
color_of-paint_self u c s = ground (arith, color_of-paint u c s u, eq_iff u u)

-- What is coloured stays so.
abbrev pub Grows : Search → Search → Type 0
Grows s t = (u : String) → color_of s u ≢ white → color_of t u ≡ color_of s u

pub Grows-refl : (s : Search) → Grows s s
Grows-refl s u h = refl

pub Grows-trans : (s t r : Search) → Grows s t → Grows t r → Grows s r
Grows-trans s t r h k u w = ground (arith, h u, k u)

pub Grows-paint :
    (u : String) (c : Color) (s t : Search)
    → color_of s u ≡ white
    → Grows s t
    → Grows s (paint u c t)
Grows-paint u c s t w h v nw = ground (arith, h v, color_of-paint u c t v, eq_iff u v)

abbrev weight : Color → ℕ
weight white = 1
weight _ = 0

-- How many of the listed nodes are white.
pub whites : Search → List String → ℕ
whites s [] = 0
whites s (u ∷ us) = weight (color_of s u) + whites s us

weight-le : (c d : Color) → (d ≡ white → c ≡ white) → weight d ≤ weight c
weight-le c d h = ground arith

-- Where no coloured node becomes white again, the white nodes do not grow in number.
pub whites-le :
    (s t : Search) (us : List String)
    → ((u : String) → color_of t u ≡ white → color_of s u ≡ white)
    → whites t us ≤ whites s us
unfolding whites
whites-le s t [] h = omega arith
whites-le s t (u ∷ us) h =
    omega (arith, whites-le s t us h, weight-le (color_of s u) (color_of t u) (h u))

pub Grows-white :
    (s t : Search) → Grows s t → (u : String) → color_of t u ≡ white → color_of s u ≡ white
Grows-white s t h u w = ground (arith, h u)

pub paint-white :
    (u : String) (c : Color) (s : Search)
    → c ≢ white
    → (v : String) → color_of (paint u c s) v ≡ white
    → color_of s v ≡ white
paint-white u c s nw v w = ground (arith, color_of-paint u c s v)

-- Painting a white node of the list leaves one white node less.
pub whites-paint :
    (u : String) (c : Color) (s : Search) (us : List String)
    → color_of s u ≡ white
    → c ≢ white
    → In u us
    → suc (whites (paint u c s) us) ≤ whites s us
unfolding whites
whites-paint u c s (x ∷ us) w nw m = ground (
  arith,
  color_of-paint u c s x,
  eq_iff u x,
  whites-paint u c s us,
  whites-le s (paint u c s) us (paint-white u c s nw),
  weight-le (color_of s x) (color_of (paint u c s) x) (paint-white u c s nw x),
)
whites-paint u c s [] w nw m = absurd m

pub Color-cases : (c : Color) → (c ≡ white) ⊎ ((c ≡ gray) ⊎ (c ≡ black))
Color-cases white = inl refl
Color-cases gray = inr (inl refl)
Color-cases black = inr (inr refl)

pub whites-Grows : (s t : Search) (us : List String) → Grows s t → whites t us ≤ whites s us
whites-Grows s t us h = whites-le s t us (Grows-white s t h)

pub color_of-fresh : (u : String) → color_of fresh u ≡ white
unfolding color_of lookup
color_of-fresh u = refl

pub whites-fresh : (us : List String) → whites fresh us ≡ length us
unfolding whites
whites-fresh [] = refl
whites-fresh (u ∷ us) = ground (arith, whites-fresh us, color_of-fresh u)
