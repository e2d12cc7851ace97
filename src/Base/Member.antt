-- ===== src/Base/Member.antt =====
-- Membership by recursion, and the library's.
use mathlib.Core.Logic.{∥∥₁_elim}
use mathlib.Core.HLevel.{⊥_prop}
use mathlib.Core.Logic.{inl, inr}
use mathlib.Core.List.{List, [], ◌∷◌, Mem, Memᴰ}
use rootline.Base.Lists.{In}

pub In-of_Memᴰ : {A : Type 0} (a : A) (xs : List A) → Memᴰ a xs → In a xs
In-of_Memᴰ a (x ∷ xs) (Memᴰ.head e) = inl e
In-of_Memᴰ a (x ∷ xs) (Memᴰ.tail m) = inr (In-of_Memᴰ a xs m)
In-of_Memᴰ a [] m = elim m [ ]

pub not-Mem : {A : Type 0} (a : A) (xs : List A) → ¬ In a xs → ¬ Mem a xs
not-Mem a xs h m = ∥∥₁_elim m ⊥_prop (λ d. h (In-of_Memᴰ a xs d))

pub Memᴰ-of_In : {A : Type 0} (a : A) (xs : List A) → In a xs → Memᴰ a xs
Memᴰ-of_In a (x ∷ xs) (inl e) = Memᴰ.head e
Memᴰ-of_In a (x ∷ xs) (inr m) = Memᴰ.tail (Memᴰ-of_In a xs m)
Memᴰ-of_In a [] m = absurd m
