-- ===== src/Graph/Cycles/Walks.antt =====
-- Walks along an adjacency, and the cycles that DetectCycles prints.
use mathlib.Core.List.{Nodup}
use mathlib.Core.WellFounded.{Acc}
use rootline.Base.{String, ◌≡◌, refl, sym, subst, List, [], ◌∷◌, ◌++◌, true, In, All}
use rootline.Base.Text.{str_le}

module _ (adj : String → List String) where
  -- The walk from `u` to `v` along the adjacency that leaves the nodes of `p`, one after another.
  abbrev pub Walk : String → List String → String → Type 0
  Walk u [] v = u ≡ v
  Walk u (x ∷ p) v = (u ≡ x) × ((w : String) × In w (adj x) × Walk w p v)

  -- `v` is a target of `u`.
  abbrev pub IsTarget : String → String → Type 0
  IsTarget v u = In v (adj u)

  -- A printed cycle: it starts at its smallest member, passes each member once, and ends by
  -- repeating the first.
  pub record IsCycle (c : List String) : Type 0 where
    pub first : String
    pub others : List String
    pub closed : c ≡ first ∷ (others ++ first ∷ [])
    pub walk : Walk first (first ∷ others) first
    pub smallest : All (λ x. str_le first x ≡ true) others
    pub distinct : Nodup (first ∷ others)

  pub Walk-append :
      (u v w : String) (p q : List String) → Walk u p v → Walk v q w → Walk u (p ++ q) w
  Walk-append u v w [] q h k = subst (λ z. Walk z q w) (sym h) k
  Walk-append u v w (x ∷ p) q (e, (y, m, rest)) k = (e, (y, m, Walk-append y v w p q rest k))

  pub Walk-split :
      (u w : String) (p q : List String)
      → Walk u (p ++ q) w
      → (v : String) × Walk u p v × Walk v q w
  Walk-split u w [] q h = (u, refl, h)
  Walk-split u w (x ∷ p) q (e, (y, m, rest)) =
      let (v, first, second) = Walk-split y w p q rest in (v, (e, (y, m, first)), second)

  -- A cycle may be entered at any of its members.
  pub Walk-rotate :
      (u : String) (p q : List String) → Walk u (p ++ q) u → (v : String) × Walk v (q ++ p) v
  Walk-rotate u p q h =
      let (v, first, second) = Walk-split u u p q h in (v, Walk-append v u v q p second first)

  pub Walk-step : (x w : String) → In w (adj x) → Walk x (x ∷ []) w
  Walk-step x w m = (refl, (w, m, refl))

  -- Below an accessible node no walk comes back to where it started.
  pub Acc-no_cycle : (u : String) → Acc IsTarget u → (p : List String) → ¬ Walk u (u ∷ p) u
  Acc-no_cycle u (Acc.intro _ below) [] (e, (w, m, back)) =
      Acc-no_cycle w (below w m) [] (refl, (w, subst (λ z. In w (adj z)) (sym back) m, refl))
  Acc-no_cycle u (Acc.intro _ below) (y ∷ p) (e, (w, m, (f, (x, k, rest)))) =
      let m' : In y (adj u) = subst (λ z. In z (adj u)) f m in
      Acc-no_cycle y (below y m') (p ++ u ∷ [])
        (refl, (x, k, Walk-append x u y p (u ∷ []) rest (Walk-step u y m')))
