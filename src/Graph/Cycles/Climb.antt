-- ===== src/Graph/Cycles/Climb.antt =====
-- The walk up the parents from a back edge: it ends at the gray target, and what it passed is a
-- cycle.
use mathlib.Core.List.{reverse, reverse-cons}
use rootline.Base.{
  ℕ, zero, suc, ◌≤◌, String, ◌≡◌, inl, inr, sym, ap, ◌∙◌, subst, List, [], ◌∷◌, ◌++◌, some, Option,
  true, false, arith, ◌==◌, eq_iff, In, length, Bool-cases,
}
use rootline.Base.Dict.{Dict, lookup}
use rootline.Graph.Cycles.{climb}
use rootline.Graph.Cycles.Walks.{Walk, Walk-append, Walk-step}

-- The gray nodes, the current one first: each was reached from the next one, its parent.
abbrev pub Chain : (String → List String) → Dict String → List String → Type 0
Chain adj parent [] = Unit
Chain adj parent (x ∷ []) = Unit
Chain adj parent (x ∷ y ∷ rest) =
    (lookup x parent ≡ some y) × In x (adj y) × Chain adj parent (y ∷ rest)

module _ (adj : String → List String) where
  -- What `climb` returns from the head of a chain to one of its members: the part of the chain up
  -- to that member, which read backwards is a walk from it.
  pub record IsPath (x : String) (rest : List String) (t : String) (r : Option (List String))
      : Type 0 where
    pub path : List String
    pub returns : r ≡ some path
    pub above : List String
    pub prefix : path ++ above ≡ x ∷ rest
    pub tail : List String
    pub starts : reverse path ≡ t ∷ tail
    pub back : (w : String) → In w (adj x) → Walk adj t (t ∷ tail) w

  IsPath-here :
      (f : ℕ) (parent : Dict String) (x : String) (rest : List String) (t : String)
      → (x == t) ≡ true
      → IsPath x rest t (climb (suc f) parent x t)
  unfolding climb
  IsPath-here f parent x rest t same =
      let e : x ≡ t = (eq_iff x t).0 same in
      record {
        path = t ∷ [];
        returns = rw (same, climb);
        above = rest;
        prefix = ap (λ z. z ∷ rest) (sym e);
        tail = [];
        starts = reverse-cons t [];
        back = λ w m. Walk-step adj t w (subst (λ z. In w (adj z)) e m);
      }

  IsPath-next :
      (f : ℕ) (parent : Dict String) (x y : String) (rest : List String) (t : String)
      → (x == t) ≡ false
      → lookup x parent ≡ some y
      → In x (adj y)
      → IsPath y rest t (climb f parent y t)
      → IsPath x (y ∷ rest) t (climb (suc f) parent x t)
  unfolding climb
  IsPath-next f parent x y rest t differs up edge p = record {
    path = x ∷ path;
    returns = rw (differs, climb) (rw (up, climb) (rw returns));
    above = above;
    prefix = ap (λ z. x ∷ z) prefix;
    tail = tail ++ x ∷ [];
    starts = reverse-cons x path ∙ ap (λ z. z ++ x ∷ []) starts;
    back = λ w m. Walk-append adj t x w (t ∷ tail) (x ∷ []) (back x edge) (Walk-step adj x w m);
  }
    where
      open p use {path, returns, above, prefix, tail, starts, back}

  pub climb-IsPath :
      (f : ℕ) (parent : Dict String) (x : String) (rest : List String) (t : String)
      → Chain adj parent (x ∷ rest)
      → In t (x ∷ rest)
      → length (x ∷ rest) ≤ f
      → IsPath x rest t (climb f parent x t)
  climb-IsPath zero parent x rest t c m h = absurd (omega arith)
  climb-IsPath (suc f) parent x [] t c m h =
      IsPath-here f parent x [] t (ground (arith, eq_iff x t))
  climb-IsPath (suc f) parent x (y ∷ rest) t (up, edge, c) m h = elim (Bool-cases (x == t)) [
    | inl same ↦ IsPath-here f parent x (y ∷ rest) t same
    | inr differs ↦
        IsPath-next f parent x y rest t differs up edge
          (climb-IsPath f parent y rest t c (ground (arith, eq_iff x t)) (omega arith))
  ]
