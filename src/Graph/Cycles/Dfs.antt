-- ===== src/Graph/Cycles/Dfs.antt =====
-- The invariant of the search for cycles, and that each step keeps it.
use mathlib.Core.List.{Nodup, Nodup-cons}
use mathlib.Core.WellFounded.{Acc}
use rootline.Base.Member.{not-Mem, Memᴰ-of_In}
use rootline.Base.{
  ◌+◌, ◌≤◌, String, ◌≡◌, ◌⊎◌, ◌↔◌, inl, inr, refl, sym, ap, ◌∙◌, subst, List, [], ◌∷◌, some, Option,
  arith, eq_iff, In, All, length,
}
use rootline.Base.Dict.{Dict, insert, lookup-insert}
use rootline.Graph.Cycles.{white, gray, black, Search, color_of, paint, ◌>>=◌}
use rootline.Graph.Cycles.Walks.{IsTarget, IsCycle}
use rootline.Graph.Cycles.Colors.{
  color_of-paint, Grows, Grows-refl, Grows-trans, whites, whites-le, whites-paint, paint-white,
}
use rootline.Graph.Cycles.Climb.{Chain}

pub Chain-insert :
    (adj : String → List String) (parent : Dict String) (t v : String) (stack : List String)
    → ¬ In t stack
    → Chain adj parent stack
    → Chain adj (insert t v parent) stack
Chain-insert adj parent t v [] h c = tt
Chain-insert adj parent t v (x ∷ []) h c = tt
Chain-insert adj parent t v (x ∷ y ∷ rest) h (up, edge, c) = (
  ground (arith, lookup-insert t x v parent, eq_iff t x),
  edge,
  Chain-insert adj parent t v (y ∷ rest) (λ m. h (inr m)) c,
)

module _ (adj : String → List String) (ns : List String) where
  -- `stack` is the path of gray nodes, the current one first.
  pub record Inv (stack : List String) (s : Search) : Type 0 where
    pub grays : (u : String) → (color_of s u ≡ gray) ↔ In u stack
    pub chain : Chain adj s.parent stack
    pub distinct : Nodup stack
    pub room : length stack + whites s ns ≤ length ns
    pub sound : All (IsCycle adj) s.cycles
    pub dead : s.cycles ≡ [] → (u : String) → color_of s u ≡ black → Acc (IsTarget adj) u

  -- A part of the search returns, keeps the invariant and what is coloured, and drops no cycle.
  pub record Step (stack : List String) (s : Search) (r : Option Search) : Type 0 where
    pub final : Search
    pub returns : r ≡ some final
    pub inv : Inv stack final
    pub grows : Grows s final
    pub quiet : final.cycles ≡ [] → s.cycles ≡ []

  pub Inv-not_in :
      {stack : List String} {s : Search} (t : String)
      → Inv stack s
      → color_of s t ≡ white
      → ¬ In t stack
  Inv-not_in t i w m = ground (arith, i.grays t)

  pub Inv-push :
      (stack : List String) (s : Search) (t : String)
      → Inv stack s
      → color_of s t ≡ white
      → In t ns
      → Chain adj s.parent (t ∷ stack)
      → Inv (t ∷ stack) (paint t gray s)
  Inv-push stack s t i w m c = record {
    grays = λ u. ground (arith, color_of-paint t gray s u, eq_iff t u, i.grays u);
    chain = unfold paint in c;
    distinct = Nodup-cons.1 (not-Mem t stack (Inv-not_in t i w), i.distinct);
    room = omega (arith, whites-paint t gray s ns w (λ e. cc) m, i.room);
    sound = unfold paint in i.sound;
    dead = λ e u b. i.dead (unfold paint in e) u (ground (arith, color_of-paint t gray s u));
  }

  Chain-tail :
      (parent : Dict String) (x : String) (rest : List String)
      → Chain adj parent (x ∷ rest)
      → Chain adj parent rest
  Chain-tail parent x [] c = tt
  Chain-tail parent x (y ∷ rest) c = c.2

  not-In_head : (x : String) (rest : List String) → Nodup (x ∷ rest) → ¬ In x rest
  not-In_head x rest d m = (Nodup-cons.0 d).0 ∣ Memᴰ-of_In x rest m ∣₁

  -- The current node is done: it turns black and leaves the path.
  pub Inv-pop :
      (stack : List String) (s : Search) (t : String)
      → Inv (t ∷ stack) s
      → (s.cycles ≡ [] → (u : String) → In u (adj t) → color_of s u ≡ black)
      → Inv stack (paint t black s)
  Inv-pop stack s t i done = record {
    grays = λ u. ground (
      arith,
      color_of-paint t black s u,
      eq_iff t u,
      i.grays u,
      λ (e : u ≡ t). subst (λ z. ¬ In z stack) (sym e) (not-In_head t stack i.distinct),
    );
    chain = unfold paint in Chain-tail s.parent t stack i.chain;
    distinct = (Nodup-cons.0 i.distinct).1;
    room =
        omega (arith, whites-le s (paint t black s) ns (paint-white t black s (λ e. cc)), i.room);
    sound = unfold paint in i.sound;
    dead = λ e u b. elim (Black-cases u b) [
      | inl same ↦
          subst (λ z. Acc (IsTarget adj) z) same
            (Acc.intro t (λ v m. i.dead (unfold paint in e) v (done (unfold paint in e) v m)))
      | inr before ↦ i.dead (unfold paint in e) u before
    ];
  }
    where
      Black-cases :
          (u : String) → color_of (paint t black s) u ≡ black → (t ≡ u) ⊎ (color_of s u ≡ black)
      Black-cases u b = ground (arith, color_of-paint t black s u, eq_iff t u)

  abbrev pub Step-here : (stack : List String) (s : Search) → Inv stack s → Step stack s (some s)
  Step-here stack s i = record {
    final = s;
    returns = refl;
    inv = i;
    grows = Grows-refl s;
    quiet = λ e. e;
  }

  abbrev pub Step-then :
      (stack : List String) (s : Search) (r : Option Search) (k : Search → Option Search)
      (h : Step stack s r)
      → Step stack h.final (k h.final)
      → Step stack s (r >>= k)
  Step-then stack s r k h h' = record {
    final = h'.final;
    returns = ap (λ m. m >>= k) h.returns ∙ h'.returns;
    inv = h'.inv;
    grows = Grows-trans s h.final h'.final h.grows h'.grows;
    quiet = λ e. h.quiet (h'.quiet e);
  }
