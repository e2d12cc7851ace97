-- ===== src/Graph/Cycles/BackEdges.antt =====
-- A back edge to a gray node: the climb along the parents gives a cycle.
use mathlib.Core.List.{reverse, Nodup, Nodup-append, reverse_perm}
use mathlib.Core.List.Perm
use rootline.Base.{
  suc, String, ◌≢◌, refl, sym, subst, List, [], ◌∷◌, ◌++◌, Option, arith, In, All, length,
}
use rootline.Graph.Cycles.{Search, color_of, canonical_cycle, record_cycle}
use rootline.Graph.Cycles.Walks.{IsCycle}
use rootline.Graph.Cycles.Canonical.{canonical_cycle-IsCycle}
use rootline.Graph.Cycles.Colors.{whites-le}
use rootline.Graph.Cycles.Climb.{IsPath, climb-IsPath}
use rootline.Graph.Cycles.Dfs.{Inv, Step}

All-snoc {ℓ} :
    {A : Type 0} (P : A → Type ℓ) (xs : List A) (a : A) → All P xs → P a → All P (xs ++ a ∷ [])
All-snoc P [] a h p = (p, tt)
All-snoc P (x ∷ xs) a h p = (h.0, All-snoc P xs a h.1 p)

snoc-ne-nil {ℓ} : {A : Type ℓ} (xs : List A) (a : A) → xs ++ a ∷ [] ≢ []
snoc-ne-nil [] a e = cc
snoc-ne-nil (x ∷ xs) a e = cc

module _ (adj : String → List String) (ns : List String) where
  path-IsCycle :
      (x : String) (rest : List String) (t : String) (r : Option (List String))
      → Nodup (x ∷ rest)
      → In t (adj x)
      → (p : IsPath adj x rest t r) → IsCycle adj (canonical_cycle (reverse p.path))
  path-IsCycle x rest t r d edge p =
      subst (λ c. IsCycle adj (canonical_cycle c)) (sym p.starts)
        (canonical_cycle-IsCycle adj t t p.tail (p.back t edge) (
          subst Nodup p.starts (
            Perm.nodup (Perm.symm (reverse_perm p.path))
              (Nodup-append.0 (subst Nodup (sym p.prefix) d)).0)))

  -- A back edge adds one true cycle.
  pub record BackEdge (stack : List String) (s : Search) (r : Option Search) : Type 0 where
    pub step : Step adj ns stack s r
    pub loud : step.final.cycles ≢ []

  pub record_cycle-BackEdge :
      (node : String) (st : List String) (s : Search) (t : String)
      → Inv adj ns (node ∷ st) s
      → In t (node ∷ st)
      → In t (adj node)
      → BackEdge (node ∷ st) s (record_cycle (length ns) adj node t s)
  unfolding record_cycle
  record_cycle-BackEdge node st s t i m edge =
      let p =
        climb-IsPath adj (suc (length ns)) s.parent node st t i.chain m (omega (arith, i.room)) in
      let s' : Search = record s { cycles = s.cycles ++ canonical_cycle (reverse p.path) ∷ [] } in
      record {
        step = record {
          final = s';
          returns = rw (p.returns, record_cycle);
          inv = record {
            grays = unfold color_of in i.grays;
            chain = i.chain;
            distinct = i.distinct;
            room = omega (arith, i.room, whites-le s s' ns (unfold color_of in λ u w. w));
            sound =
                All-snoc (IsCycle adj) s.cycles (canonical_cycle (reverse p.path)) i.sound
                  (path-IsCycle node st t _ i.distinct edge p);
            dead = λ e. absurd (snoc-ne-nil s.cycles _ e);
          };
          grows = unfold color_of in λ u w. refl;
          quiet = λ e. absurd (snoc-ne-nil s.cycles _ e);
        };
        loud = snoc-ne-nil s.cycles _;
      }
