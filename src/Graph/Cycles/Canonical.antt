-- ===== src/Graph/Cycles/Canonical.antt =====
-- canonicalCycle: the rotation to the smallest member is the same directed cycle.
use mathlib.Core.List.{append-nil, append_assoc, Nodup, perm_append_comm}
use mathlib.Core.List.Perm
use rootline.Base.{
  String, ◌≡◌, refl, sym, ◌∙◌, ap, subst, List, [], ◌∷◌, ◌++◌, Bool-cases, true, false, inl, inr,
  All, arith,
}
use rootline.Base.Text.{str_le, str_lt, str_le_iff, str_le-eq-not-str_lt, str_le_trans}
use rootline.Graph.Cycles.{close, split_smallest, canonical_cycle}
use rootline.Graph.Cycles.Walks.{Walk, Walk-rotate, IsCycle}

abbrev AllFrom : String → List String → Type 0
AllFrom m = All (λ x. str_le m x ≡ true)

AllFrom-append :
    (m : String) (xs ys : List String) → AllFrom m xs → AllFrom m ys → AllFrom m (xs ++ ys)
AllFrom-append m [] ys h k = k
AllFrom-append m (x ∷ xs) ys h k = (h.0, AllFrom-append m xs ys h.1 k)

AllFrom-append_left : (m : String) (xs ys : List String) → AllFrom m (xs ++ ys) → AllFrom m ys
AllFrom-append_left m [] ys h = h
AllFrom-append_left m (x ∷ xs) ys h = AllFrom-append_left m xs ys h.1

AllFrom-lower : (a m : String) (xs : List String) → str_le a m ≡ true → AllFrom m xs → AllFrom a xs
AllFrom-lower a m [] h k = tt
AllFrom-lower a m (x ∷ xs) h k = (str_le_trans a m x h k.0, AllFrom-lower a m xs h k.1)

-- What the search for the smallest member returns: a split of the list at its smallest member.
record IsSplit (whole before since : List String) : Type 0 where
  smallest : String
  rest : List String
  starts : since ≡ smallest ∷ rest
  joins : before ++ since ≡ whole
  low_before : AllFrom smallest before
  low_rest : AllFrom smallest rest

lt-le : (x m : String) → str_lt x m ≡ true → str_le x m ≡ true
lt-le x m h = (str_le_iff x m).1 (inl h)

not_lt-le : (x m : String) → str_lt x m ≡ false → str_le m x ≡ true
not_lt-le x m h = ground (arith, str_le-eq-not-str_lt m x)

shift :
    (xs ys : List String) (a : String) (zs : List String)
    → xs ++ (ys ++ a ∷ []) ++ zs ≡ xs ++ ys ++ a ∷ zs
shift xs ys a zs = simp append_assoc

split_smallest-IsSplit :
    (before : List String) (m : String) (tail rest : List String)
    → AllFrom m before
    → AllFrom m tail
    → IsSplit
        (before ++ (m ∷ tail) ++ rest)
        (split_smallest before m (m ∷ tail) rest).0
        (split_smallest before m (m ∷ tail) rest).1
unfolding split_smallest
split_smallest-IsSplit before m tail [] hb ht = record {
  smallest = m;
  rest = tail;
  starts = refl;
  joins = sym (append-nil _);
  low_before = hb;
  low_rest = ht;
}
split_smallest-IsSplit before m tail (x ∷ rest) hb ht = elim (Bool-cases (str_lt x m)) [
  | inl lower ↦
      let from_x : AllFrom x (before ++ m ∷ tail) =
        AllFrom-append x before (m ∷ tail) (AllFrom-lower x m before (lt-le x m lower) hb)
          (lt-le x m lower, AllFrom-lower x m tail (lt-le x m lower) ht) in
      rw (lower, split_smallest)
        (subst
          (λ w.
            IsSplit w (split_smallest (before ++ m ∷ tail) x (x ∷ []) rest).0
              (split_smallest (before ++ m ∷ tail) x (x ∷ []) rest).1)
          (append_assoc (before ++ m ∷ tail) (x ∷ []) rest)
          (split_smallest-IsSplit (before ++ m ∷ tail) x [] rest from_x tt))
  | inr higher ↦
      rw (higher, split_smallest)
        (subst
          (λ w.
            IsSplit w (split_smallest before m (m ∷ (tail ++ x ∷ [])) rest).0
              (split_smallest before m (m ∷ (tail ++ x ∷ [])) rest).1)
          (shift before (m ∷ tail) x rest)
          (split_smallest-IsSplit before m (tail ++ x ∷ []) rest hb
            (AllFrom-append m tail (x ∷ []) ht (not_lt-le x m higher, tt))))
]

canonical_cycle-IsSplit :
    (x : String) (xs : List String)
    → IsSplit (x ∷ xs) (split_smallest [] x (x ∷ []) xs).0 (split_smallest [] x (x ∷ []) xs).1
canonical_cycle-IsSplit x xs = split_smallest-IsSplit [] x [] xs tt tt

module _ (adj : String → List String) where
  -- The canonical form of an elementary cycle is a printed cycle.
  pub canonical_cycle-IsCycle :
      (u x : String) (xs : List String)
      → Walk adj u (x ∷ xs) u
      → Nodup (x ∷ xs)
      → IsCycle adj (canonical_cycle (x ∷ xs))
  unfolding canonical_cycle close
  canonical_cycle-IsCycle u x xs w d =
      let (before, since) = split_smallest [] x (x ∷ []) xs in
      let split = canonical_cycle-IsSplit x xs in
      let m = split.smallest in
      let joined : before ++ m ∷ split.rest ≡ x ∷ xs =
        ap (λ s. before ++ s) (sym split.starts) ∙ split.joins in
      let (v, round) =
        Walk-rotate adj u before (m ∷ split.rest) (subst (λ p. Walk adj u p u) (sym joined) w) in
      record {
        first = m;
        others = split.rest ++ before;
        closed = ap (λ s. close (s ++ before)) split.starts;
        walk = subst (λ z. Walk adj z (m ∷ (split.rest ++ before)) z) round.0 round;
        smallest = AllFrom-append m split.rest before split.low_rest split.low_before;
        distinct =
            Perm.nodup (perm_append_comm before (m ∷ split.rest)) (subst Nodup (sym joined) d);
      }
