-- ===== src/Query/Text.antt =====
-- strings.Contains and the cut of a prefix.
use Prim.Native.Char.{Char}
use Prim.Native.String.{String, [], ◌∷◌, ◌++◌, slice, len}
use Prim.Native.String.append
use mathlib.Core.Path.{◌≡◌, sym, ◌∙◌, ap}
use mathlib.Core.Bool.{Bool, true, false}
use mathlib.Core.Option.{Option, none, some}
use native.Mathlib.Omega.{arith}
use text.Mathlib.Text.{starts_with}
use text.Mathlib.TextEquality.{starts_with_iff}
use text.Mathlib.TextPositions.{slice-append_right, starts_with-append as append_starts, len-append}
use text.Mathlib.TextLemmas.{append_assoc}
use rootline.Base.{if◌then◌else◌, Bool-cases, some_inj, ◌↔◌, inl, inr}

-- strings.Contains
unfoldable pub contains : String → String → Bool
contains [] sub = starts_with [] sub
contains (c ∷ s) sub = let rest = contains s sub in if starts_with (c ∷ s) sub then true else rest

-- strings.HasPrefix with the slice after it.
unfoldable pub trim_prefix : String → String → Option String
trim_prefix prefix s = if starts_with s prefix then some (slice s (len prefix) (len s)) else none

starts_with-append : (s t sub : String) → starts_with s sub ≡ true → starts_with (s ++ t) sub ≡ true
starts_with-append s t sub h =
    let (u, e) = (starts_with_iff s sub).0 h in
    (starts_with_iff (s ++ t) sub).1 (u ++ t, sym (append_assoc sub u t) ∙ ap (λ w. w ++ t) e)

contains_of_start : (s sub : String) → starts_with s sub ≡ true → contains s sub ≡ true
unfolding contains
contains_of_start [] sub h = h
contains_of_start (c ∷ s) sub h = ground (arith, h)

later : (c : Char) (s sub : String) → contains s sub ≡ true → contains (c ∷ s) sub ≡ true
unfolding contains
later c s sub h = ground (arith, h)

-- A text that stands in another stands in whatever begins with that.
pub contains-append : (s t sub : String) → contains s sub ≡ true → contains (s ++ t) sub ≡ true
unfolding contains
contains-append [] t sub h = contains_of_start ([] ++ t) sub (starts_with-append [] t sub h)
contains-append (c ∷ s) t sub h = elim (Bool-cases (starts_with (c ∷ s) sub)) [
  | inl e ↦ contains_of_start ((c ∷ s) ++ t) sub (starts_with-append (c ∷ s) t sub e)
  | inr e ↦
      rw (append.cons c s t) (later c (s ++ t) sub (contains-append s t sub (ground (arith, e, h))))
]

pub trim_prefix-append : (p u : String) → trim_prefix p (p ++ u) ≡ some u
unfolding trim_prefix
trim_prefix-append p u =
    rw (append_starts p u)
      (ap some (ap (slice (p ++ u) (len p)) (len-append p u) ∙ slice-append_right p u))

not_cut : (p s u : String) → starts_with s p ≡ false → ¬ (trim_prefix p s ≡ some u)
unfolding trim_prefix
not_cut p s u e h = ground (arith, e, h)

-- A prefix is cut off just where the text is the prefix and what is left.
pub trim_prefix_iff : (p s u : String) → (trim_prefix p s ≡ some u) ↔ (s ≡ p ++ u)
trim_prefix_iff p s u = (
  λ h. elim (Bool-cases (starts_with s p)) [
    | inl e ↦
        let (w, q) = (starts_with_iff s p).0 e in
        sym q
        ∙ ap (λ z. p ++ z) (some_inj (sym (trim_prefix-append p w) ∙ ap (trim_prefix p) q ∙ h))
    | inr e ↦ absurd (not_cut p s u e h)
  ],
  λ h. ap (trim_prefix p) h ∙ trim_prefix-append p u,
)
