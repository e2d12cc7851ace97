-- ===== src/Rules/Merge/Maps.antt =====
-- mergeAnyMap: the derive and aggregate maps of a child over those of its parent.
use rootline.Base.{
  String, ◌≡◌, ◌≢◌, inl, inr, refl, sym, ◌∙◌, Option, none, some, ◌==◌, arith, eq_iff,
  if◌then◌else◌, Bool-cases, ap,
}
use rootline.Value.{
  Value, Fields, null, str, bool, int, float, time, seq, mapping, other, end, field, get, put,
}
use rootline.Value.Maps.{get-put, IsMap}
use rootline.Rules.Merge.{over_mapping, overlay, place, is_end, merge_any_map}

-- What a key holds after the merge: a null and an absent entry keep the parent's value, two maps
-- are merged in their turn, and any other value of the child replaces.
pub combined : Option Value → Option Value → Option Value
combined p none = p
combined p (some null) = p
combined (some (mapping pm)) (some (mapping cm)) = some (mapping (overlay pm cm))
combined p (some v) = some v

over_mapping-eq :
    (o : Option Value) (cm : Fields)
    → some (over_mapping (λ pm. overlay pm cm) (mapping cm) o) ≡ combined o (some (mapping cm))
unfolding combined over_mapping
over_mapping-eq none cm = refl
over_mapping-eq (some null) cm = refl
over_mapping-eq (some (str x)) cm = refl
over_mapping-eq (some (bool x)) cm = refl
over_mapping-eq (some (int x)) cm = refl
over_mapping-eq (some (float x)) cm = refl
over_mapping-eq (some (time x)) cm = refl
over_mapping-eq (some (seq x)) cm = refl
over_mapping-eq (some (mapping pm)) cm = refl
over_mapping-eq (some (other t x)) cm = refl

get-place_mapping :
    (out : Fields) (j k : String) (cm : Fields)
    → get k (put j (over_mapping (λ pm. overlay pm cm) (mapping cm) (get j out)) out)
      ≡ (if j == k then combined (get k out) (some (mapping cm)) else get k out)
get-place_mapping out j k cm =
    get-put j k (over_mapping (λ pm. overlay pm cm) (mapping cm) (get j out)) out
    ∙ (elim (Bool-cases (j == k)) [
      | inl e ↦ rw e (
          over_mapping-eq (get j out) cm
          ∙ ap (λ z. combined (get z out) (some (mapping cm))) ((eq_iff j k).0 e))
      | inr e ↦ rw e
    ])

get-place :
    (out : Fields) (j k : String) (v : Value)
    → get k (place out j v) ≡ (if j == k then combined (get k out) (some v) else get k out)
unfolding place combined
get-place out j k null = ground arith
get-place out j k (mapping cm) = get-place_mapping out j k cm
get-place out j k v = get-put j k v out

get-overlay :
    (out child : Fields) (k : String)
    → IsMap child
    → get k (overlay out child) ≡ combined (get k out) (get k child)
unfolding overlay get combined
get-overlay out end k h = refl
get-overlay out (field j v rest) k h =
    get-overlay (place out j v) rest k h.1
    ∙ ap (λ o. combined o (get k rest)) (get-place out j k v)
    ∙ (elim (Bool-cases (j == k)) [
      | inl e ↦ rw e (rw (ap (λ z. get z rest) (sym ((eq_iff j k).0 e)) ∙ h.0) refl)
      | inr e ↦ rw e
    ])

get-merge_any_map :
    (parent child : Fields) (k : String)
    → IsMap child
    → get k (merge_any_map parent child)
      ≡ (if is_end parent then get k child else combined (get k parent) (get k child))
unfolding merge_any_map
get-merge_any_map end end k h = refl
get-merge_any_map end (field j v rest) k h = refl
get-merge_any_map (field i w parent) end k h = unfold get combined in refl
get-merge_any_map (field i w parent) (field j v rest) k h =
    get-overlay (field i w parent) (field j v rest) k h

combined-ne-none : (p c : Option Value) → p ≢ none → combined p c ≢ none
unfolding combined
combined-ne-none none c h e = absurd (h refl)
combined-ne-none (some p) none h e = cc
combined-ne-none (some p) (some null) h e = cc
combined-ne-none (some (mapping p)) (some (mapping v)) h e = cc
combined-ne-none (some p) (some v) h e = cc

-- mergeAnyMap is the child where the parent is empty. Elsewhere a key holds what the values of the
-- parent and of the child combine to, by `combined`; and no key of the parent is lost, whatever the
-- child says. The child has no key twice.
pub merge_any_map-combined :
    (parent child : Fields) (k : String)
    → IsMap child
    → (get k (merge_any_map parent child)
        ≡ (if is_end parent then get k child else combined (get k parent) (get k child)))
      × (get k parent ≢ none → get k (merge_any_map parent child) ≢ none)
merge_any_map-combined parent child k h = (get-merge_any_map parent child k h, kept parent)
  where
    kept : (p : Fields) → get k p ≢ none → get k (merge_any_map p child) ≢ none
    kept end ne = absurd (ne (unfold get in refl))
    kept (field i w p) ne =
        rw (get-merge_any_map (field i w p) child k h)
          (combined-ne-none (get k (field i w p)) (get k child) ne)
