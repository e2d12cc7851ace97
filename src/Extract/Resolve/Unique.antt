-- ===== src/Extract/Resolve/Unique.antt =====
-- When a selector has a value (internal/extract/body_source.go).
use rootline.Base.{
  String, ◌≡◌, ◌≢◌, ◌↔◌, ◌+◌, subst, inl, inr, refl, arith, true, Option, none, some, List, [], ◌∷◌,
  ◌++◌, nat_eq, length, eq_iff, select, Bool-cases, ap, ◌∙◌, sym, length-append,
}
use rootline.Extract.Section.{
  HeadingKey, SectionSelector, Section, Parsed, ok, fault, ambiguous, same_key, ◌>>=◌,
}
use rootline.Extract.Resolve.{
  same_keys, is_suffix, section_selector_matches, find_unique, resolve_unique_section,
}

-- The sections that a selector matches, in order.
abbrev pub matching : List Section → SectionSelector → List Section
matching sections selector =
    select (λ (s : Section). section_selector_matches s.path selector) sections

-- What the matching sections come to.
abbrev pub verdict : List Section → Parsed (Option String)
verdict [] = ok none
verdict (s ∷ []) = ok (some s.content)
verdict (s ∷ next ∷ sections) = fault ambiguous

abbrev verdict_after : Option Section → List Section → Parsed (Option Section)
verdict_after found [] = ok found
verdict_after none (s ∷ []) = ok (some s)
verdict_after none (s ∷ next ∷ sections) = fault ambiguous
verdict_after (some s) (next ∷ sections) = fault ambiguous

one_found :
    (s : Section) (sections : List Section)
    → verdict_after (some s) sections ≡ verdict_after none (s ∷ sections)
one_found s [] = refl
one_found s (next ∷ sections) = refl

found_once :
    (found : Option Section) (sections : List Section) (selector : SectionSelector)
    → find_unique found sections selector ≡ verdict_after found (matching sections selector)
unfolding find_unique
found_once found [] selector = refl
found_once none (s ∷ sections) selector =
    elim (Bool-cases (section_selector_matches s.path selector)) [
      | inl e ↦
          rw e (found_once (some s) sections selector ∙ one_found s (matching sections selector))
      | inr e ↦ rw e (found_once none sections selector)
    ]
found_once (some t) (s ∷ sections) selector =
    elim (Bool-cases (section_selector_matches s.path selector)) [
      | inl e ↦ rw e refl
      | inr e ↦ rw e (found_once (some t) sections selector)
    ]

same_keys_iff :
    (path selector : List HeadingKey) → (same_keys path selector ≡ true) ↔ (path ≡ selector)
unfolding same_keys same_key
same_keys_iff [] [] = ground arith
same_keys_iff [] (b ∷ bs) = ground arith
same_keys_iff (a ∷ rest) [] = ground arith
same_keys_iff (a ∷ rest) (b ∷ bs) = ground (arith, same_keys_iff rest bs, eq_iff a.text b.text)

is_suffix_split :
    (path : List HeadingKey) (selector : SectionSelector)
    → is_suffix path selector ≡ true
    → (front : List HeadingKey) × (path ≡ front ++ selector)
unfolding is_suffix
is_suffix_split [] selector h = ([], (same_keys_iff [] selector).0 h)
is_suffix_split (key ∷ path) selector h =
    elim (Bool-cases (nat_eq (length (key ∷ path)) (length selector))) [
      | inl e ↦ ([], (same_keys_iff (key ∷ path) selector).0 (rw (e, is_suffix) at h))
      | inr e ↦
          let (front, same) = is_suffix_split path selector (rw (e, is_suffix) at h) in
          (key ∷ front, ap (λ (p : List HeadingKey). key ∷ p) same)
    ]

is_suffix_append :
    (front : List HeadingKey) (selector : SectionSelector)
    → is_suffix (front ++ selector) selector ≡ true
unfolding is_suffix
is_suffix_append [] [] = (same_keys_iff [] []).1 refl
is_suffix_append [] (key ∷ keys) =
    let whole = (same_keys_iff (key ∷ keys) (key ∷ keys)).1 refl in ground (arith, whole)
is_suffix_append (key ∷ front) selector =
    ground (arith, is_suffix_append front selector, length-append front selector)

verdict_of :
    (sections : List Section)
    → (verdict_after none sections >>= λ found.
        ok (elim found [ none ↦ none | some s ↦ some s.content ]))
      ≡ verdict sections
verdict_of [] = refl
verdict_of (s ∷ []) = refl
verdict_of (s ∷ next ∷ sections) = refl

-- A suffix of a path, and not the empty one.
abbrev pub IsEnd : List HeadingKey → SectionSelector → Type 0
IsEnd path selector = (selector ≢ []) × ((front : List HeadingKey) × (path ≡ front ++ selector))

matches_iff :
    (path : List HeadingKey) (selector : SectionSelector)
    → (section_selector_matches path selector ≡ true) ↔ IsEnd path selector
unfolding section_selector_matches
matches_iff path [] = (λ h. absurd (cc), λ h. absurd (h.0 refl))
matches_iff path (key ∷ keys) = (
  λ h. ((λ e. absurd (cc)), is_suffix_split path (key ∷ keys) (ground (arith, h))),
  λ h.
      let (front, same) = h.1 in
      let within =
        subst (λ (p : List HeadingKey). is_suffix p (key ∷ keys) ≡ true) (sym same)
          (is_suffix_append front (key ∷ keys)) in
      let long : length path ≡ length front + length (key ∷ keys) =
        ap length same ∙ length-append front (key ∷ keys) in
      ground (arith, within, long),
)

-- A selector of a body's section has the content of the section that it matches, if it matches one;
-- none, if it matches no section; and it is an error if it matches two. It matches where it is not
-- empty and the section's path, from the root heading down, ends with it.
pub resolve_unique_section-verdict :
    (sections : List Section) (selector : SectionSelector)
    → (resolve_unique_section sections selector ≡ verdict (matching sections selector))
      × ((s : Section) → (section_selector_matches s.path selector ≡ true) ↔ IsEnd s.path selector)
unfolding resolve_unique_section
resolve_unique_section-verdict sections selector = (
  rw (found_once none sections selector) (verdict_of (matching sections selector)),
  λ s. matches_iff s.path selector,
)
