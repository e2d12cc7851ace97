-- ===== src/Infer/Coverage.antt =====
-- Which inferences FilterCoveredInferences keeps, by the records and what governs them.
use rootline.Base.{
  String, ◌≡◌, ◌↔◌, ◌⊎◌, inl, inr, refl, sym, ◌∙◌, ap, subst, some, some_inj, List, [], ◌∷◌, In,
  In-select, All-In, any, Bool, true, false, not, arith, Bool-cases, Option-cases, any_iff,
}
use rootline.Base.Dict.{has}
use rootline.Value.{get}
use rootline.Extract.{Record}
use rootline.Extract.Section.{Quoting}
use rootline.Rules.{StemFile, is_none}
use rootline.Infer.{
  Inference, Governed, ScopeGroup, is_covered, is_relevant, covered_in, covered_everywhere,
  group_by_scope, filter_covered_inferences,
}
use rootline.Infer.Scopes.{governed, HasKey, IsScope, IsGrouped, group_by_scope-IsGrouped}

abbrev pub has_field : Inference → Record → Bool
has_field inf rec = not (is_none (get inf.field rec.frontmatter))

-- The schema has the field, or one of the records that the key governs does.
pub record IsTouched (gov : Record → Governed) (records : List Record) (inf : Inference)
    (stem : StemFile) (key : String) : Type 0 where
  pub field :
      (has inf.field stem.schema ≡ true)
      ⊎ ((r : Record) × In r records × ((gov r).key ≡ key) × (has_field inf r ≡ true))

-- A record lies in a scope that has the field, and every such scope covers the inference.
pub record IsCoveredAt (quoting : Quoting) (gov : Record → Governed) (records : List Record)
    (inf : Inference) : Type 0 where
  pub somewhere :
      (r : Record) × (stem : StemFile) × In r records
      × ((gov r).stem ≡ some stem)
      × IsTouched gov records inf stem (gov r).key
  pub everywhere :
      (r : Record) (stem : StemFile)
      → In r records
      → (gov r).stem ≡ some stem
      → IsTouched gov records inf stem (gov r).key
      → is_covered quoting inf stem ≡ true

-- A group that counts: it has a stem, and the stem or a record of the group has the field.
pub record Counts (inf : Inference) (g : ScopeGroup) (stem : StemFile) : Type 0 where
  pub governs : g.stem ≡ some stem
  pub relevant : is_relevant inf stem g.records ≡ true

-- What the loop over the groups finds.
record IsFound (quoting : Quoting) (inf : Inference) (relevant : Bool) (gs : List ScopeGroup)
    : Type 0 where
  somewhere :
      (relevant ≡ true) ⊎ ((g : ScopeGroup) × (stem : StemFile) × In g gs × Counts inf g stem)
  everywhere :
      (g : ScopeGroup) (stem : StemFile)
      → In g gs
      → Counts inf g stem
      → is_covered quoting inf stem ≡ true

module _ (quoting : Quoting) (inf : Inference) where
  -- A group that does not count changes nothing.
  passed :
      (relevant : Bool) (g : ScopeGroup) (gs : List ScopeGroup)
      → ((stem : StemFile) → ¬ Counts inf g stem)
      → IsFound quoting inf relevant gs ↔ IsFound quoting inf relevant (g ∷ gs)
  passed relevant g gs idle = (
    λ f. record {
      somewhere = elim f.somewhere [
        | inl e ↦ inl e
        | inr (h, stem, m, c) ↦ inr (h, stem, inr m, c)
      ];
      everywhere = λ h stem m c. elim m [
        | inl e ↦ absurd (idle stem (subst (λ z. Counts inf z stem) e c))
        | inr i ↦ f.everywhere h stem i c
      ];
    },
    λ f. record {
      somewhere = elim f.somewhere [
        | inl e ↦ inl e
        | inr (h, stem, m, c) ↦ elim m [
          | inl e ↦ absurd (idle stem (subst (λ z. Counts inf z stem) e c))
          | inr i ↦ inr (h, stem, i, c)
        ]
      ];
      everywhere = λ h stem m c. f.everywhere h stem (inr m) c;
    },
  )

  -- A group that counts and covers sets the flag.
  counted :
      (relevant : Bool) (g : ScopeGroup) (gs : List ScopeGroup) (stem : StemFile)
      → Counts inf g stem
      → is_covered quoting inf stem ≡ true
      → IsFound quoting inf true gs ↔ IsFound quoting inf relevant (g ∷ gs)
  counted relevant g gs stem c k = (
    λ f. record {
      somewhere = inr (g, stem, inl refl, c);
      everywhere = λ h other m d. elim m [
        | inl e ↦
            let same : some stem ≡ some other =
              sym c.governs ∙ ap (λ z. z.stem) (sym e) ∙ d.governs in
            subst (λ z. is_covered quoting inf z ≡ true) (some_inj same) k
        | inr i ↦ f.everywhere h other i d
      ];
    },
    λ f. record {
      somewhere = inl refl;
      everywhere = λ h other m d. f.everywhere h other (inr m) d;
    },
  )

  covered_in_iff :
      (gs : List ScopeGroup) (relevant : Bool)
      → (covered_in quoting inf relevant gs ≡ true) ↔ IsFound quoting inf relevant gs
  unfolding covered_in
  covered_in_iff [] relevant = (
    λ e. record { somewhere = inl e; everywhere = λ g stem m c. absurd m },
    λ f. elim f.somewhere [ inl e ↦ e | inr h ↦ absurd h.2 ],
  )
  covered_in_iff (g ∷ gs) relevant = elim (Option-cases g.stem) [
    | inl e ↦
        let skip = passed relevant g gs (λ stem c. absurd (ground (arith, e, c.governs))) in
        let ih = covered_in_iff gs relevant in
        let same : covered_in quoting inf relevant (g ∷ gs) ≡ covered_in quoting inf relevant gs =
          rw e refl in
        (λ h. skip.0 (ih.0 (sym same ∙ h)), λ f. same ∙ ih.1 (skip.1 f))
    | inr (stem, e) ↦ elim (Bool-cases (is_relevant inf stem g.records)) [
      | inr k ↦
          let idle : (other : StemFile) → ¬ Counts inf g other = λ other c. ground (
            arith,
            k,
            subst (λ z. is_relevant inf z g.records ≡ true) (some_inj (sym c.governs ∙ e))
                c.relevant,
          ) in
          let skip = passed relevant g gs idle in
          let ih = covered_in_iff gs relevant in
          let same : covered_in quoting inf relevant (g ∷ gs) ≡ covered_in quoting inf relevant gs =
            rw (e, k) refl in
          (λ h. skip.0 (ih.0 (sym same ∙ h)), λ f. same ∙ ih.1 (skip.1 f))
      | inl k ↦
          let here : Counts inf g stem = record { governs = e; relevant = k } in
          elim (Bool-cases (is_covered quoting inf stem)) [
            | inl c ↦
                let set = counted relevant g gs stem here c in
                let ih = covered_in_iff gs true in
                let same : covered_in quoting inf relevant (g ∷ gs)
                    ≡ covered_in quoting inf true gs =
                  rw (e, k, c) refl in
                (λ h. set.0 (ih.0 (sym same ∙ h)), λ f. same ∙ ih.1 (set.1 f))
            | inr c ↦ (
              λ h.
                  let same : covered_in quoting inf relevant (g ∷ gs) ≡ false = rw (e, k, c) refl in
                  absurd (ground (arith, h, same)),
              λ f. absurd (ground (arith, c, f.everywhere g stem (inl refl) here)),
            )
          ]
    ]
  ]

-- A group of the records seen counts just where its key is touched.
relevant_iff :
    (gov : Record → Governed) (records : List Record) (inf : Inference) (stem : StemFile)
    (g : ScopeGroup)
    → IsScope gov records g
    → (is_relevant inf stem g.records ≡ true) ↔ IsTouched gov records inf stem g.key
unfolding is_relevant
relevant_iff gov records inf stem g s = elim (Bool-cases (has inf.field stem.schema)) [
  | inl e ↦ (λ _. record { field = inl e }, λ _. ground (arith, e))
  | inr e ↦ (
    λ h.
        let (r, m, k) = (any_iff (has_field inf) g.records).0 (ground (arith, e, h)) in
        let (i, same) = (s.members r).0 m in record { field = inr (r, i, same, k) },
    λ t. elim t.field [
      | inl h ↦ ground (arith, e, h)
      | inr (r, i, same, k) ↦
          let found : any (has_field inf) g.records ≡ true =
            (any_iff (has_field inf) g.records).1 (r, (s.members r).1 (i, same), k) in
          ground (arith, e, found)
    ],
  )
]

group_of_key :
    (key : String) (gs : List ScopeGroup)
    → HasKey key gs
    → (g : ScopeGroup) × In g gs × (g.key ≡ key)
group_of_key key [] h = absurd h
group_of_key key (g ∷ gs) (inl e) = (g, inl refl, e)
group_of_key key (g ∷ gs) (inr h) = let (a, m, e) = group_of_key key gs h in (a, inr m, e)

-- One key, one stem.
abbrev pub AreAgreed : (Record → Governed) → List Record → Type 0
AreAgreed gov records =
    (a b : Record)
    → In a records
    → In b records
    → (gov a).key ≡ (gov b).key
    → (gov a).stem ≡ (gov b).stem

-- The group of a record has its key and its stem.
home :
    (gov : Record → Governed) (records : List Record) (gs : List ScopeGroup)
    → IsGrouped gov records gs
    → AreAgreed gov records
    → (r : Record) → In r records
    → (g : ScopeGroup) × In g gs × (g.key ≡ (gov r).key) × (g.stem ≡ (gov r).stem)
home gov records gs h agreed r i =
    let (g, m, e) = group_of_key (gov r).key gs (h.complete r i) in
    let s = All-In (IsScope gov records) gs h.scopes g m in
    let (first, j, k, q) = s.origin in (g, m, e, sym q ∙ agreed first r j i (k ∙ e))

covered_everywhere_iff :
    (quoting : Quoting) (inf : Inference) (gov : Record → Governed) (records : List Record)
    (gs : List ScopeGroup)
    → IsGrouped gov records gs
    → AreAgreed gov records
    → (covered_everywhere quoting inf gs ≡ true) ↔ IsCoveredAt quoting gov records inf
unfolding covered_everywhere
covered_everywhere_iff quoting inf gov records gs h agreed = (
  λ e.
      let f = (covered_in_iff quoting inf gs false).0 e in
      record {
        somewhere = elim f.somewhere [
          | inl e ↦ absurd (ground (arith, e))
          | inr (g, stem, m, c) ↦
              let s = All-In (IsScope gov records) gs h.scopes g m in
              let (r, i, k, q) = s.origin in
              let t = (relevant_iff gov records inf stem g s).0 c.relevant in
              (r, stem, i, q ∙ c.governs, subst (IsTouched gov records inf stem) (sym k) t)
        ];
        everywhere = λ r stem i q t.
            let (g, m, k, u) = home gov records gs h agreed r i in
            let s = All-In (IsScope gov records) gs h.scopes g m in
            let touched = subst (IsTouched gov records inf stem) (sym k) t in
            f.everywhere g stem m (record {
              governs = u ∙ q;
              relevant = (relevant_iff gov records inf stem g s).1 touched;
            });
      },
  λ c. (covered_in_iff quoting inf gs false).1 (record {
    somewhere =
        let (r, stem, i, q, t) = c.somewhere in
        let (g, m, k, u) = home gov records gs h agreed r i in
        let s = All-In (IsScope gov records) gs h.scopes g m in
        let touched = subst (IsTouched gov records inf stem) (sym k) t in
        inr (
          g,
          stem,
          m,
          record { governs = u ∙ q; relevant = (relevant_iff gov records inf stem g s).1 touched },
        );
    everywhere = λ g stem m d.
        let s = All-In (IsScope gov records) gs h.scopes g m in
        let (r, i, k, q) = s.origin in
        let t = (relevant_iff gov records inf stem g s).0 d.relevant in
        c.everywhere r stem i (q ∙ d.governs) (subst (IsTouched gov records inf stem) (sym k) t);
  }),
)

-- Where one key has one stem, an inference is kept just where it is given and is not covered: no
-- record lies in a scope that has the field, or some such scope does not cover it.
pub filter_covered_inferences_iff :
    (quoting : Quoting) (inferences : List Inference) (records : List Record) (root : String)
    (resolve : String → Governed)
    → AreAgreed (governed root resolve) records
    → (inf : Inference)
    → In inf (filter_covered_inferences quoting inferences records root resolve)
      ↔ (In inf inferences × ¬ IsCoveredAt quoting (governed root resolve) records inf)
unfolding filter_covered_inferences
filter_covered_inferences_iff quoting inferences records root resolve agreed inf =
    let groups = group_by_scope records root resolve in
    let passes = In-select (λ i. not (covered_everywhere quoting i groups)) inf inferences in
    let covered =
      covered_everywhere_iff quoting inf (governed root resolve) records groups
        (group_by_scope-IsGrouped records root resolve) agreed in
    ground (arith, passes, covered)
