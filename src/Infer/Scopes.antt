-- ===== src/Infer/Scopes.antt =====
-- The groups of GroupByScope, by the records that they are made from.
use mathlib.Core.List.{append-nil, append_assoc}
use rootline.Base.{
  String, ◌≡◌, ◌≢◌, ◌↔◌, ◌⊎◌, inl, inr, refl, sym, ◌∙◌, ap, subst, List, [], ◌∷◌, ◌++◌, In,
  In-append, arith, Bool-cases, ◌==◌, eq_iff, All,
}
use rootline.Base.FilePath.{dir, join}
use rootline.Extract.{Record}
use rootline.Infer.{Governed, ScopeGroup, add_to_scope, group_records, group_by_scope}

-- The answer of the resolver for the record's directory.
abbrev pub governed : String → (String → Governed) → Record → Governed
governed root resolve rec = resolve (dir (join root rec.path))

abbrev pub HasKey : String → List ScopeGroup → Type 0
HasKey key [] = ⊥
HasKey key (g ∷ gs) = (g.key ≡ key) ⊎ HasKey key gs

-- No two groups have one key.
abbrev pub AreApart : List ScopeGroup → Type 0
AreApart [] = Unit
AreApart (g ∷ gs) = (¬ HasKey g.key gs) × AreApart gs

HasKey-add_to_scope :
    (found : Governed) (rec : Record) (key : String) (gs : List ScopeGroup)
    → HasKey key (add_to_scope found rec gs) ↔ (HasKey key gs ⊎ (found.key ≡ key))
unfolding add_to_scope
HasKey-add_to_scope found rec key [] = ground arith
HasKey-add_to_scope found rec key (g ∷ gs) =
    ground (arith, HasKey-add_to_scope found rec key gs, eq_iff g.key found.key)

add_to_scope-AreApart :
    (found : Governed) (rec : Record) (gs : List ScopeGroup)
    → AreApart gs
    → AreApart (add_to_scope found rec gs)
unfolding add_to_scope
add_to_scope-AreApart found rec [] h = (λ e. e, tt)
add_to_scope-AreApart found rec (g ∷ gs) h = elim (Bool-cases (g.key == found.key)) [
  | inl e ↦ ground (arith, e, h)
  | inr e ↦ ground (
    arith,
    e,
    h,
    eq_iff g.key found.key,
    HasKey-add_to_scope found rec g.key gs,
    add_to_scope-AreApart found rec gs h.1,
  )
]

module _ (gov : Record → Governed) where
  -- The group of those records seen that are governed by its key; one of them gave the stem.
  pub record IsScope (seen : List Record) (g : ScopeGroup) : Type 0 where
    pub origin : (r : Record) × In r seen × ((gov r).key ≡ g.key) × ((gov r).stem ≡ g.stem)
    pub members : (r : Record) → In r g.records ↔ (In r seen × ((gov r).key ≡ g.key))

  In-last :
      (r rec : Record) (seen : List Record) → In r (seen ++ (rec ∷ [])) ↔ (In r seen ⊎ (r ≡ rec))
  In-last r rec seen = ground (arith, In-append r seen (rec ∷ []))

  untouched :
      (rec : Record) (seen : List Record) (g : ScopeGroup)
      → (g.key ≢ (gov rec).key)
      → IsScope seen g
      → IsScope (seen ++ (rec ∷ [])) g
  untouched rec seen g apart s = record {
    origin = let (r, m, k, e) = s.origin in (r, (In-last r rec seen).1 (inl m), k, e);
    members = λ r. (
      λ m. let (i, k) = (s.members r).0 m in ((In-last r rec seen).1 (inl i), k),
      λ m. elim ((In-last r rec seen).0 m.0) [
        | inl i ↦ (s.members r).1 (i, m.1)
        | inr e ↦ absurd (apart (sym m.1 ∙ ap (λ z. (gov z).key) e))
      ],
    );
  }

  grown :
      (rec : Record) (seen : List Record) (g : ScopeGroup)
      → g.key ≡ (gov rec).key
      → IsScope seen g
      → IsScope (seen ++ (rec ∷ [])) (record g { records = g.records ++ (rec ∷ []) })
  grown rec seen g same s = record {
    origin = let (r, m, k, e) = s.origin in (r, (In-last r rec seen).1 (inl m), k, e);
    members = λ r. (
      λ m. elim ((In-last r rec g.records).0 m) [
        | inl i ↦ let (j, k) = (s.members r).0 i in ((In-last r rec seen).1 (inl j), k)
        | inr e ↦ ((In-last r rec seen).1 (inr e), ap (λ z. (gov z).key) e ∙ sym same)
      ],
      λ m. elim ((In-last r rec seen).0 m.0) [
        | inl i ↦ (In-last r rec g.records).1 (inl ((s.members r).1 (i, m.1)))
        | inr e ↦ (In-last r rec g.records).1 (inr e)
      ],
    );
  }

  opened :
      (rec : Record) (seen : List Record)
      → ((r : Record) → In r seen → (gov r).key ≢ (gov rec).key)
      → IsScope
          (seen ++ (rec ∷ []))
          (record { key = (gov rec).key; stem = (gov rec).stem; records = rec ∷ [] })
  opened rec seen new = record {
    origin = (rec, (In-last rec rec seen).1 (inr refl), refl, refl);
    members = λ r. (
      λ m. elim m [
        | inl e ↦ ((In-last r rec seen).1 (inr e), ap (λ z. (gov z).key) e)
        | inr e ↦ absurd e
      ],
      λ m. elim ((In-last r rec seen).0 m.0) [ inl i ↦ absurd (new r i m.1) | inr e ↦ inl e ],
    );
  }

  all_untouched :
      (rec : Record) (seen : List Record) (gs : List ScopeGroup)
      → ¬ HasKey (gov rec).key gs
      → All (IsScope seen) gs
      → All (IsScope (seen ++ (rec ∷ []))) gs
  all_untouched rec seen [] new s = tt
  all_untouched rec seen (g ∷ gs) new s = (
    untouched rec seen g (λ e. new (inl e)) s.0,
    all_untouched rec seen gs (λ h. new (inr h)) s.1,
  )

  -- Every group is still one of the records seen, when a record is put in.
  add_to_scope-IsScope :
      (rec : Record) (seen : List Record) (gs : List ScopeGroup)
      → AreApart gs
      → All (IsScope seen) gs
      → (¬ HasKey (gov rec).key gs → (r : Record) → In r seen → (gov r).key ≢ (gov rec).key)
      → All (IsScope (seen ++ (rec ∷ []))) (add_to_scope (gov rec) rec gs)
  unfolding add_to_scope
  add_to_scope-IsScope rec seen [] apart s new = (opened rec seen (new (λ e. e)), tt)
  add_to_scope-IsScope rec seen (g ∷ gs) apart s new = elim (Bool-cases (g.key == (gov rec).key)) [
    | inl e ↦
        let same : g.key ≡ (gov rec).key = (eq_iff g.key (gov rec).key).0 e in
        rw e (
          grown rec seen g same s.0,
          all_untouched rec seen gs (subst (λ k. ¬ HasKey k gs) same apart.0) s.1,
        )
    | inr e ↦
        let other : g.key ≢ (gov rec).key =
          λ q. ground (arith, e, (eq_iff g.key (gov rec).key).1 q) in
        rw e (
          untouched rec seen g other s.0,
          add_to_scope-IsScope rec seen gs apart.1 s.1
              (λ fresh. new (λ h. elim h [ inl q ↦ other q | inr q ↦ fresh q ])),
        )
  ]

  -- The groups of the records seen: each is the scope of its key, and each record has one.
  pub record IsGrouped (seen : List Record) (groups : List ScopeGroup) : Type 0 where
    pub apart : AreApart groups
    pub scopes : All (IsScope seen) groups
    pub complete : (r : Record) → In r seen → HasKey (gov r).key groups

  add_to_scope-IsGrouped :
      (rec : Record) (seen : List Record) (gs : List ScopeGroup)
      → IsGrouped seen gs
      → IsGrouped (seen ++ (rec ∷ [])) (add_to_scope (gov rec) rec gs)
  add_to_scope-IsGrouped rec seen gs h = record {
    apart = add_to_scope-AreApart (gov rec) rec gs h.apart;
    scopes =
        add_to_scope-IsScope rec seen gs h.apart h.scopes
          (λ fresh r i e. fresh (subst (λ k. HasKey k gs) e (h.complete r i)));
    complete = λ r m.
        (HasKey-add_to_scope (gov rec) rec (gov r).key gs).1 (elim ((In-last r rec seen).0 m) [
          | inl i ↦ inl (h.complete r i)
          | inr e ↦ inr (ap (λ z. (gov z).key) (sym e))
        ]);
  }

group_records-IsGrouped :
    (root : String) (resolve : String → Governed) (recs seen : List Record) (gs : List ScopeGroup)
    → IsGrouped (governed root resolve) seen gs
    → IsGrouped (governed root resolve) (seen ++ recs) (group_records root resolve recs gs)
unfolding group_records
group_records-IsGrouped root resolve [] seen gs h =
    subst (λ l. IsGrouped (governed root resolve) l gs) (sym (append-nil seen)) h
group_records-IsGrouped root resolve (rec ∷ recs) seen gs h =
    let next = add_to_scope (governed root resolve rec) rec gs in
    subst (λ l. IsGrouped (governed root resolve) l (group_records root resolve recs next))
      (append_assoc seen (rec ∷ []) recs)
      (group_records-IsGrouped root resolve recs (seen ++ (rec ∷ [])) next
        (add_to_scope-IsGrouped (governed root resolve) rec seen gs h))

-- The groups have different keys; each holds just the records that the resolver gives its key, with
-- the stem of one of them; and each record's key has a group.
pub group_by_scope-IsGrouped :
    (records : List Record) (root : String) (resolve : String → Governed)
    → IsGrouped (governed root resolve) records (group_by_scope records root resolve)
unfolding group_by_scope
group_by_scope-IsGrouped records root resolve =
    group_records-IsGrouped root resolve records [] []
      (record { apart = tt; scopes = tt; complete = λ r i. absurd i })
