-- ===== src/Rules/Structure/Laws.antt =====
-- Which directories pass.
use rootline.Base.{
  ℕ, ◌≤◌, String, zero, suc, ◌≡◌, ◌≢◌, ◌↔◌, refl, sym, subst, Option, none, some, some_inj, List,
  [], ◌∷◌, ◌++◌, Bool, true, false, ◌==◌, ◌&&◌, eq_iff, if◌then◌else◌, length, All, arith,
}
use rootline.Base.Int.{ℤ, pos, negsuc, is_positive}
use rootline.Rules.{StemFile, SubdirRules, structural_empty}
use rootline.Rules.Structure.{
  DirEntry, Stat, missing, failed, present, DirectoryError, subdirs_of, below, beyond, index_rule,
  index_errors, one_error, directory_errors, effective_severity, validate_directory,
}

-- A lower bound that is set, and an upper one.
abbrev pub AtLeast : ℤ → ℕ → Type 0
AtLeast (pos m) n = m ≤ n
AtLeast (negsuc m) n = Unit

abbrev pub AtMost : ℤ → ℕ → Type 0
AtMost i n = is_positive i ≡ true → (m : ℕ) → i ≡ pos m → n ≤ m

-- The rules on the number of subdirectories and on the index file of each.
pub record Meets (stat : String → Stat) (rules : SubdirRules) (subdirs : List String) : Type 0 where
  pub enough : AtLeast rules.min_children (length subdirs)
  pub few : AtMost rules.max_children (length subdirs)
  pub indexed : rules.require_index ≢ "" → All (λ d. stat d ≡ present true) subdirs

enough_iff : (i : ℤ) (n : ℕ) → ((is_positive i && below n i) ≡ false) ↔ AtLeast i n
unfolding is_positive
enough_iff (pos zero) n = ground arith
enough_iff (pos (suc m)) n = ground arith
enough_iff (negsuc m) n = ground arith

pos_inj : (m n : ℕ) → pos m ≡ pos n → m ≡ n
pos_inj m n h = cc

few_iff : (i : ℤ) (n : ℕ) → ((is_positive i && beyond n i) ≡ false) ↔ AtMost i n
unfolding is_positive
few_iff (pos zero) n = (λ h p. ground (arith, p), λ h. refl)
few_iff (pos (suc m)) n =
    (λ h p k e. ground (arith, h, pos_inj (suc m) k e), λ h. ground (arith, h refl (suc m) refl))
few_iff (negsuc m) n = (λ h p. ground (arith, p), λ h. refl)

index_iff : (s : Stat) → (index_rule s ≡ none) ↔ (s ≡ present true)
unfolding index_rule
index_iff missing = ground arith
index_iff failed = ground arith
index_iff (present true) = ground arith
index_iff (present false) = ground arith

indexed_iff :
    (stat : String → Stat) (source severity : String) (ds : List String)
    → (index_errors stat source severity ds ≡ []) ↔ All (λ d. stat d ≡ present true) ds
unfolding index_errors
indexed_iff stat source severity [] = ground arith
indexed_iff stat source severity (d ∷ ds) =
    ground (arith, index_iff (stat d), indexed_iff stat source severity ds)

append_nil_iff : (xs ys : List DirectoryError) → (xs ++ ys ≡ []) ↔ ((xs ≡ []) × (ys ≡ []))
append_nil_iff [] ys = ground arith
append_nil_iff (x ∷ xs) ys = ground arith

one_error_iff :
    (wrong : Bool) (rule source severity : String)
    → (one_error wrong rule source severity ≡ []) ↔ (wrong ≡ false)
one_error_iff true rule source severity = ground arith
one_error_iff false rule source severity = ground arith

where_required :
    (index : String) (xs : List DirectoryError)
    → ((if index == "" then [] else xs) ≡ []) ↔ (index ≢ "" → xs ≡ [])
where_required index xs = ground (arith, eq_iff index "")

directory_iff :
    (stat : String → Stat) (rules : SubdirRules) (source : String) (ds : List String)
    → (directory_errors stat rules source ds ≡ []) ↔ Meets stat rules ds
unfolding directory_errors
directory_iff stat rules source ds =
    let severity = effective_severity rules.severity in
    let low = is_positive rules.min_children && below (length ds) rules.min_children in
    let high = is_positive rules.max_children && beyond (length ds) rules.max_children in
    let a = one_error low "min_children" source severity in
    let b = one_error high "max_children" source severity in
    let c = if rules.require_index == "" then [] else index_errors stat source severity ds in
    let required = where_required rules.require_index (index_errors stat source severity ds) in
    let every = indexed_iff stat source severity ds in
    (
      λ h.
          let (q, t) = (append_nil_iff (a ++ b) c).0 h in
          let (p, r) = (append_nil_iff a b).0 q in
          record {
            enough =
                (enough_iff rules.min_children (length ds)).0
                  ((one_error_iff low "min_children" source severity).0 p);
            few =
                (few_iff rules.max_children (length ds)).0
                  ((one_error_iff high "max_children" source severity).0 r);
            indexed = λ ne. every.0 (required.0 t ne);
          },
      λ m. (append_nil_iff (a ++ b) c).1 (
        (append_nil_iff a b).1 (
          (one_error_iff low "min_children" source severity).1
              ((enough_iff rules.min_children (length ds)).1 m.enough),
          (one_error_iff high "max_children" source severity).1
              ((few_iff rules.max_children (length ds)).1 m.few),
        ),
        required.1 (λ ne. every.1 (m.indexed ne)),
      ),
    )

-- A directory with structural rules passes just where it can be read, and has as many subdirectories
-- as the rules allow, each with its index as a regular file if one is required.
pub validate_directory-eq-nil :
    (entries : Option (List DirEntry)) (stat : String → Stat) (stem : StemFile)
    → structural_empty stem.structural ≡ false
    → (validate_directory entries stat stem ≡ [])
      ↔ ((es : List DirEntry) × (entries ≡ some es) × Meets stat stem.structural (subdirs_of es))
unfolding validate_directory
validate_directory-eq-nil none stat stem h =
    rw (h, validate_directory) (λ e. absurd (ground (arith, e)), λ m. absurd (ground (arith, m.1)))
validate_directory-eq-nil (some es) stat stem h =
    let fits = directory_iff stat stem.structural stem.path (subdirs_of es) in
    rw (h, validate_directory)
      (
        λ e. (es, refl, fits.0 e),
        λ m.
            fits.1
              (subst (λ z. Meets stat stem.structural (subdirs_of z)) (sym (some_inj m.1)) m.2),
      )
