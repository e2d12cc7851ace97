-- ===== src/Fsx/Atomic/Steps.antt =====
-- The calls of internal/fsx/atomic.go on a staging file, one at a time.
use rootline.Base.{
  ℕ, zero, suc, String, ◌≡◌, refl, ap, ◌∙◌, ◌≢◌, ◌⊎◌, inl, inr, arith, Option, none, some, [], ◌∷◌,
  All, if◌then◌else◌, ◌==◌, eq_iff, eq_refl, Bool-cases, Option-cases,
}
use rootline.Base.Dict.{Dict, lookup, has, insert, lookup-insert, has-lookup}
use rootline.Base.FilePath.{join}
use rootline.Fsx.{
  Inode, World, Faults, ok, Errno, not_exist, exist, other_errno, set_files, change, close_file,
  create_exclusive, rename_file, erase, Stage,
}
use rootline.Fsx.Atomic.{Writer, fill, create_root_temp, random_root_temp_name}
use rootline.Fsx.Ensures.{Ensures, Result-cases}

-- The table differs from an earlier one at one path at most.
abbrev pub SameBut : String → Dict Inode → Dict Inode → Type 0
SameBut path before table = (p : String) → p ≢ path → lookup p table ≡ lookup p before

pub SameBut-insert :
    (path : String) (before table : Dict Inode) (inode : Inode)
    → SameBut path before table
    → SameBut path before (insert path inode table)
SameBut-insert path before table inode h p ne =
    ground (arith, lookup-insert path p inode table, eq_iff path p, h p ne)

pub lookup-erase :
    (path p : String) (table : Dict Inode)
    → lookup p (erase path table) ≡ (if path == p then none else lookup p table)
unfolding lookup erase
lookup-erase path p [] = ground arith
lookup-erase path p (entry ∷ table) =
    ground (arith, lookup-erase path p table, eq_iff entry.0 path, eq_iff entry.0 p, eq_iff path p)

pub SameBut-erase :
    (path : String) (before table : Dict Inode)
    → SameBut path before table
    → SameBut path before (erase path table)
SameBut-erase path before table h p ne =
    ground (arith, lookup-erase path p table, eq_iff path p, h p ne)

-- All tables from the start on are the one before but for the staging file.
abbrev pub IsStaging : String → Dict Inode → World → Type 0
IsStaging temp before w = All (SameBut temp before) (w.files ∷ w.past)

-- And the staging file is there.
abbrev pub HasStaged : String → Dict Inode → Inode → World → Type 0
HasStaged temp before inode w = IsStaging temp before w × (lookup temp w.files ≡ some inode)

module _ (temp : String) (before : Dict Inode) where
  set_files-HasStaged :
      (inode : Inode) (w : World)
      → IsStaging temp before w
      → HasStaged temp before inode (set_files (insert temp inode w.files) w)
  set_files-HasStaged inode w h = (
    (SameBut-insert temp before w.files inode h.0, h),
    ground (arith, lookup-insert temp temp inode w.files, eq_refl temp),
  )

  pub fill-Ensures :
      (write : Writer) (inode : Inode) (w : World)
      → HasStaged temp before inode w
      → Ensures
          (λ _ w'.
            ((write inode.content).1 ≡ none)
            × HasStaged temp before (record inode { content = (write inode.content).0 }) w')
          (IsStaging temp before)
          (fill temp write w)
  unfolding fill
  fill-Ensures write inode w h =
      let filled : Inode = record inode { content = (write inode.content).0 } in
      elim (Option-cases ((write inode.content).1)) [
        | inl e ↦ rw (h.1, fill) (rw e (refl, set_files-HasStaged filled w h.0))
        | inr (_, e) ↦ rw (h.1, fill) (rw e (set_files-HasStaged filled w h.0).0)
      ]

  pub change-Ensures :
      (stage : Stage) (fault : Option Errno) (f : Inode → Inode) (inode : Inode) (w : World)
      → HasStaged temp before inode w
      → Ensures
          (λ _ w'. HasStaged temp before (f inode) w')
          (IsStaging temp before)
          (change stage fault temp f w)
  unfolding change
  change-Ensures stage (some e) f inode w h = h.0
  change-Ensures stage none f inode w h = rw (h.1, change) (set_files-HasStaged (f inode) w h.0)

  pub close_file-Ensures :
      (stage : Stage) (fault : Option Errno) (inode : Inode) (w : World)
      → HasStaged temp before inode w
      → Ensures
          (λ _ w'. HasStaged temp before inode w')
          (IsStaging temp before)
          (close_file stage fault temp w)
  unfolding close_file
  close_file-Ensures stage none inode w h = h
  close_file-Ensures stage (some e) inode w h = h.0

-- The target is the staged file, the staging file is gone, and so it was at no earlier moment.
abbrev pub IsReplaced : String → String → Dict Inode → Inode → World → Type 0
IsReplaced temp target before inode w =
    All (SameBut temp before) w.past
    × (lookup target w.files ≡ some inode)
    × SameBut target before w.files

module _ (temp target : String) (before : Dict Inode) (fresh : lookup temp before ≡ none) where
  SameBut-rename :
      (inode : Inode) (table : Dict Inode)
      → SameBut temp before table
      → SameBut target before (insert target inode (erase temp table))
  SameBut-rename inode table h p ne = elim (Bool-cases (temp == p)) [
    | inl e ↦
        let same : temp ≡ p = (eq_iff temp p).0 e in
        ground (
          arith,
          lookup-insert target p inode (erase temp table),
          lookup-erase temp p table,
          eq_iff target p,
          fresh,
          same,
        )
    | inr e ↦ ground (
      arith,
      lookup-insert target p inode (erase temp table),
      lookup-erase temp p table,
      eq_iff target p,
      eq_iff temp p,
      h p,
    )
  ]

  pub rename_file-Ensures :
      (stage : Stage) (fault : Option Errno) (inode : Inode) (w : World)
      → HasStaged temp before inode w
      → Ensures
          (λ _ w'. IsReplaced temp target before inode w')
          (IsStaging temp before)
          (rename_file stage fault temp target w)
  unfolding rename_file
  rename_file-Ensures stage (some e) inode w h = h.0
  rename_file-Ensures stage none inode w h =
      rw (h.1, rename_file)
        (
          h.0,
          lookup-insert target target inode (erase temp w.files) ∙ rw (eq_refl target),
          SameBut-rename inode w.files h.0.0,
        )

-- A staging file is a new one and empty; where none is made, nothing changes.
abbrev pub IsCreated : Faults → String → World → String → World → Type 0
IsCreated os parent w temp w' =
    ((attempt : ℕ) × (name : String) × (random_root_temp_name os attempt ≡ ok name)
      × (temp ≡ join parent name))
    × (lookup temp w.files ≡ none)
    × (w'
        ≡ record (set_files
            (insert temp (record { content = ""; synced = ""; mode = 0o600 }) w.files) w) {
              handles = temp ∷ w.handles;
            })

abbrev after : {A : Type 0} → A × World → World
after r = r.1

create_exclusive-cases :
    (fault : Option Errno) (path : String) (mode : ℕ) (w : World)
    → ((lookup path w.files ≡ none)
        × (create_exclusive fault path mode w ≡ (
          none,
          record (set_files
              (insert path (record { content = ""; synced = ""; mode = mode }) w.files)
              w) { handles = path ∷ w.handles },
        )))
      ⊎ ((e : Errno) × (create_exclusive fault path mode w ≡ (some e, w)))
unfolding create_exclusive
create_exclusive-cases (some e) path mode w = inr (e, refl)
create_exclusive-cases none path mode w = elim (Bool-cases (has path w.files)) [
  | inl e ↦ inr (exist, rw e)
  | inr e ↦ inl ((has-lookup path w.files).0 e, rw e)
]

pub create_root_temp-Ensures :
    (os : Faults) (parent : String) (tries attempt : ℕ) (w : World)
    → Ensures (IsCreated os parent w) (λ w'. w' ≡ w) (create_root_temp os parent tries attempt w)
unfolding create_root_temp
create_root_temp-Ensures os parent zero attempt w = refl
create_root_temp-Ensures os parent (suc tries) attempt w =
    elim (Result-cases (random_root_temp_name os attempt)) [
      | inr (_, _, e) ↦ rw (e, create_root_temp) refl
      | inl (name, e) ↦
          rw (e, create_root_temp)
            (elim (create_exclusive-cases (os.create attempt) (join parent name) 0o600 w) [
              | inl (absent, made) ↦ rw made ((attempt, name, e, refl), absent, ap after made)
              | inr (exist, made) ↦
                  rw made
                    (rw (ap after made) (create_root_temp-Ensures os parent tries (suc attempt) w))
              | inr (not_exist, made) ↦ rw made (ap after made)
              | inr (other_errno _, made) ↦ rw made (ap after made)
            ])
    ]
