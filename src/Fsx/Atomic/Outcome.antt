-- ===== src/Fsx/Atomic/Outcome.antt =====
-- What an atomic write of internal/fsx/atomic.go leaves, whatever fails, and at every moment.
use Prim.Native.String.append
use rootline.Base.{
  ℕ, String, ◌≡◌, refl, ap, ◌∙◌, ◌≢◌, ◌⊎◌, inl, inr, arith, none, some, [], Option-cases, All,
  subst, sym, eq_refl, Bool-cases, ◌==◌, eq_iff,
}
use rootline.Base.Dict.{Dict, lookup, lookup-insert}
use rootline.Base.FilePath.{join, dir}
use rootline.Fsx.{Inode, World, Faults, Result, ok, err, Errno, Stage, stat_file, stating}
use rootline.Fsx.Atomic.{
  Writer, create_root_temp, random_root_temp_name, fill_and_replace, clean_up, write_staged,
  target_mode, mode_for, write_file_atomic, write_content_atomic, write_all, os_tries,
}
use rootline.Fsx.Atomic.Steps.{
  SameBut, SameBut-insert, IsStaging, HasStaged, IsReplaced, IsCreated, create_root_temp-Ensures,
}
use rootline.Fsx.Ensures.{
  Ensures, continue-Ensures, Ensures-map, Ensures-ok, Ensures-err, Result-cases,
}
use rootline.Fsx.Atomic.Staging.{
  written, empty, Replaced, Cleaned, fill_and_replace-Ensures, clean_up-Ensures,
}

-- The mode that the new file gets.
abbrev pub kept_mode : Faults → String → ℕ → World → Result ℕ
kept_mode os target perm w = mode_for (stat_file stating os.stat target w) perm

module _ (os : Faults) (parent : String) (tries : ℕ) (target : String) (perm : ℕ) (write : Writer)
    (start : World) where
  abbrev pub IsTemp : String → Type 0
  IsTemp temp =
      ((attempt : ℕ) × (name : String) × (random_root_temp_name os attempt ≡ ok name)
        × (temp ≡ join parent name))
      × (lookup temp start.files ≡ none)

  abbrev pub Succeeded : Unit {0} → World → Type 0
  Succeeded _ w =
      (temp : String) × (mode : ℕ) × IsTemp temp
      × (kept_mode os target perm start ≡ ok mode)
      × ((write "").1 ≡ none)
      × IsReplaced temp target start.files (written write mode) w

  abbrev pub Failed : World → Type 0
  Failed w =
      (w ≡ start)
      ⊎ ((temp : String) × IsTemp temp
          × IsStaging temp start.files w
          × (os.remove ≡ none → lookup temp w.files ≡ none))

  created-HasStaged :
      (temp : String) (w : World)
      → start.past ≡ []
      → IsCreated os parent start temp w
      → HasStaged temp start.files empty w
  created-HasStaged temp w clean h = subst (HasStaged temp start.files empty) (sym h.2) (
    (
      SameBut-insert temp start.files start.files empty (λ _ _. refl),
      (λ _ _. refl, subst (All (SameBut temp start.files)) (sym clean) tt),
    ),
    lookup-insert temp temp empty start.files ∙ rw (eq_refl temp),
  )

  staged-Ensures :
      (mode : ℕ) (temp : String) (w : World)
      → start.past ≡ []
      → kept_mode os target perm start ≡ ok mode
      → IsCreated os parent start temp w
      → Ensures Succeeded Failed (clean_up os temp (fill_and_replace os temp target mode write w))
  staged-Ensures mode temp w clean m h =
      Ensures-map (Replaced os write target mode temp start.files h.1) Succeeded
        (Cleaned os write target mode temp start.files h.1) Failed _
        (clean_up-Ensures os write target mode temp start.files h.1 _ (
          fill_and_replace-Ensures os write target mode temp start.files h.1 w
            (created-HasStaged temp w clean h)))
        (λ _ _ r. (temp, mode, (h.0, h.1), m, r.0, r.1)) (λ _ r. inr (temp, (h.0, h.1), r.0, r.1))

  pub write_staged-Ensures :
      start.past ≡ []
      → Ensures Succeeded Failed (write_staged os parent tries target perm write start)
  unfolding write_staged target_mode
  write_staged-Ensures clean = elim (Result-cases (kept_mode os target perm start)) [
    | inr (stage, e, m) ↦ rw (m, write_staged) (inl refl)
    | inl (mode, m) ↦
        rw (m, write_staged)
          (continue-Ensures (IsCreated os parent start) Succeeded Failed
            (λ temp w. clean_up os temp (fill_and_replace os temp target mode write w))
            (create_root_temp os parent tries 0 start)
            (Ensures-map (IsCreated os parent start) (IsCreated os parent start) (λ w. w ≡ start)
              Failed _ (create_root_temp-Ensures os parent tries 0 start) (λ _ _ h. h)
              (λ _ h. inl h))
            (λ temp w h. staged-Ensures mode temp w clean m h))
  ]

-- The file that holds all of a content, safe from a crash.
abbrev pub complete : String → ℕ → Inode
complete content mode = record { content = content; synced = content; mode = mode }

pub complete_of_written :
    (os : Faults) (content : String) (mode : ℕ)
    → (write_all os content "").1 ≡ none
    → written (write_all os content) mode ≡ complete content mode
unfolding write_all
complete_of_written os content mode h = elim (Option-cases (os.write)) [
  | inl e ↦ rw (e, write_all) (ap (λ (s : String). complete s mode) (append.nil content))
  | inr (x, e) ↦ ground (arith, e, h)
]

unchanged_of_cleaned :
    (temp : String) (before table : Dict Inode)
    → lookup temp before ≡ none
    → SameBut temp before table
    → lookup temp table ≡ none
    → (p : String) → lookup p table ≡ lookup p before
unchanged_of_cleaned temp before table absent same gone p = elim (Bool-cases (p == temp)) [
  | inl e ↦ let here : p ≡ temp = (eq_iff p temp).0 e in rw here (gone ∙ sym absent)
  | inr e ↦ same p (λ h. absurd (ground (arith, eq_iff p temp, e, h)))
]

module _ (os : Faults) (target content : String) (perm : ℕ) (start : World)
    (clean : start.past ≡ []) where
  abbrev pub Success : Unit {0} → World → Type 0
  Success = Succeeded os (dir target) os_tries target perm (write_all os content) start

  abbrev pub Failure : World → Type 0
  Failure = Failed os (dir target) os_tries target perm (write_all os content) start

  pub write_content-Ensures :
      Ensures Success Failure (write_content_atomic os target content perm start)
  unfolding write_content_atomic write_file_atomic
  write_content-Ensures =
      write_staged-Ensures os (dir target) os_tries target perm (write_all os content) start clean

  -- If WriteFileAtomic returns an error, and the removal of the staging file does not fail, then
  -- every path holds the same file as before, or none as before.
  pub write_content_atomic_error :
      {stage : Stage} {e : Errno}
      → os.remove ≡ none
      → (write_content_atomic os target content perm start).0 ≡ err stage e
      → (p : String)
      → lookup p (write_content_atomic os target content perm start).1.files ≡ lookup p start.files
  write_content_atomic_error free failed p =
      elim (Ensures-err Success Failure _ write_content-Ensures failed) [
        | inl same ↦ ap (λ (w : World). lookup p w.files) same
        | inr (temp, isTemp, staging, gone) ↦
            unchanged_of_cleaned temp start.files _ isTemp.1 staging.0 (gone free) p
      ]

  -- If WriteFileAtomic returns no error, then the target holds all of the content, safe from a
  -- crash, with the mode that the target had, or the mode given where there was no target; and
  -- every other file is as it was.
  pub write_content_atomic_ok :
      (write_content_atomic os target content perm start).0 ≡ ok tt
      → (mode : ℕ) × (kept_mode os target perm start ≡ ok mode)
        × (lookup target (write_content_atomic os target content perm start).1.files
            ≡ some (complete content mode))
        × ((p : String)
            → p ≢ target
            → lookup p (write_content_atomic os target content perm start).1.files
              ≡ lookup p start.files)
  write_content_atomic_ok done =
      let (temp, mode, isTemp, kept, all, replaced) =
        Ensures-ok Success Failure _ write_content-Ensures done in
      (mode, kept, replaced.1 ∙ ap some (complete_of_written os content mode all), replaced.2)
