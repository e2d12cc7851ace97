-- ===== src/Fsx/Atomic/Crash.antt =====
-- An atomic write of internal/fsx/atomic.go, cut short at any moment.
use rootline.Base.{
  ℕ, String, ◌≡◌, refl, ap, ◌∙◌, ◌≢◌, ◌⊎◌, inl, inr, arith, true, none, some, List, [], ◌∷◌, All,
  All-map, subst, sym, Bool-cases, ◌==◌, eq_iff,
}
use rootline.Base.Dict.{Dict, lookup, has, has-lookup}
use rootline.Base.FilePath.{join, dir}
use rootline.Fsx.{Inode, World, Faults, ok}
use rootline.Fsx.Atomic.{random_root_temp_name, write_content_atomic, write_all, os_tries}
use rootline.Fsx.Atomic.Steps.{SameBut}
use rootline.Fsx.Ensures.{Ensures-both}
use rootline.Fsx.Atomic.Outcome.{
  IsTemp, Succeeded, Failed, kept_mode, complete, complete_of_written, write_content-Ensures,
}

-- A table of files in which each file that was there, and the target, is as it was, or is the
-- target with all of the new content.
abbrev pub IsOldOrNew : Faults → String → String → ℕ → World → Dict Inode → Type 0
IsOldOrNew os target content perm start table =
    (p : String)
    → (has p start.files ≡ true) ⊎ (p ≡ target)
    → (lookup p table ≡ lookup p start.files)
      ⊎ ((p ≡ target)
          × ((mode : ℕ) × (kept_mode os target perm start ≡ ok mode)
              × (lookup p table ≡ some (complete content mode))))

-- The tables of files that there were, the last first.
abbrev pub moments : World → List (Dict Inode)
moments w = w.files ∷ w.past

-- No try at a name for the staging file gives the target's.
abbrev pub AvoidsTarget : Faults → String → Type 0
AvoidsTarget os target =
    (attempt : ℕ) (name : String)
    → random_root_temp_name os attempt ≡ ok name
    → join (dir target) name ≢ target

moments_map :
    (P Q : Dict Inode → Type 0) (w : World)
    → ((table : Dict Inode) → P table → Q table)
    → All P (moments w)
    → All Q (moments w)
moments_map P Q w f h = All-map P Q (moments w) f h

module _ (os : Faults) (target content : String) (perm : ℕ) (start : World)
    (clean : start.past ≡ []) (avoids : AvoidsTarget os target) where
  not_temp :
      (temp p : String)
      → IsTemp os (dir target) os_tries target perm (write_all os content) start temp
      → (has p start.files ≡ true) ⊎ (p ≡ target)
      → p ≢ temp
  not_temp temp p isTemp (inl there) same = ground (
    arith,
    has-lookup p start.files,
    isTemp.1,
    subst (λ t. lookup t start.files ≡ none) (sym same) isTemp.1,
  )
  not_temp temp p isTemp (inr here) same =
      avoids isTemp.0.0 isTemp.0.1 isTemp.0.2 (sym isTemp.0.3 ∙ sym same ∙ here)

  staging-IsOldOrNew :
      (temp : String)
      → IsTemp os (dir target) os_tries target perm (write_all os content) start temp
      → (table : Dict Inode) → SameBut temp start.files table
      → IsOldOrNew os target content perm start table
  staging-IsOldOrNew temp isTemp table same p h = inl (same p (not_temp temp p isTemp h))

  -- At every moment of WriteFileAtomic, whatever fails: each file that was there before, and the
  -- target, is as it was before, or it is the target with all of the new content, flushed, and its
  -- final mode; so a crash finds one or the other. The names tried for the staging file must not
  -- be the target's.
  pub write_content_atomic_crash :
      All
        (IsOldOrNew os target content perm start)
        (moments (write_content_atomic os target content perm start).1)
  write_content_atomic_crash =
      elim (Ensures-both
        (Succeeded os (dir target) os_tries target perm (write_all os content) start)
        (Failed os (dir target) os_tries target perm (write_all os content) start) _
        (write_content-Ensures os target content perm start clean)) [
          | inl (_, (temp, mode, isTemp, kept, full, (staged, placed, rest))) ↦ (
            (λ p _. elim (Bool-cases (p == target)) [
              | inl e ↦
                  let here : p ≡ target = (eq_iff p target).0 e in
                  inr (
                    here,
                    (
                      mode,
                      kept,
                      rw here placed ∙ ap some (complete_of_written os content mode full),
                    ),
                  )
              | inr e ↦ inl (rest p (λ h. absurd (ground (arith, eq_iff p target, e, h))))
            ]),
            All-map _ _ _ (staging-IsOldOrNew temp isTemp) staged,
          )
          | inr (inl same) ↦
              subst (λ (w : World). All (IsOldOrNew os target content perm start) (moments w))
                (sym same)
                (
                  (λ _ _. inl refl),
                  subst (All (IsOldOrNew os target content perm start)) (sym clean) tt,
                )
          | inr (inr (temp, isTemp, staging, _)) ↦
              moments_map _ _ (write_content_atomic os target content perm start).1
                (staging-IsOldOrNew temp isTemp) staging
        ]
