-- ===== src/Fsx/Atomic/Staging.antt =====
-- The staging file of internal/fsx/atomic.go from its creation to the clean-up.
use rootline.Base.{ℕ, String, ◌≡◌, refl, arith, Option, none, some, eq_refl}
use rootline.Base.Dict.{Dict, lookup}
use rootline.Fsx.{
  Inode, World, Faults, Result, ok, err, Errno, change, close_file, rename_file, remove_file,
  flushing, setting_mode, closing, replacing,
}
use rootline.Fsx.Atomic.{Writer, fill, fill_and_replace, clean_up}
use rootline.Fsx.Atomic.Steps.{
  SameBut-erase, lookup-erase, IsStaging, HasStaged, IsReplaced, fill-Ensures, change-Ensures,
  close_file-Ensures, rename_file-Ensures,
}
use rootline.Fsx.Ensures.{Ensures, continue-Ensures, Ensures-map}

-- The file that a successful write leaves.
abbrev pub written : Writer → ℕ → Inode
written write mode = record { content = (write "").0; synced = (write "").0; mode = mode }

abbrev pub empty : Inode
empty = record { content = ""; synced = ""; mode = 0o600 }

module _ (os : Faults) (write : Writer) (target : String) (mode : ℕ) where
  module _ (temp : String) (before : Dict Inode) (fresh : lookup temp before ≡ none) where
    abbrev pub Replaced : Unit {0} → World → Type 0
    Replaced _ w = ((write "").1 ≡ none) × IsReplaced temp target before (written write mode) w

    pub fill_and_replace-Ensures :
        (w : World)
        → HasStaged temp before empty w
        → Ensures Replaced (IsStaging temp before) (fill_and_replace os temp target mode write w)
    unfolding fill_and_replace
    fill_and_replace-Ensures w h =
        let staged = λ (inode : Inode) (w' : World). HasStaged temp before inode w' in
        let filled : Inode = record empty { content = (write "").0 } in
        let synced : Inode = record filled { synced = (write "").0 } in
        let final = written write mode in
        continue-Ensures (λ _ w'. ((write "").1 ≡ none) × staged filled w') Replaced
          (IsStaging temp before) _ (fill temp write w) (fill-Ensures temp before write empty w h)
          λ _ v g.
            continue-Ensures (λ _. staged synced) Replaced (IsStaging temp before) _
              (change flushing os.sync temp (λ inode. record inode { synced = inode.content }) v)
              (change-Ensures temp before flushing os.sync _ filled v g.1)
              λ _ v' g'.
                continue-Ensures (λ _. staged final) Replaced (IsStaging temp before) _
                  (change setting_mode os.chmod temp (λ inode. record inode { mode = mode }) v')
                  (change-Ensures temp before setting_mode os.chmod _ synced v' g')
                  λ _ v'' g''.
                    continue-Ensures (λ _. staged final) Replaced (IsStaging temp before) _
                      (close_file closing os.close temp v'')
                      (close_file-Ensures temp before closing os.close final v'' g'')
                      λ _ u k.
                        Ensures-map (λ _. IsReplaced temp target before final) Replaced
                          (IsStaging temp before) (IsStaging temp before)
                          (rename_file replacing os.rename temp target u)
                          (rename_file-Ensures temp target before fresh replacing os.rename final u
                            k)
                          (λ _ _ r. (g.0, r)) (λ _ r. r)

    -- After an error the staging file is gone, if it can be removed.
    abbrev pub Cleaned : World → Type 0
    Cleaned w = IsStaging temp before w × (os.remove ≡ none → lookup temp w.files ≡ none)

    remove_file-Cleaned :
        (fault : Option Errno) (w : World)
        → os.remove ≡ fault
        → IsStaging temp before w
        → Cleaned (remove_file fault temp w)
    unfolding remove_file
    remove_file-Cleaned none w e h = (
      (SameBut-erase temp before w.files h.0, h),
      λ _. ground (arith, lookup-erase temp temp w.files, eq_refl temp),
    )
    remove_file-Cleaned (some x) w e h = (h, λ free. ground arith)

    close_file-IsStaging :
        (fault : Option Errno) (w : World)
        → IsStaging temp before w
        → IsStaging temp before (close_file closing fault temp w).1
    unfolding close_file
    close_file-IsStaging none w h = h
    close_file-IsStaging (some e) w h = h

    pub clean_up-Ensures :
        (r : Result Unit × World)
        → Ensures Replaced (IsStaging temp before) r
        → Ensures Replaced Cleaned (clean_up os temp r)
    unfolding clean_up
    clean_up-Ensures (ok _, w) h = h
    clean_up-Ensures (err stage e, w) h =
        remove_file-Cleaned os.remove _ refl (close_file-IsStaging os.close w h)
