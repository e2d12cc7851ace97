-- ===== src/Fsx/Atomic/Finishes.antt =====
-- That an atomic write of internal/fsx/atomic.go is done where nothing fails.
use rootline.Base.{
  ℕ, ◌<◌, String, ◌≡◌, refl, ◌∙◌, arith, subst, sym, false, Option, none, some, Option-cases,
  eq_refl, inl, inr,
}
use rootline.Base.Dict.{lookup, has, lookup-insert}
use rootline.Base.FilePath.{join, dir}
use rootline.Fsx.{
  Inode, World, Faults, Errno, Io, Stage, Result, ok, err, stat_file, continue, change, close_file,
  rename_file, flushing, setting_mode, closing, replacing,
}
use rootline.Fsx.Ensures.{Ensures, ok_inj}
use rootline.Fsx.Atomic.{
  Writer, fill_and_replace, fill, clean_up, target_mode, mode_for, write_staged, write_file_atomic,
  write_content_atomic, write_all, os_tries, temp_name,
}
use rootline.Fsx.Atomic.Names.{IsQuiet, HasFound, create_finds}

whole_written :
    (os : Faults) (content staged : String)
    → os.write ≡ none
    → (write_all os content staged).1 ≡ none
unfolding write_all
whole_written os content staged h = rw (h, write_all) refl

-- The call succeeds and the staging file is there after it.
abbrev Goes : String → Result Unit × World → Type 0
Goes temp = Ensures (λ _ w. (inode : Inode) × (lookup temp w.files ≡ some inode)) (λ _. ⊥)

abbrev Ends : Result Unit × World → Type 0
Ends = Ensures (λ _ _. Unit {0}) (λ _. ⊥)

module _ (temp : String) (inode : Inode) (w : World)
    (there : lookup temp w.files ≡ some inode) where
  change-Goes :
      (stage : Stage) (fault : Option Errno) (f : Inode → Inode)
      → fault ≡ none
      → Goes temp (change stage fault temp f w)
  unfolding change
  change-Goes stage none f _ =
      rw (there, change) (f inode, lookup-insert temp temp (f inode) w.files ∙ rw (eq_refl temp))
  change-Goes stage (some e) f h = absurd (cc)

  fill-Goes : (write : Writer) → (write inode.content).1 ≡ none → Goes temp (fill temp write w)
  unfolding fill
  fill-Goes write h =
      let filled : Inode = record inode { content = (write inode.content).0 } in
      rw (there, fill) (rw h (filled, lookup-insert temp temp filled w.files ∙ rw (eq_refl temp)))

  close-Goes :
      (stage : Stage) (fault : Option Errno)
      → fault ≡ none
      → Goes temp (close_file stage fault temp w)
  unfolding close_file
  close-Goes stage none _ = (inode, there)
  close-Goes stage (some e) h = absurd (cc)

  rename-Ends :
      (stage : Stage) (fault : Option Errno) (target : String)
      → fault ≡ none
      → Ends (rename_file stage fault temp target w)
  unfolding rename_file
  rename-Ends stage none target _ = rw (there, rename_file) tt
  rename-Ends stage (some e) target h = absurd (cc)

Goes-continue :
    (temp : String) (f : Unit → Io Unit) (r : Result Unit × World)
    → Goes temp r
    → ((w : World) (inode : Inode) → lookup temp w.files ≡ some inode → Ends (f tt w))
    → Ends (continue r f)
Goes-continue temp f (ok tt, w) h k = k w h.0 h.1
Goes-continue temp f (err stage e, w) h k = h

Ends-ok : (r : Result Unit × World) → Ends r → r.0 ≡ ok tt
Ends-ok (ok tt, w) h = refl
Ends-ok (err stage e, w) h = absurd h

module _ (os : Faults) (digits : ℕ → String) (quiet : IsQuiet os digits) where
  replace-Ends :
      (temp target : String) (mode : ℕ) (content : String) (inode : Inode) (w : World)
      → lookup temp w.files ≡ some inode
      → Ends (fill_and_replace os temp target mode (write_all os content) w)
  unfolding fill_and_replace
  replace-Ends temp target mode content inode w there =
      Goes-continue temp _ _ (fill-Goes temp inode w there (write_all os content) (whole inode))
        λ v i h.
          Goes-continue temp _ _ (change-Goes temp i v h flushing os.sync _ quiet.sync) λ v' i' h'.
            Goes-continue temp _ _ (change-Goes temp i' v' h' setting_mode os.chmod _ quiet.chmod)
              λ v'' i'' h''.
                Goes-continue temp _ _ (close-Goes temp i'' v'' h'' closing os.close quiet.close)
                  λ u j k. rename-Ends temp j u k replacing os.rename target quiet.rename
    where
      whole : (i : Inode) → (write_all os content i.content).1 ≡ none
      whole i = whole_written os content i.content quiet.write

  clean_up-Ends : (temp : String) (r : Result Unit × World) → Ends r → Ends (clean_up os temp r)
  unfolding clean_up
  clean_up-Ends temp (ok tt, w) h = tt
  clean_up-Ends temp (err stage e, w) h = h

  kept :
      (target : String) (perm : ℕ) (w : World)
      → (mode : ℕ) × (target_mode os target perm w ≡ (ok mode, w))
  unfolding target_mode stat_file mode_for
  kept target perm w = elim (Option-cases (lookup target w.files)) [
    | inl e ↦ (perm, rw (quiet.stat, stat_file) (rw e refl))
    | inr (inode, e) ↦ (inode.mode, rw (quiet.stat, stat_file) (rw e refl))
  ]

  created-Ends :
      (target content : String) (mode : ℕ) (r : Result String × World)
      → HasFound r
      → Ends (
          continue r (λ temp w.
            clean_up os temp (fill_and_replace os temp target mode (write_all os content) w)))
  created-Ends target content mode (ok temp, w) (t, e, (inode, there)) = clean_up-Ends temp _ (
      replace-Ends temp target mode content inode w
        (subst (λ (p : String). lookup p w.files ≡ some inode) (sym (ok_inj e)) there))
  created-Ends target content mode (err stage e, w) (t, h, _) = absurd (cc)

  -- If no call fails, and one of the names tried for the staging file is free (of the first 10,000,
  -- which is when os.CreateTemp gives up), then WriteFileAtomic returns no error.
  pub write_content_atomic_done :
      (target content : String) (perm tried : ℕ) (start : World)
      → tried < os_tries
      → has (join (dir target) (temp_name (digits tried))) start.files ≡ false
      → (write_content_atomic os target content perm start).0 ≡ ok tt
  unfolding write_content_atomic write_file_atomic write_staged
  write_content_atomic_done target content perm tried start h free =
      let (mode, e) = kept target perm start in
      Ends-ok (write_staged os (dir target) os_tries target perm (write_all os content) start) (
        rw (e, write_staged)
          (created-Ends target content mode _ (
            create_finds os digits quiet (dir target) os_tries 0 tried start h (
              subst (λ (n : ℕ). has (join (dir target) (temp_name (digits n))) start.files ≡ false)
                (omega arith) free))))
