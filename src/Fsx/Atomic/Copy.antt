-- ===== src/Fsx/Atomic/Copy.antt =====
-- CopyFileAtomic of internal/fsx/atomic.go.
use rootline.Base.{
  ℕ, String, ◌≡◌, ◌≢◌, refl, sym, ap, ◌∙◌, Option, none, some, [], ◌∷◌, Option-cases, inl, inr,
}
use rootline.Base.Dict.{lookup}
use rootline.Fsx.{
  Inode, World, Faults, Result, ok, err, Errno, Stage, close_file, closing_source, stat_file,
}
use rootline.Fsx.Atomic.{copy_file_atomic, copy_opened, close_source, write_content_atomic}
use rootline.Fsx.Atomic.Outcome.{
  kept_mode, complete, write_content_atomic_error, write_content_atomic_ok,
}

-- The source's descriptor is held while the target is written.
abbrev pub with_source : String → World → World
with_source src w = record w { handles = src ∷ w.handles }

close_file-files :
    (stage : Stage) (fault : Option Errno) (path : String) (w : World)
    → (close_file stage fault path w).1.files ≡ w.files
unfolding close_file
close_file-files stage none path w = refl
close_file-files stage (some e) path w = refl

err_ne_ok : {stage : Stage} {e : Errno} → ¬ (err stage e ≡ ok tt)
err_ne_ok h = cc

close_source-ok :
    (os : Faults) (src : String) (r : Result Unit × World)
    → (close_source os src r).0 ≡ ok tt
    → (r.0 ≡ ok tt) × ((close_source os src r).1.files ≡ r.1.files)
unfolding close_source
close_source-ok os src (ok tt, w) h = (refl, close_file-files closing_source os.close_source src w)
close_source-ok os src (err stage e, w) h = absurd (cc)

close_file_err :
    (path : String) (w : World) {stage : Stage} {e : Errno} (s : Stage) (fault : Option Errno)
    → fault ≡ none
    → (close_file s fault path w).0 ≢ err stage e
unfolding close_file
close_file_err path w s none _ h = cc
close_file_err path w s (some x) f h = cc

close_source-err :
    (os : Faults) (src : String) (r : Result Unit × World) {stage : Stage} {e : Errno}
    → os.close_source ≡ none
    → (close_source os src r).0 ≡ err stage e
    → (r.0 ≡ err stage e) × ((close_source os src r).1.files ≡ r.1.files)
unfolding close_source
close_source-err os src (ok tt, w) free h =
    absurd (close_file_err src w closing_source os.close_source free h)
close_source-err os src (err stage e, w) free h =
    (h, close_file-files closing_source os.close_source src w)

module _ (os : Faults) (src target : String) (start : World) (clean : start.past ≡ []) where
  opened_written :
      (inode : Inode)
      → os.stat_source ≡ none
      → copy_opened os src target inode (with_source src start)
        ≡ write_content_atomic os target inode.content inode.mode (with_source src start)
  unfolding copy_opened write_content_atomic
  opened_written inode h = rw (h, copy_opened) refl

  copied :
      (inode : Inode)
      → os.open_source ≡ none
      → lookup src start.files ≡ some inode
      → copy_file_atomic os src target start
        ≡ close_source os src (copy_opened os src target inode (with_source src start))
  unfolding copy_file_atomic
  copied inode h there = rw (h, copy_file_atomic) (rw there refl)

  opened_error :
      (inode : Inode) {stage : Stage} {e : Errno}
      → os.remove ≡ none
      → (copy_opened os src target inode (with_source src start)).0 ≡ err stage e
      → (p : String)
      → lookup p (copy_opened os src target inode (with_source src start)).1.files
        ≡ lookup p start.files
  unfolding copy_opened
  opened_error inode free failed p = elim (Option-cases (os.stat_source)) [
    | inr (x, h) ↦ rw (h, copy_opened) refl
    | inl h ↦ rw (opened_written inode h) (
        write_content_atomic_error os target inode.content inode.mode (with_source src start) clean
          free (sym (ap (λ (r : Result Unit × World). r.0) (opened_written inode h)) ∙ failed) p)
  ]

  -- If CopyFileAtomic returns an error, and neither closing the source nor removing the staging
  -- file fails, then every path holds the same file as before, or none as before.
  pub copy_file_atomic_error :
      {stage : Stage} {e : Errno}
      → os.remove ≡ none
      → os.close_source ≡ none
      → (copy_file_atomic os src target start).0 ≡ err stage e
      → (p : String)
      → lookup p (copy_file_atomic os src target start).1.files ≡ lookup p start.files
  unfolding copy_file_atomic
  copy_file_atomic_error free closes failed p = elim (Option-cases (os.open_source)) [
    | inr (e, h) ↦ rw (h, copy_file_atomic) refl
    | inl h ↦ elim (Option-cases (lookup src start.files)) [
      | inl absent ↦ rw (h, copy_file_atomic) (rw absent refl)
      | inr (inode, there) ↦
          let same = copied inode h there in
          let (inner, files) =
            close_source-err os src _ closes
              (sym (ap (λ (r : Result Unit × World). r.0) same) ∙ failed) in
          rw same (ap (lookup p) files ∙ opened_error inode free inner p)
    ]
  ]

  kept_same :
      (perm : ℕ) → kept_mode os target perm (with_source src start) ≡ kept_mode os target perm start
  unfolding stat_file
  kept_same perm = elim (Option-cases (os.stat)) [
    | inl e ↦ rw (e, stat_file) refl
    | inr (_, e) ↦ rw (e, stat_file) refl
  ]

  -- The target's file is the copy of a source, and the others are as they were.
  abbrev pub IsCopied : Inode → World → Type 0
  IsCopied inode w =
      (mode : ℕ) × (kept_mode os target inode.mode start ≡ ok mode)
      × (lookup target w.files ≡ some (complete inode.content mode))
      × ((p : String) → p ≢ target → lookup p w.files ≡ lookup p start.files)

  opened_ok :
      (inode : Inode)
      → (copy_opened os src target inode (with_source src start)).0 ≡ ok tt
      → IsCopied inode (copy_opened os src target inode (with_source src start)).1
  unfolding copy_opened
  opened_ok inode inner = elim (Option-cases (os.stat_source)) [
    | inr (x, f) ↦ absurd (err_ne_ok (rw (f, copy_opened) at inner))
    | inl f ↦
        let written = opened_written inode f in
        let (mode, kept, placed, rest) =
          write_content_atomic_ok os target inode.content inode.mode (with_source src start) clean
            (sym (ap (λ (r : Result Unit × World). r.0) written) ∙ inner) in
        rw written (mode, sym (kept_same inode.mode) ∙ kept, placed, rest)
  ]

  files-IsCopied :
      (inode : Inode) (v w : World) → w.files ≡ v.files → IsCopied inode v → IsCopied inode w
  files-IsCopied inode v w same (mode, kept, placed, rest) =
      (mode, kept, ap (lookup target) same ∙ placed, λ p ne. ap (lookup p) same ∙ rest p ne)

  -- If CopyFileAtomic returns no error, then the source was there, and the target holds all of its
  -- content, safe from a crash, with the mode that the target had, or the source's where there was
  -- no target; and every other file is as it was.
  pub copy_file_atomic_ok :
      (copy_file_atomic os src target start).0 ≡ ok tt
      → (inode : Inode) × (lookup src start.files ≡ some inode)
        × IsCopied inode (copy_file_atomic os src target start).1
  unfolding copy_file_atomic
  copy_file_atomic_ok done = elim (Option-cases (os.open_source)) [
    | inr (e, h) ↦ absurd (err_ne_ok (rw (h, copy_file_atomic) at done))
    | inl h ↦ elim (Option-cases (lookup src start.files)) [
      | inl absent ↦ absurd (err_ne_ok (rw absent at (rw (h, copy_file_atomic) at done)))
      | inr (inode, there) ↦
          let same = copied inode h there in
          let (inner, files) =
            close_source-ok os src _ (sym (ap (λ (r : Result Unit × World). r.0) same) ∙ done) in
          (
            inode,
            there,
            files-IsCopied inode (copy_opened os src target inode (with_source src start)).1
                (copy_file_atomic os src target start).1
                (ap (λ (r : Result Unit × World). r.1.files) same ∙ files) (opened_ok inode inner),
          )
    ]
  ]
