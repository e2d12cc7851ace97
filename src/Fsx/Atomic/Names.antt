-- ===== src/Fsx/Atomic/Names.antt =====
-- That createRootTemp of internal/fsx/atomic.go finds a free name where nothing fails.
use rootline.Base.{
  ℕ, zero, suc, ◌+◌, ◌<◌, String, ◌≡◌, refl, ap, ◌∙◌, arith, subst, sym, true, false, Option, none,
  some, eq_refl, inl, inr, Bool-cases,
}
use rootline.Base.Dict.{lookup, has, lookup-insert}
use rootline.Base.FilePath.{join}
use rootline.Fsx.{Inode, World, Faults, Errno, exist, Result, ok, create_exclusive}
use rootline.Fsx.Atomic.{random_root_temp_name, create_root_temp, temp_name}

-- No call fails, and the names are made of the digits that are drawn.
pub record IsQuiet (os : Faults) (digits : ℕ → String) : Type 0 where
  pub draws : (attempt : ℕ) → os.random attempt ≡ ok (digits attempt)
  pub stat : os.stat ≡ none
  pub create : (attempt : ℕ) → os.create attempt ≡ none
  pub write : os.write ≡ none
  pub sync : os.sync ≡ none
  pub chmod : os.chmod ≡ none
  pub close : os.close ≡ none
  pub rename : os.rename ≡ none

-- A staging file was made, and it is there.
abbrev pub HasFound : Result String × World → Type 0
HasFound r =
    (temp : String) × (r.0 ≡ ok temp) × ((inode : Inode) × (lookup temp r.1.files ≡ some inode))

exclusive_taken :
    (fault : Option Errno) (path : String) (w : World)
    → fault ≡ none
    → has path w.files ≡ true
    → create_exclusive fault path 0o600 w ≡ (some exist, w)
unfolding create_exclusive
exclusive_taken none path w _ taken = rw taken
exclusive_taken (some e) path w h taken = absurd (cc)

exclusive_free :
    (fault : Option Errno) (path : String) (w : World)
    → fault ≡ none
    → has path w.files ≡ false
    → ((create_exclusive fault path 0o600 w).0 ≡ none)
      × ((inode : Inode) × (lookup path (create_exclusive fault path 0o600 w).1.files ≡ some inode))
unfolding create_exclusive
exclusive_free none path w _ free =
    let inode : Inode = record { content = ""; synced = ""; mode = 0o600 } in
    rw free (refl, (inode, lookup-insert path path inode w.files ∙ rw (eq_refl path)))
exclusive_free (some e) path w h free = absurd (cc)

module _ (os : Faults) (digits : ℕ → String) (quiet : IsQuiet os digits) where
  named : (attempt : ℕ) → random_root_temp_name os attempt ≡ ok (temp_name (digits attempt))
  unfolding random_root_temp_name
  named attempt = rw (quiet.draws attempt, random_root_temp_name)

  create_taken :
      (parent : String) (tries attempt : ℕ) (w : World)
      → has (join parent (temp_name (digits attempt))) w.files ≡ true
      → create_root_temp os parent (suc tries) attempt w
        ≡ create_root_temp os parent tries (suc attempt) w
  unfolding create_root_temp
  create_taken parent tries attempt w taken =
      let made = exclusive_taken (os.create attempt) _ w (quiet.create attempt) taken in
      rw (named attempt, create_root_temp)
        (rw made (
          ap (λ (r : Option Errno × World). create_root_temp os parent tries (suc attempt) r.1)
            made))

  create_free :
      (parent : String) (tries attempt : ℕ) (w : World)
      → has (join parent (temp_name (digits attempt))) w.files ≡ false
      → HasFound (create_root_temp os parent (suc tries) attempt w)
  unfolding create_root_temp
  create_free parent tries attempt w free =
      let (made, there) = exclusive_free (os.create attempt) _ w (quiet.create attempt) free in
      rw (named attempt, create_root_temp) (rw made (_, refl, there))

  taken_not_free :
      (parent : String) (w : World) (m n : ℕ)
      → m ≡ n
      → has (join parent (temp_name (digits m))) w.files ≡ true
      → ¬ (has (join parent (temp_name (digits n))) w.files ≡ false)
  taken_not_free parent w m n same taken free =
      let free' =
        subst (λ k. has (join parent (temp_name (digits k))) w.files ≡ false) (sym same) free in
      cc

  -- A name that is free is reached within the tries.
  pub create_finds :
      (parent : String) (tries attempt more : ℕ) (w : World)
      → more < tries
      → has (join parent (temp_name (digits (attempt + more)))) w.files ≡ false
      → HasFound (create_root_temp os parent tries attempt w)
  create_finds parent zero attempt more w h free = absurd (omega arith)
  create_finds parent (suc tries) attempt more w h free =
      elim (Bool-cases (has (join parent (temp_name (digits attempt))) w.files)) [
        | inr e ↦ create_free parent tries attempt w e
        | inl e ↦ rw (create_taken parent tries attempt w e) (
            elim more
                as (λ k.
                  k < suc tries
                  → has (join parent (temp_name (digits (attempt + k)))) w.files ≡ false
                  → HasFound (create_root_temp os parent tries (suc attempt) w)) [
                    | zero ↦
                        λ _ free'. absurd (taken_not_free parent w attempt _ (omega arith) e free')
                    | suc k ↦ λ lt free'.
                        create_finds parent tries (suc attempt) k w (omega arith) (
                          subst (λ n. has (join parent (temp_name (digits n))) w.files ≡ false)
                            (omega arith) free')
                  ]
              h free)
      ]
