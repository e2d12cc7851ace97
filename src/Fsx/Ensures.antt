-- ===== src/Fsx/Ensures.antt =====
-- What a call of internal/fsx leaves where it succeeds, and where it fails.
use rootline.Base.{◌≡◌, refl, ◌⊎◌, inl, inr, subst}
use rootline.Fsx.{World, Io, Result, ok, err, Errno, continue, Stage}

-- What holds of the result and the state, and what of the state after an error.
abbrev pub Ensures :
    {A : Type 0} → (A → World → Type 0) → (World → Type 0) → Result A × World → Type 0
Ensures P Q (ok a, w) = P a w
Ensures P Q (err stage e, w) = Q w

pub continue-Ensures :
    {A B : Type 0} (P : A → World → Type 0) (R : B → World → Type 0) (Q : World → Type 0)
    (f : A → Io B) (r : Result A × World)
    → Ensures P Q r
    → ((a : A) (w : World) → P a w → Ensures R Q (f a w))
    → Ensures R Q (continue r f)
continue-Ensures P R Q f (ok a, w) h k = k a w h
continue-Ensures P R Q f (err stage e, w) h k = h

pub ok_inj : {A : Type 0} {a b : A} → ok a ≡ ok b → a ≡ b
ok_inj h = cc

module _ {A : Type 0} (P : A → World → Type 0) (Q : World → Type 0) where
  pub Ensures-ok : (r : Result A × World) {a : A} → Ensures P Q r → r.0 ≡ ok a → P a r.1
  Ensures-ok (ok b, w) {a} h e = subst (λ (c : A). P c w) (ok_inj e) h
  Ensures-ok (err stage x, w) h e = absurd (cc)

  pub Ensures-err :
      (r : Result A × World) {stage : Stage} {x : Errno} → Ensures P Q r → r.0 ≡ err stage x → Q r.1
  Ensures-err (ok b, w) h e = absurd (cc)
  Ensures-err (err stage x, w) h e = h

  pub Ensures-both : (r : Result A × World) → Ensures P Q r → ((a : A) × P a r.1) ⊎ Q r.1
  Ensures-both (ok a, w) h = inl (a, h)
  Ensures-both (err stage x, w) h = inr h

pub Ensures-map :
    {A : Type 0} (P R : A → World → Type 0) (Q S : World → Type 0) (r : Result A × World)
    → Ensures P Q r
    → ((a : A) (w : World) → P a w → R a w)
    → ((w : World) → Q w → S w)
    → Ensures R S r
Ensures-map P R Q S (ok a, w) h f g = f a w h
Ensures-map P R Q S (err stage e, w) h f g = g w h

pub Result-cases :
    {A : Type 0} (r : Result A)
    → ((a : A) × (r ≡ ok a)) ⊎ ((stage : Stage) × (e : Errno) × (r ≡ err stage e))
Result-cases (ok a) = inl (a, refl)
Result-cases (err stage e) = inr (stage, e, refl)
