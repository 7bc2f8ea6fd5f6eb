-- ===== src/Ctl/Quiet.antt =====
-- What a command leaves on the screen, by the way it ends.
use fog.Sdk.Outcome.Laws.{>>=-eq_ret, outside-eq_ret}
use fog.Prelude.{sym, ap, ◌∙◌, ◌≡◌, ◌≢◌, refl, ◌⊎◌, inl, inr, Bool, true, false, if◌then◌else◌, ◌∷◌}
use fog.Sdk.Outcome.{Outcome, ret, fail, panic, hang, Task, resume, pure, panics, ◌>>=◌}
use fog.Sdk.Outcome.Locked.{outside}
use fog.Ctl.Terminal.{Screen, Print, print}

module _ {W : Type 0} where
  -- A command that does not return has left the screen as it was.
  pub record Silent (m : Task (Screen × W) Unit) : Type 0 where
    pub at : (screen : Screen) (w : W) → (m (screen, w)).0 ≢ ret tt → (m (screen, w)).1.0 ≡ screen

  -- A command prints once where it returns, and nothing where it does not.
  pub record Once (m : Task (Screen × W) Unit) : Type 0 where
    pub at :
        (screen : Screen) (w : W)
        → (((m (screen, w)).0 ≡ ret tt) × (p : Print) × ((m (screen, w)).1.0 ≡ p ∷ screen))
          ⊎ (((m (screen, w)).0 ≢ ret tt) × ((m (screen, w)).1.0 ≡ screen))

  module _ {A : Type 0} (f : A → Task (Screen × W) Unit) where
    resume-Silent :
        (o : Outcome A) (screen : Screen) (w : W)
        → ((a : A) → Silent (f a))
        → (resume o f (screen, w)).0 ≢ ret tt
        → (resume o f (screen, w)).1.0 ≡ screen
    resume-Silent (ret a) screen w k h = (k a).at screen w h
    resume-Silent (fail e) screen w k h = refl
    resume-Silent panic screen w k h = refl
    resume-Silent hang screen w k h = refl

    -- What is done before the last step does not reach the screen.
    pub >>=-Silent : (m : Task W A) → ((a : A) → Silent (f a)) → Silent (outside m >>= f)
    >>=-Silent m k = record { at = λ screen w. resume-Silent (m w).0 screen (m w).1 k }

    resume-Once :
        (o : Outcome A) (screen : Screen) (w : W)
        → ((a : A) → Once (f a))
        → (((resume o f (screen, w)).0 ≡ ret tt)
            × (p : Print) × ((resume o f (screen, w)).1.0 ≡ p ∷ screen))
          ⊎ (((resume o f (screen, w)).0 ≢ ret tt) × ((resume o f (screen, w)).1.0 ≡ screen))
    resume-Once (ret a) screen w k = (k a).at screen w
    resume-Once (fail e) screen w k = inr (λ h. cc h, refl)
    resume-Once panic screen w k = inr (λ h. cc h, refl)
    resume-Once hang screen w k = inr (λ h. cc h, refl)

    pub >>=-Once : (m : Task W A) → ((a : A) → Once (f a)) → Once (outside m >>= f)
    >>=-Once m k = record { at = λ screen w. resume-Once (m w).0 screen (m w).1 k }

  pub print-Silent : (p : Print) → Silent (print p)
  print-Silent p = record { at = λ screen w h. elim (h refl) [ ] }

  pub pure-Silent : Silent (pure tt)
  pure-Silent = record { at = λ screen w h. refl }

  pub panics-Silent : Silent panics
  panics-Silent = record { at = λ screen w h. refl }

  pub if-Silent :
      (b : Bool) {m n : Task (Screen × W) Unit} → Silent m → Silent n → Silent (if b then m else n)
  if-Silent true x y = x
  if-Silent false x y = y

  pub print-Once : (p : Print) → Once (print p)
  print-Once p = record { at = λ screen w. inl (refl, p, refl) }

  pub panics-Once : Once panics
  panics-Once = record { at = λ screen w. inr (λ h. cc h, refl) }

  -- A command that prints what its calls have returned.
  pub print-eq_ret :
      {A : Type 0} (m : Task W A) (of : A → Print) (screen : Screen) (w : W) {screen' : Screen}
      {w' : W}
      → (outside m >>= (λ a. print (of a))) (screen, w) ≡ (ret tt, (screen', w'))
      → (a : A) × (m w ≡ (ret a, w')) × (screen' ≡ of a ∷ screen)
  print-eq_ret m of screen w h =
      let (a, (s₁, w₁), e, rest) = >>=-eq_ret (outside m) (λ a. print (of a)) (screen, w) h in
      let (ran, same) = outside-eq_ret m screen w e in
      (a, ran ∙ (λ i. (ret a, (rest i).1.1)), sym (λ i. (rest i).1.0) ∙ ap (λ s. of a ∷ s) same)

  pub print-ret :
      {A : Type 0} (m : Task W A) (of : A → Print) (screen : Screen) (w : W) {a : A} {w' : W}
      → m w ≡ (ret a, w')
      → (outside m >>= (λ x. print (of x))) (screen, w) ≡ (ret tt, (of a ∷ screen, w'))
  print-ret m of screen w h = ap (λ x. resume x.0 (λ a. print (of a)) (screen, x.1)) h

pub ruleset quiet = (>>=-Silent, print-Silent, pure-Silent, panics-Silent, if-Silent)
