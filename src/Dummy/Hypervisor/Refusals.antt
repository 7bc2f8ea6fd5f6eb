-- ===== src/Dummy/Hypervisor/Refusals.antt =====
-- The operations of the dummy hypervisor in a state from which the life cycle has no move.
use fog.Prelude.{◌≡◌, ◌≢◌, ◌∙◌, refl, sym, subst}
use fog.Sdk.Fresult.{FError}
use fog.Sdk.Outcome.{ret, fail, Task}
use fog.Sdk.Types.{Uuid}
use fog.Sdk.Im.Fdu.{FduRecord, FduState, defined, configured, running}
use fog.Dummy.Env.{Env, World}
use fog.Dummy.Hypervisor.Configure.{DummyHypervisor}
use fog.Dummy.Hypervisor.{Fdus, known_instance, in_defined, in_configured, in_running}
use fog.Dummy.Hypervisor.Moves.{
  Operation, configuring, cleaning, starting, stopping, Move, configure, clean, start, stop,
  perform, perform_lem, body,
}

module _ {W A : Type 0} (rest : Task W A) (w : W) where
  in_defined-ne :
      (st : FduState)
      → st ≢ defined
      → in_defined st rest w ≡ (fail FError.transition_not_allowed, w)
  in_defined-ne defined ne = absurd (ne refl)
  in_defined-ne configured ne = refl
  in_defined-ne running ne = refl
  in_defined-ne (FduState.error e) ne = refl

  in_configured-ne :
      (st : FduState)
      → st ≢ configured
      → in_configured st rest w ≡ (fail FError.transition_not_allowed, w)
  in_configured-ne configured ne = absurd (ne refl)
  in_configured-ne defined ne = refl
  in_configured-ne running ne = refl
  in_configured-ne (FduState.error e) ne = refl

  in_running-ne :
      (st : FduState)
      → st ≢ running
      → in_running st rest w ≡ (fail FError.transition_not_allowed, w)
  in_running-ne running ne = absurd (ne refl)
  in_running-ne configured ne = refl
  in_running-ne defined ne = refl
  in_running-ne (FduState.error e) ne = refl

module _ (env : Env) (self : DummyHypervisor) where
  body-refused :
      (op : Operation) (u : Uuid) (found : FduRecord) (s : Fdus × World env)
      → ((st : FduState) → ¬ Move op found.status st)
      → body env self op u found s ≡ (fail FError.transition_not_allowed, s)
  body-refused configuring u found s stuck =
      in_defined-ne _ s found.status
        λ e. stuck configured (subst (λ st. Move configuring st configured) (sym e) configure)
  body-refused cleaning u found s stuck =
      in_configured-ne _ s found.status
        λ e. stuck defined (subst (λ st. Move cleaning st defined) (sym e) clean)
  body-refused starting u found s stuck =
      in_configured-ne _ s found.status
        λ e. stuck running (subst (λ st. Move starting st running) (sym e) start)
  body-refused stopping u found s stuck =
      in_running-ne _ s found.status
        λ e. stuck configured (subst (λ st. Move stopping st configured) (sym e) stop)

  -- Where the record of the instance was found, and the life cycle has no move of the operation
  -- from its state, `configure_fdu`, `clean_fdu`, `start_fdu` or `stop_fdu` of the dummy hypervisor
  -- fails with `TransitionNotAllowed`, and after its two reads it does nothing.
  pub perform-refused :
      (op : Operation) (u : Uuid) (s s₁ : Fdus × World env) (found : FduRecord)
      → known_instance env self u s ≡ (ret found, s₁)
      → ((st : FduState) → ¬ Move op found.status st)
      → perform env self op u s ≡ (fail FError.transition_not_allowed, s₁)
  perform-refused op u s s₁ found known stuck =
      perform_lem env self op u s ∙ rw known (body-refused op u found s₁ stuck)
