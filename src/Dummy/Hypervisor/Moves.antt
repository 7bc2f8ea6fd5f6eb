-- ===== src/Dummy/Hypervisor/Moves.antt =====
-- The life cycle of an FDU instance, and the operations of the dummy hypervisor that move it.
use fog.Prelude.{◌≡◌, refl, ap}
use fog.Sdk.Outcome.{Outcome, ret, Task, ◌>>=◌}
use fog.Sdk.Outcome.Locked.{outside}
use fog.Sdk.Types.{Uuid}
use fog.Sdk.Im.Fdu.{FduRecord, FduState, defined, configured, running}
use fog.Dummy.Env.{Env, World}
use fog.Dummy.Hypervisor.Configure.{DummyHypervisor}
use fog.Dummy.Hypervisor.{
  Fdus, known_instance, publish, configure_fdu, configured_record, clean_fdu, cleaned_record,
  start_fdu, stop_fdu, in_defined, in_configured, in_running,
}

-- The operations that move an instance in its life cycle.
pub data Operation : Type 0 where
  configuring cleaning starting stopping : Operation

-- The life cycle of an FDU instance: what each operation does to its state.
pub data Move : Operation → FduState → FduState → Type 0 where
  configure : Move configuring defined configured
  clean : Move cleaning configured defined
  start : Move starting configured running
  stop : Move stopping running configured

module _ (env : Env) (self : DummyHypervisor) where
  abbrev pub perform : Operation → Uuid → Task (Fdus × World env) Uuid
  perform configuring = configure_fdu env self
  perform cleaning = clean_fdu env self
  perform starting = start_fdu env self
  perform stopping = stop_fdu env self

  -- The body of each operation.
  abbrev pub body : Operation → Uuid → FduRecord → Task (Fdus × World env) Uuid
  body configuring u found =
      in_defined found.status
        (do next ← outside (configured_record env self found); publish env self u next)
  body cleaning u found =
      in_configured found.status
        (do next ← outside (cleaned_record env self found); publish env self u next)
  body starting u found =
      in_configured found.status (publish env self u (record found { status = running }))
  body stopping u found =
      in_running found.status (publish env self u (record found { status = configured }))

  pub perform_lem :
      (op : Operation) (u : Uuid) (s : Fdus × World env)
      → perform op u s ≡ (known_instance env self u >>= body op u) s
  unfolding configure_fdu clean_fdu start_fdu stop_fdu
  perform_lem configuring u s = refl
  perform_lem cleaning u s = refl
  perform_lem starting u s = refl
  perform_lem stopping u s = refl

module _ {W A : Type 0} where
  pub in_defined-eq_ret :
      (st : FduState) (rest : Task W A) (w : W) {a : A} {w' : W}
      → in_defined st rest w ≡ (ret a, w')
      → (st ≡ defined) × (rest w ≡ (ret a, w'))
  in_defined-eq_ret defined rest w h = (refl, h)
  in_defined-eq_ret configured rest w h = cc (ap (λ (o : Outcome A × W). o.0) h)
  in_defined-eq_ret running rest w h = cc (ap (λ (o : Outcome A × W). o.0) h)
  in_defined-eq_ret (FduState.error e) rest w h = cc (ap (λ (o : Outcome A × W). o.0) h)

  pub in_configured-eq_ret :
      (st : FduState) (rest : Task W A) (w : W) {a : A} {w' : W}
      → in_configured st rest w ≡ (ret a, w')
      → (st ≡ configured) × (rest w ≡ (ret a, w'))
  in_configured-eq_ret configured rest w h = (refl, h)
  in_configured-eq_ret defined rest w h = cc (ap (λ (o : Outcome A × W). o.0) h)
  in_configured-eq_ret running rest w h = cc (ap (λ (o : Outcome A × W). o.0) h)
  in_configured-eq_ret (FduState.error e) rest w h = cc (ap (λ (o : Outcome A × W). o.0) h)

  pub in_running-eq_ret :
      (st : FduState) (rest : Task W A) (w : W) {a : A} {w' : W}
      → in_running st rest w ≡ (ret a, w')
      → (st ≡ running) × (rest w ≡ (ret a, w'))
  in_running-eq_ret running rest w h = (refl, h)
  in_running-eq_ret configured rest w h = cc (ap (λ (o : Outcome A × W). o.0) h)
  in_running-eq_ret defined rest w h = cc (ap (λ (o : Outcome A × W). o.0) h)
  in_running-eq_ret (FduState.error e) rest w h = cc (ap (λ (o : Outcome A × W). o.0) h)
