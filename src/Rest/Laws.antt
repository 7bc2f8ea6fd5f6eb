-- ===== src/Rest/Laws.antt =====
-- What a successful response of the REST service says has happened.
use fog.Prelude.{◌≡◌, sym, String, ap, ◌∙◌, refl}
use fog.Sdk.Fresult.{FError}
use fog.Sdk.Outcome.{Outcome, ok, ret, fail, panic, hang, Task}
use fog.Sdk.Outcome.Laws.{>>=-eq_ret, three_calls-eq_ret}
use fog.Sdk.Types.{Uuid}
use fog.Sdk.Im.Fdu.{FduRecord}
use fog.Connector.Global.Defs.{Global}
use fog.Connector.Global.Fdus.{get_fdu, get_instance}
use fog.Agent.Env.{Env, World}
use fog.Rest.{
  Response, succeeded, resolve, entry_point, instantiate_fdu, instantiate_on, delete_fdu_instance,
  delete_on,
}

module _ (env : Env) (debug : FError → String) (self : Global) where
  pub resolve-eq_succeeded :
      {A B : Type 0} (o : Outcome A) (rest : A → Task (World env) (Response B)) (w : World env)
      {b : B} {w' : World env}
      → resolve env debug self o rest w ≡ (ret (succeeded b), w')
      → (a : A) × (o ≡ ret a) × (rest a w ≡ (ret (succeeded b), w'))
  resolve-eq_succeeded (ret a) rest w h = (a, refl, h)
  resolve-eq_succeeded (fail e) rest w h = cc (ap (λ (x : Outcome (Response _) × World env). x.0) h)
  resolve-eq_succeeded panic rest w h = cc (ap (λ (x : Outcome (Response _) × World env). x.0) h)
  resolve-eq_succeeded hang rest w h = cc (ap (λ (x : Outcome (Response _) × World env). x.0) h)

  -- A response says what its result is.
  pub result-inj : {a b : FduRecord} → succeeded a ≡ succeeded b → a ≡ b
  result-inj h = cc (ap (λ r. r.result) h)

  -- A result that `instantiate_fdu` responds with is the answer of one agent to `start_fdu`, which
  -- it was asked for an instance that it had scheduled for the FDU and then configured, with
  -- nothing between the three calls.
  pub instantiate_fdu_sound :
      (fdu_uuid : Uuid) (w : World env) {started : FduRecord} {w' : World env}
      → instantiate_fdu env debug self fdu_uuid w ≡ (ret (succeeded started), w')
      → (node : Uuid) × (scheduled configured : FduRecord) × (w₁ w₂ w₃ : World env)
        × (env.orchestrator.schedule_fdu node fdu_uuid w₁ ≡ (ok (ok scheduled), w₂))
        × (env.orchestrator.configure_fdu node scheduled.uuid w₂ ≡ (ok (ok configured), w₃))
        × (env.orchestrator.start_fdu node scheduled.uuid w₃ ≡ (ok (ok started), w'))
  unfolding instantiate_fdu instantiate_on
  instantiate_fdu_sound fdu_uuid w {started} {w'} h =
      let (node, w₀, _, h₀) = >>=-eq_ret (entry_point env debug self) _ w h in
      let (fdu, w₁) = get_fdu env.zenoh env.codecs self fdu_uuid w₀ in
      let (_, _, h₁) = resolve-eq_succeeded fdu _ w₁ h₀ in
      let (scheduled, configured, last, w₂, w₃, e₁, e₂, e₃, same) =
        three_calls-eq_ret (λ r. r.uuid) (env.orchestrator.schedule_fdu node fdu_uuid)
          (env.orchestrator.configure_fdu node) (env.orchestrator.start_fdu node) succeeded w₁ h₁ in
      (
        node,
        scheduled,
        configured,
        w₁,
        w₂,
        w₃,
        e₁,
        e₂,
        e₃ ∙ λ i. (ok (ok (result-inj (sym same) i)), w'),
      )

  -- A result that `delete_fdu_instance` responds with is the answer of one agent to `undefine_fdu`,
  -- which it was asked for the instance that it had stopped and then cleaned, with nothing between
  -- the three calls.
  pub delete_fdu_instance_sound :
      (instance_uuid : Uuid) (w : World env) {undefined : FduRecord} {w' : World env}
      → delete_fdu_instance env debug self instance_uuid w ≡ (ret (succeeded undefined), w')
      → (node : Uuid) × (stopped cleaned : FduRecord) × (w₁ w₂ w₃ : World env)
        × (env.orchestrator.stop_fdu node instance_uuid w₁ ≡ (ok (ok stopped), w₂))
        × (env.orchestrator.clean_fdu node stopped.uuid w₂ ≡ (ok (ok cleaned), w₃))
        × (env.orchestrator.undefine_fdu node stopped.uuid w₃ ≡ (ok (ok undefined), w'))
  unfolding delete_fdu_instance delete_on
  delete_fdu_instance_sound u w {undefined} {w'} h =
      let (node, w₀, _, h₀) = >>=-eq_ret (entry_point env debug self) _ w h in
      let (found, w₁) = get_instance env.zenoh env.codecs self u w₀ in
      let (_, _, h₁) = resolve-eq_succeeded found _ w₁ h₀ in
      let (stopped, cleaned, last, w₂, w₃, e₁, e₂, e₃, same) =
        three_calls-eq_ret (λ r. r.uuid) (env.orchestrator.stop_fdu node u)
          (env.orchestrator.clean_fdu node) (env.orchestrator.undefine_fdu node) succeeded w₁ h₁ in
      (
        node,
        stopped,
        cleaned,
        w₁,
        w₂,
        w₃,
        e₁,
        e₂,
        e₃ ∙ λ i. (ok (ok (result-inj (sym same) i)), w'),
      )
