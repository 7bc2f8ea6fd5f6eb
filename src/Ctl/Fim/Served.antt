-- ===== src/Ctl/Fim/Served.antt =====
-- The command line tool beside the REST server: the two ways to ask for an instance.
use fog.Prelude.{◌≡◌, sym, ap, ◌∙◌, ◌∷◌, String}
use fog.Sdk.Fresult.{FError}
use fog.Sdk.Outcome.{ret, Task, panics, rpc_call}
use fog.Sdk.Outcome.Laws.{>>=-eq_ret, >>=-ret, three_calls-eq_ret, three_calls-ret}
use fog.Sdk.Types.{Uuid}
use fog.Sdk.Im.Fdu.{FduRecord}
use fog.Connector.Global.Defs.{Global}
use fog.Connector.Global.Fdus.{get_fdu}
use fog.Connector.Global.Entities.{get_entity}
use fog.Agent.Env.{Env, World}
use fog.Rest.{succeeded, instantiate_fdu, instantiate_on}
use fog.Rest.Laws.{resolve-eq_succeeded, result-inj}
use fog.Ctl.Terminal.{Machine, Screen, line}
use fog.Ctl.Quiet.{print-ret}
use fog.Ctl.Fim.Nodes.{Session, entry_point, resolve, matched, run_on, instantiate, add_instance}

module _ (env : Env) (debug : FError → String) (machine : Machine (World env))
    (session : Session (World env)) (self : Global) where
  run_on-instantiate_on :
      (node id : Uuid) (w : World env) {started : FduRecord} {w' : World env}
      → instantiate_on env debug self node id w ≡ (ret (succeeded started), w')
      → run_on env machine session self node id w ≡ (ret started.uuid, w')
  unfolding instantiate_on
  run_on-instantiate_on node id w {started} {w'} h =
      let (scheduled, configured, last, w₂, w₃, e₁, e₂, e₃, same) =
        three_calls-eq_ret (λ r. r.uuid) (env.orchestrator.schedule_fdu node id)
          (env.orchestrator.configure_fdu node) (env.orchestrator.start_fdu node) succeeded w h in
      three_calls-ret (λ r. r.uuid) (env.orchestrator.schedule_fdu node id)
        (env.orchestrator.configure_fdu node) (env.orchestrator.start_fdu node) (λ r. r.uuid) w w₂
        w₃ e₁ e₂ e₃
      ∙ ap (λ r. (ret r.uuid, w')) (sym (result-inj env debug self same))

  -- what is done where the FDU is not found
  abbrev by_entity : Uuid → Uuid → Task (World env) Uuid
  by_entity node id =
      matched (get_entity env.zenoh env.codecs self id)
        (λ entity. rpc_call (env.orchestrator.schedule_entity node id)) panics

  -- Where `instantiate_fdu` of the REST server would respond with a record, `add_instance` of the
  -- command line tool makes the same calls, leaves the world that they leave, and prints the UUID
  -- of this record, and nothing more.
  pub add_instance-instantiate_fdu :
      (id : Uuid) (screen : Screen) (w : World env) {started : FduRecord} {w' : World env}
      → instantiate_fdu env debug self id w ≡ (ret (succeeded started), w')
      → add_instance env machine session self id (screen, w)
        ≡ (ret tt, (line (machine.show_uuid started.uuid) ∷ screen, w'))
  unfolding instantiate_fdu instantiate_on add_instance
  add_instance-instantiate_fdu id screen w {started} {w'} h =
      let (node, w₁, e, rest) = >>=-eq_ret (entry_point env machine session self) _ w h in
      let (fdu, w₂) = get_fdu env.zenoh env.codecs self id w₁ in
      let (_, there, made) = resolve-eq_succeeded env debug self fdu _ w₂ rest in
      print-ret (instantiate env machine session self id) (λ u. line (machine.show_uuid u)) screen w
        (>>=-ret (entry_point env machine session self)
            (λ node.
              matched (get_fdu env.zenoh env.codecs self id)
                (λ fdu. run_on env machine session self node id) (by_entity node id))
            w e
          ∙ (ap
                (λ o.
                  resolve o (λ fdu. run_on env machine session self node id) (by_entity node id) w₂)
                there
              ∙ run_on-instantiate_on node id w₂ made))
