-- ===== src/Agent/Entities/Laws.antt =====
-- The ends of the spawned tasks.
use fog.Prelude.{
  ◌≡◌, ◌≢◌, ◌⊎◌, inl, inr, refl, sym, ap, ◌∙◌, subst, arith, Bool-cases, ◌==◌, some, List, [], ◌∷◌,
  ◌++◌,
}
use fog.Sdk.Fresult.{FError, display}
use fog.Sdk.Outcome.{Outcome, ok, ret, fail, panic, hang, pure, ok_or, rpc_call, ◌>>=◌}
use fog.Sdk.Outcome.Laws.{ret-inj, ok_or-eq_ret, >>=-eq_ret, rpc_call-eq_ret}
use fog.Sdk.Types.{Uuid}
use fog.Sdk.Im.Fdu.{FduDescriptor, FduRecord}
use fog.Sdk.Im.Entity.{EntityDescriptor, EntityRecord, EntityStatus}
use fog.Sdk.Im.Node.{NodeInfo}
use fog.Connector.Global.Entities.{get_entity}
use fog.Connector.Global.Nodes.{get_node_info}
use fog.Agent.Env.{Env, World}
use fog.Agent.State.{Agent}
use fog.Agent.Entities.{
  with_status, publish, server_for, start_one, start_all, onboard_all, entity_scheduling, stop_all,
  offload_all, entity_unscheduling, report, scheduling_task, unscheduling_task,
}

++-snoc : (l : List Uuid) (u : Uuid) (m : List Uuid) → (l ++ u ∷ []) ++ m ≡ l ++ u ∷ m
++-snoc [] u m = refl
++-snoc (v ∷ l) u m = ap (λ t. v ∷ t) (++-snoc l u m)

++-nil : (l : List Uuid) → l ≡ l ++ []
++-nil [] = refl
++-nil (v ∷ l) = ap (λ t. v ∷ t) (++-nil l)

module _ (env : Env) (self : Agent) where
  -- The agent that an instance is on: this one, under `my_uuid`, or the agent of its node.
  abbrev pub IsServer : Uuid → FduRecord → Uuid → World env → World env → Type 0
  IsServer my_uuid found server w w' =
      ((found.node ≡ self.node_uuid) × (server ≡ my_uuid) × (w ≡ w'))
      ⊎ ((found.node ≢ self.node_uuid)
          × ((info : NodeInfo) × (get_node_info env.zenoh env.codecs self.global found.node w
                ≡ (ret info, w'))
              × (server ≡ info.agent_service_uuid)))

  -- The FDUs that are started one after another, and their instances: each of them was scheduled
  -- under the FDU's UUID, and then configured and started by the agent that it is on.
  pub data Starts (my_uuid : Uuid)
      : List FduDescriptor → List Uuid → World env → World env → Type 0 where
    no_more : {w : World env} → Starts my_uuid [] [] w w
    one_more :
        {fdu : FduDescriptor} {fdus : List FduDescriptor} {us : List Uuid}
        {w w₁ w₂ w₃ w₄ w' : World env} (fdu_uuid server : Uuid)
        (found configured started : FduRecord)
        → fdu.uuid ≡ some fdu_uuid
        → env.orchestrator.schedule_fdu my_uuid fdu_uuid w ≡ (ok (ok found), w₁)
        → IsServer my_uuid found server w₁ w₂
        → env.orchestrator.configure_fdu server found.uuid w₂ ≡ (ok (ok configured), w₃)
        → env.orchestrator.start_fdu server found.uuid w₃ ≡ (ok (ok started), w₄)
        → Starts my_uuid fdus us w₄ w'
        → Starts my_uuid (fdu ∷ fdus) (found.uuid ∷ us) w w'

  server_for-IsServer :
      (my_uuid : Uuid) (found : FduRecord) (w : World env) {server : Uuid} {w' : World env}
      → server_for env self my_uuid found w ≡ (ret server, w')
      → IsServer my_uuid found server w w'
  unfolding server_for
  server_for-IsServer my_uuid found w {server} {w'} h =
      elim (Bool-cases (found.node == self.node_uuid)) [
        | inl e ↦
            let here : ◌≡◌ {A = Outcome Uuid × World env} (ret my_uuid, w) (ret server, w') =
              rw e at h in
            inl (ground arith, ret-inj (λ i. (here i).0), λ i. (here i).1)
        | inr e ↦
            let there : (get_node_info env.zenoh env.codecs self.global found.node >>= λ info.
            pure info.agent_service_uuid)
                  w
                ≡ (ret server, w') =
              rw e at h in
            let (info, w₁, got, last) =
              >>=-eq_ret (get_node_info env.zenoh env.codecs self.global found.node) _ w there in
            inr
              (ground arith, (info, got ∙ (λ i. (ret info, (last i).1)), ret-inj (λ i. (last i).0)))
      ]

  start_all-Starts :
      (my_uuid : Uuid) (known : EntityRecord) (fdus : List FduDescriptor) (w : World env)
      {r : EntityRecord} {w' : World env}
      → start_all env self my_uuid known fdus w ≡ (ret r, w')
      → (us : List Uuid) × (r ≡ record known { fdus = known.fdus ++ us })
        × Starts my_uuid fdus us w w'
  unfolding start_all start_one
  start_all-Starts my_uuid known [] w {r} {w'} h = (
    [],
    ret-inj (λ i. (h i).0) ∙ (λ i. record known { fdus = ++-nil known.fdus i }),
    subst (λ x. Starts my_uuid [] [] w x) (λ i. (h i).1) no_more,
  )
  start_all-Starts my_uuid known (fdu ∷ fdus) w {r} {w'} h =
      let (u, w₄, one, h₄) = >>=-eq_ret (start_one env self my_uuid fdu) _ w h in
      let (us, is, rest) =
        start_all-Starts my_uuid (record known { fdus = known.fdus ++ u ∷ [] }) fdus w₄ h₄ in
      let (fdu_uuid, w₀, given, h₀) =
        >>=-eq_ret (ok_or fdu.uuid FError.malformed_descriptor) _ w one in
      let (known_uuid, same) = ok_or-eq_ret fdu.uuid FError.malformed_descriptor w given in
      let (found, w₁, scheduled, h₁) =
        >>=-eq_ret (rpc_call (env.orchestrator.schedule_fdu my_uuid fdu_uuid)) _ w₀ h₀ in
      let (server, w₂, served, h₂) = >>=-eq_ret (server_for env self my_uuid found) _ w₁ h₁ in
      let (conf, w₃, configures, h₃) =
        >>=-eq_ret (rpc_call (env.orchestrator.configure_fdu server found.uuid)) _ w₂ h₂ in
      let (run, w₅, starts, h₅) =
        >>=-eq_ret (rpc_call (env.orchestrator.start_fdu server found.uuid)) _ w₃ h₃ in
      let pushed : u ≡ found.uuid = ret-inj (λ i. (h₅ i).0) in
      let ended : w₅ ≡ w₄ = λ i. (h₅ i).1 in
      (
        found.uuid ∷ us,
        is ∙ (λ i. record known { fdus = (++-snoc known.fdus (pushed i) us) i }),
        one_more fdu_uuid server found conf run known_uuid
            (ap (env.orchestrator.schedule_fdu my_uuid fdu_uuid) same
              ∙ rpc_call-eq_ret (env.orchestrator.schedule_fdu my_uuid fdu_uuid) w₀ scheduled)
            (server_for-IsServer my_uuid found w₁ served)
            (rpc_call-eq_ret (env.orchestrator.configure_fdu server found.uuid) w₂ configures)
            (rpc_call-eq_ret (env.orchestrator.start_fdu server found.uuid) w₃ starts)
            (subst (λ x. Starts my_uuid fdus us x w') (sym ended) rest),
      )

  -- The world is as the call that writes the record `r` leaves it, and that call ended with `o`.
  abbrev pub Written : EntityRecord → Outcome Unit → World env → Type 0
  Written r o w' = (w : World env) × (publish env self r w ≡ (o, w'))

  -- All the FDUs of the descriptor were started, after the record was written as starting, and the
  -- last call has written it as running, with their instances.
  abbrev pub IsScheduled : Uuid → EntityRecord → EntityDescriptor → World env → Type 0
  IsScheduled my_uuid known descriptor w' =
      (us : List Uuid) × (w₁ w₂ : World env) × Written
        (record known { status = EntityStatus.starting }) (ret tt) w₁
      × Starts my_uuid descriptor.fdus us w₁ w₂
      × (publish env self (record known { status = EntityStatus.running; fdus = known.fdus ++ us })
            w₂
          ≡ (ret tt, w'))

  -- An `entity_scheduling` that returns has written the record of the instance as starting, has then
  -- scheduled, configured and started each FDU of the descriptor in turn, at the agent that its
  -- instance is on, and has in its last call written the record as running, with the identifiers of
  -- exactly these instances, in this order, after those that it had.
  pub entity_scheduling-IsScheduled :
      (my_uuid : Uuid) (known : EntityRecord) (descriptor : EntityDescriptor) (w : World env)
      {w' : World env}
      → entity_scheduling env self my_uuid known descriptor w ≡ (ret tt, w')
      → IsScheduled my_uuid known descriptor w'
  unfolding entity_scheduling
  entity_scheduling-IsScheduled my_uuid known descriptor w {w'} h =
      let (_, w₁, _, h₁) = >>=-eq_ret (onboard_all env self my_uuid descriptor.fdus) _ w h in
      let (_, w₂, _, h₂) =
        >>=-eq_ret (publish env self (with_status EntityStatus.onboarded known)) _ w₁ h₁ in
      let (_, w₃, wrote, h₃) =
        >>=-eq_ret (publish env self (with_status EntityStatus.starting known)) _ w₂ h₂ in
      let (started, w₄, e, h₄) =
        >>=-eq_ret
          (start_all env self my_uuid (with_status EntityStatus.starting known) descriptor.fdus) _
          w₃ h₃ in
      let (us, is, all) =
        start_all-Starts my_uuid (with_status EntityStatus.starting known) descriptor.fdus w₃ e in
      (
        us,
        w₃,
        w₄,
        (w₂, wrote),
        all,
        subst (λ x. publish env self (with_status EntityStatus.running x) w₄ ≡ (ret tt, w')) is h₄,
      )

  -- The last call of an `entity_unscheduling` that returns writes the record of the instance as
  -- offloaded, and otherwise as it was.
  pub entity_unscheduling-offloaded :
      (my_uuid : Uuid) (known : EntityRecord) (w : World env) {w' : World env}
      → entity_unscheduling env self my_uuid known w ≡ (ret tt, w')
      → Written (with_status EntityStatus.offloaded known) (ret tt) w'
  unfolding entity_unscheduling
  entity_unscheduling-offloaded my_uuid known w h =
      let (descriptor, w₁, _, h₁) =
        >>=-eq_ret (get_entity env.zenoh env.codecs self.global known.id) _ w h in
      let (_, w₂, _, h₂) =
        >>=-eq_ret (publish env self (with_status EntityStatus.stopping known)) _ w₁ h₁ in
      let (_, w₃, _, h₃) = >>=-eq_ret (stop_all env self my_uuid known.fdus) _ w₂ h₂ in
      let (_, w₄, _, h₄) =
        >>=-eq_ret (publish env self (with_status EntityStatus.stopped known)) _ w₃ h₃ in
      let (_, w₅, _, h₅) =
        >>=-eq_ret (publish env self (with_status EntityStatus.offloading known)) _ w₄ h₄ in
      let (_, w₆, _, h₆) = >>=-eq_ret (offload_all env self my_uuid descriptor.fdus) _ w₅ h₅ in
      (w₆, h₆)

  -- How a task ends that was spawned with the record `known`: its work is done, as
  -- `Done` tells of the world it leaves; or an error has ended its work, and its last call, whether it succeeded
  -- or not, writes `known` itself with that error; or it has panicked or is still running.
  abbrev pub Ends : (World env → Type 0) → EntityRecord → Outcome Unit → World env → Type 0
  Ends Done known res w' =
      Done w'
      ⊎ (((e : FError) × (res ≡ fail e)
            × ((o : Outcome Unit) × Written (with_status (EntityStatus.error (display e)) known) o
                  w'))
          ⊎ ((res ≡ panic) ⊎ (res ≡ hang)))

  report-Ends :
      (Done : World env → Type 0) (known : EntityRecord) (res : Outcome Unit) (w : World env)
      → (res ≡ ret tt → Done w)
      → Ends Done known res (report env self known res w)
  unfolding report
  report-Ends Done known (ret tt) w done = inl (done refl)
  report-Ends Done known (fail e) w done = inr (inl (e, refl, (_, (w, refl))))
  report-Ends Done known panic w done = inr (inr (inl refl))
  report-Ends Done known hang w done = inr (inr (inr refl))

  -- A scheduling task that does not panic or hang ends in one of two ways. It has scheduled,
  -- configured and started each FDU of the descriptor in turn, at the agent that its instance is on,
  -- and in its last call written the record as running, with the identifiers of these instances, in
  -- this order, after those that it had. Or its work has ended with an error, and its last call,
  -- which may itself have failed, writes the record that the task was spawned with, in the status of
  -- that error.
  pub scheduling_task-Ends :
      (my_uuid : Uuid) (known : EntityRecord) (descriptor : EntityDescriptor) (w : World env)
      → Ends
          (IsScheduled my_uuid known descriptor)
          known
          (entity_scheduling env self my_uuid known descriptor w).0
          (scheduling_task env self my_uuid known descriptor w)
  unfolding scheduling_task
  scheduling_task-Ends my_uuid known descriptor w =
      report-Ends (IsScheduled my_uuid known descriptor) known _ _ λ e.
        entity_scheduling-IsScheduled my_uuid known descriptor w
          (λ i. (e i, (entity_scheduling env self my_uuid known descriptor w).1))

  -- An unscheduling task that does not panic or hang ends with a last call that writes the record
  -- of the instance: as offloaded, which has succeeded, or, after an error, in the status of that
  -- error, and otherwise as the task was spawned with it.
  pub unscheduling_task-Ends :
      (my_uuid : Uuid) (known : EntityRecord) (w : World env)
      → Ends
          (Written (with_status EntityStatus.offloaded known) (ret tt))
          known
          (entity_unscheduling env self my_uuid known w).0
          (unscheduling_task env self my_uuid known w)
  unfolding unscheduling_task
  unscheduling_task-Ends my_uuid known w =
      report-Ends (Written (with_status EntityStatus.offloaded known) (ret tt)) known _ _ λ e.
        entity_unscheduling-offloaded my_uuid known w
          (λ i. (e i, (entity_unscheduling env self my_uuid known w).1))
