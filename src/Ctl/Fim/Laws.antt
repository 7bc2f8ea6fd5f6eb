-- ===== src/Ctl/Fim/Laws.antt =====
-- What the line that is printed says has happened, and how the command line tool compares with the
-- REST server.
use fog.Prelude.{◌≡◌, refl, ap, ◌⊎◌, inl, inr, Bool, true, false, if◌then◌else◌, ◌∷◌}
use fog.Sdk.Fresult.{FError}
use fog.Sdk.Outcome.{Outcome, ok, ret, fail, panic, hang, Task, panics}
use fog.Sdk.Outcome.Laws.{>>=-eq_ret, rpc_call-eq_ret, three_calls-eq_ret}
use fog.Sdk.Types.{Uuid}
use fog.Sdk.Im.Fdu.{FduDescriptor, FduRecord}
use fog.Sdk.Im.Entity.{EntityDescriptor, EntityRecord}
use fog.Connector.Global.Defs.{Global}
use fog.Connector.Global.Fdus.{get_fdu, get_instance}
use fog.Connector.Global.Entities.{get_entity, get_entity_instance}
use fog.Agent.Env.{Env, World}
use fog.Ctl.Terminal.{Machine, Screen, line}
use fog.Ctl.Quiet.{print-eq_ret}
use fog.Ctl.Fim.Nodes.{
  Session, is_not_found, entry_point, resolve, matched, run_on, remove_on, instantiate, take_down,
  add_instance, delete_instance,
}

is_not_found-eq : (e : FError) → is_not_found e ≡ true → e ≡ FError.not_found
is_not_found-eq FError.not_found h = refl
is_not_found-eq _ h = cc h

module _ {W A B : Type 0} (found : A → Task W B) (missing : Task W B) where
  resolve-error :
      (e : FError) (b : Bool) (w : W) {r : B} {w' : W}
      → is_not_found e ≡ b
      → ◌≡◌ {A = Outcome B × W} (if b then missing w else (panic, w)) (ret r, w')
      → (e ≡ FError.not_found) × (missing w ≡ (ret r, w'))
  resolve-error e true w k h = (is_not_found-eq e k, h)
  resolve-error e false w k h = cc (ap (λ (x : Outcome B × W). x.0) h)

  resolve-eq_ret :
      (o : Outcome A) (w : W) {r : B} {w' : W}
      → resolve o found missing w ≡ (ret r, w')
      → ((a : A) × (o ≡ ret a) × (found a w ≡ (ret r, w')))
        ⊎ ((o ≡ fail FError.not_found) × (missing w ≡ (ret r, w')))
  resolve-eq_ret (ret a) w h = inl (a, refl, h)
  resolve-eq_ret (fail e) w h =
      let (is, rest) = resolve-error e (is_not_found e) w refl h in inr (ap fail is, rest)
  resolve-eq_ret panic w h = cc (ap (λ (x : Outcome B × W). x.0) h)
  resolve-eq_ret hang w h = cc (ap (λ (x : Outcome B × W). x.0) h)

  -- What has been looked up is either there or not found.
  matched-eq_ret :
      (call : Task W A) (w : W) {r : B} {w' : W}
      → matched call found missing w ≡ (ret r, w')
      → (w₁ : W) × (((a : A) × (call w ≡ (ret a, w₁)) × (found a w₁ ≡ (ret r, w')))
          ⊎ ((call w ≡ (fail FError.not_found, w₁)) × (missing w₁ ≡ (ret r, w'))))
  matched-eq_ret call w h = (
    (call w).1,
    elim (resolve-eq_ret (call w).0 (call w).1 h) [
      | inl (a, e, rest) ↦ inl (a, (λ i. (e i, (call w).1)), rest)
      | inr (e, rest) ↦ inr ((λ i. (e i, (call w).1)), rest)
    ],
  )

-- What must be there is there, where the block returns.
insisting-eq_ret :
    {W A B : Type 0} (call : Task W A) (found : A → Task W B) (w : W) {u : B} {w' : W}
    → matched call found panics w ≡ (ret u, w')
    → (a : A) × (w₁ : W) × (call w ≡ (ret a, w₁)) × (found a w₁ ≡ (ret u, w'))
insisting-eq_ret {B = B} call found w h =
    let (w₁, split) = matched-eq_ret found panics call w h in
    elim split [
      | inl (a, there, rest) ↦ (a, w₁, there, rest)
      | inr (missing, rest) ↦ cc (ap (λ (x : Outcome B × _). x.0) rest)
    ]

module _ (env : Env) (machine : Machine (World env)) (session : Session (World env))
    (self : Global) where
  -- The three calls of one agent that make an instance of `id` run, and answer with `u` last.
  abbrev pub Ran : Uuid → Uuid → Uuid → World env → World env → Type 0
  Ran node id u w w' =
      (scheduled configured started : FduRecord) × (w₁ w₂ : World env)
      × (env.orchestrator.schedule_fdu node id w ≡ (ok (ok scheduled), w₁))
      × (env.orchestrator.configure_fdu node scheduled.uuid w₁ ≡ (ok (ok configured), w₂))
      × (env.orchestrator.start_fdu node scheduled.uuid w₂ ≡ (ok (ok started), w'))
      × (u ≡ started.uuid)

  -- The three calls of one agent that take the instance `id` down, and answer with `u` last.
  abbrev pub TakenDown : Uuid → Uuid → Uuid → World env → World env → Type 0
  TakenDown node id u w w' =
      (stopped cleaned undefined : FduRecord) × (w₁ w₂ : World env) × (env.orchestrator.stop_fdu
          node id w
        ≡ (ok (ok stopped), w₁))
      × (env.orchestrator.clean_fdu node stopped.uuid w₁ ≡ (ok (ok cleaned), w₂))
      × (env.orchestrator.undefine_fdu node stopped.uuid w₂ ≡ (ok (ok undefined), w'))
      × (u ≡ undefined.uuid)

  run_on-Ran :
      (node id : Uuid) (w : World env) {u : Uuid} {w' : World env}
      → run_on env machine session self node id w ≡ (ret u, w')
      → Ran node id u w w'
  run_on-Ran node id w h =
      three_calls-eq_ret (λ r. r.uuid) (env.orchestrator.schedule_fdu node id)
        (env.orchestrator.configure_fdu node) (env.orchestrator.start_fdu node) (λ r. r.uuid) w h

  remove_on-TakenDown :
      (node id : Uuid) (w : World env) {u : Uuid} {w' : World env}
      → remove_on env machine session self node id w ≡ (ret u, w')
      → TakenDown node id u w w'
  remove_on-TakenDown node id w h =
      three_calls-eq_ret (λ r. r.uuid) (env.orchestrator.stop_fdu node id)
        (env.orchestrator.clean_fdu node) (env.orchestrator.undefine_fdu node) (λ r. r.uuid) w h

  -- `add_instance` returns only where `id` is an FDU of the catalog that an agent has scheduled,
  -- configured and started, or else is not, but is an entity of the catalog that an agent has
  -- scheduled; the UUID that the agent has answered last is the one line that is printed.
  pub fim_add_instance_sound :
      (id : Uuid) (screen : Screen) (w : World env) {screen' : Screen} {w' : World env}
      → add_instance env machine session self id (screen, w) ≡ (ret tt, (screen', w'))
      → (u node : Uuid) × (w₁ w₂ : World env) × (screen' ≡ line (machine.show_uuid u) ∷ screen)
        × (((fdu : FduDescriptor) × (get_fdu env.zenoh env.codecs self id w₁ ≡ (ret fdu, w₂))
              × Ran node id u w₂ w')
            ⊎ ((get_fdu env.zenoh env.codecs self id w₁ ≡ (fail FError.not_found, w₂))
                × (entity : EntityDescriptor) × (w₃ : World env) × (get_entity env.zenoh env.codecs
                      self id w₂
                    ≡ (ret entity, w₃))
                × (env.orchestrator.schedule_entity node id w₃ ≡ (ok (ok u), w'))))
  unfolding add_instance
  fim_add_instance_sound id screen w h =
      let (u, done, shown) =
        print-eq_ret (instantiate env machine session self id) (λ u. line (machine.show_uuid u))
          screen w h in
      let (node, w₁, _, rest) = >>=-eq_ret (entry_point env machine session self) _ w done in
      let (w₂, split) =
        matched-eq_ret (λ fdu. run_on env machine session self node id) _
          (get_fdu env.zenoh env.codecs self id) w₁ rest in
      (
        u,
        node,
        w₁,
        w₂,
        shown,
        elim split [
          | inl (fdu, there, ran) ↦ inl (fdu, there, run_on-Ran node id w₂ ran)
          | inr (missing, ran) ↦
              let (entity, w₃, there, last) =
                insisting-eq_ret (get_entity env.zenoh env.codecs self id) _ w₂ ran in
              inr (
                missing,
                entity,
                w₃,
                there,
                rpc_call-eq_ret (env.orchestrator.schedule_entity node id) w₃ last,
              )
        ],
      )

  -- `delete_instance` returns only where `id` is an instance of an FDU that an agent has stopped,
  -- cleaned and undefined, or else is not found among those, but is an instance of an entity that
  -- an agent has descheduled; the UUID that the agent has answered last is the one line that is
  -- printed.
  pub fim_delete_instance_sound :
      (id : Uuid) (screen : Screen) (w : World env) {screen' : Screen} {w' : World env}
      → delete_instance env machine session self id (screen, w) ≡ (ret tt, (screen', w'))
      → (u node : Uuid) × (w₁ w₂ : World env) × (screen' ≡ line (machine.show_uuid u) ∷ screen)
        × (((found : FduRecord) × (get_instance env.zenoh env.codecs self id w ≡ (ret found, w₁))
              × TakenDown node id u w₂ w')
            ⊎ ((get_instance env.zenoh env.codecs self id w ≡ (fail FError.not_found, w₁))
                × (entity : EntityRecord) × (w₃ : World env) × (get_entity_instance env.zenoh
                      env.codecs self id w₁
                    ≡ (ret entity, w₃))
                × (env.orchestrator.deschedule_entity node id w₂ ≡ (ok (ok u), w'))))
  unfolding delete_instance
  fim_delete_instance_sound id screen w h =
      let (u, done, shown) =
        print-eq_ret (take_down env machine session self id) (λ u. line (machine.show_uuid u))
          screen w h in
      let (w₁, split) = matched-eq_ret _ _ (get_instance env.zenoh env.codecs self id) w done in
      elim split [
        | inl (found, there, rest) ↦
            let (node, w₂, _, last) = >>=-eq_ret (entry_point env machine session self) _ w₁ rest in
            (u, node, w₁, w₂, shown, inl (found, there, remove_on-TakenDown node id w₂ last))
        | inr (missing, rest) ↦
            let (entity, w₃, there, last) =
              insisting-eq_ret (get_entity_instance env.zenoh env.codecs self id) _ w₁ rest in
            let (node, w₂, _, asked) =
              >>=-eq_ret (entry_point env machine session self) _ w₃ last in
            let answered = rpc_call-eq_ret (env.orchestrator.deschedule_entity node id) w₂ asked in
            (u, node, w₁, w₂, shown, inr (missing, entity, w₃, there, answered))
      ]
