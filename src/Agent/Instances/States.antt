-- ===== src/Agent/Instances/States.antt =====
-- The handlers, and the states of the instances that they return.
use fog.Prelude.{ap, some, ℕ, ◌≡◌, sym, ◌∙◌, ◌==◌, true, arith}
use fog.Sdk.Fresult.{FError}
use fog.Sdk.Outcome.{ok, Result, Call, ret, Task, rpc_call, ◌>>=◌, ◌>>◌}
use fog.Sdk.Outcome.Laws.{>>=-eq_ret, ok_or-eq_ret, rpc_call-eq_ret, Returns, Returns-bind}
use fog.Sdk.Types.{Uuid}
use fog.Sdk.Im.Fdu.{FduDescriptor, FduRecord, FduState, defined, configured, running}
use fog.Connector.Global.Fdus.{get_fdu, get_instance}
use fog.Agent.Env.{Env, World}
use fog.Agent.State.{Agent, lookup}
use fog.Agent.Instances.{
  await_state, transition, local_plugin, configure_fdu, start_fdu, stop_fdu, clean_fdu, define_fdu,
  plugin_of,
}
use fog.Agent.Instances.Polling.{Settles, now, later, judge-eq_ret, await_state_sound}

module _ (env : Env) (self : Agent) where
  Settles-status :
      {target : FduState} {uuid : Uuid} {found : FduRecord} {w' : World env} {n : ℕ} {w : World env}
      → Settles env self target uuid (ret found) w' n w
      → found.status ≡ target
  Settles-status {target} (now o e v) = (judge-eq_ret target o v).1
  Settles-status (later o w₁ e v s) = Settles-status s

  Settles-read :
      {target : FduState} {uuid : Uuid} {found : FduRecord} {w' : World env} {n : ℕ} {w : World env}
      → Settles env self target uuid (ret found) w' n w
      → (found.status ≡ target)
        × ((w₁ : World env) × (get_instance env.zenoh env.codecs self.global uuid w₁
              ≡ (ret found, w')))
  Settles-read {target} {w' = w'} (now {w = w} o e v) =
      let (is, at) = judge-eq_ret target o v in (at, (w, e ∙ λ i. (is i, w')))
  Settles-read (later o w₁ e v s) = Settles-read s

  abbrev pub In : FduState → FduRecord → Type 0
  In target found = found.status ≡ target

  await_state-In :
      (target : FduState) (fuel : ℕ) (uuid : Uuid)
      → Returns (In target) (await_state env self target fuel uuid)
  await_state-In target fuel uuid = record {
    at = λ w h. Settles-status (await_state_sound env self target uuid fuel w h).2;
  }

  -- On the node of the instance, the handler is the local half of `transition`.
  transition_local :
      (target : FduState) (plugin_call : Uuid → Uuid → Call (World env) (Result FError Uuid))
      (remote_call : Uuid → Uuid → Call (World env) (Result FError FduRecord)) (fuel : ℕ)
      (uuid : Uuid) (w : World env) {known : FduRecord} {w₀ : World env}
      → get_instance env.zenoh env.codecs self.global uuid w ≡ (ret known, w₀)
      → known.node ≡ self.node_uuid
      → transition env self target plugin_call remote_call fuel uuid w
        ≡ (do
          plugin ← local_plugin env self known
          rpc_call (plugin_call plugin uuid)
          await_state env self target fuel uuid)
            w₀
  unfolding transition
  transition_local target plugin_call remote_call fuel uuid w {known} e here =
      let local : (known.node == self.node_uuid) ≡ true = ground arith in rw (e, local)

  transition-status :
      (target : FduState) (plugin_call : Uuid → Uuid → Call (World env) (Result FError Uuid))
      (remote_call : Uuid → Uuid → Call (World env) (Result FError FduRecord)) (fuel : ℕ)
      (uuid : Uuid) (w : World env) {known found : FduRecord} {w₀ w' : World env}
      → get_instance env.zenoh env.codecs self.global uuid w ≡ (ret known, w₀)
      → known.node ≡ self.node_uuid
      → transition env self target plugin_call remote_call fuel uuid w ≡ (ret found, w')
      → found.status ≡ target
  transition-status target plugin_call remote_call fuel uuid w {known} {w₀} e here h =
      (Returns-bind (In target) (local_plugin env self known) _ λ plugin.
          Returns-bind (In target) (rpc_call (plugin_call plugin uuid)) _
            λ _. await_state-In target fuel uuid).at
        w₀ (sym (transition_local target plugin_call remote_call fuel uuid w e here) ∙ h)

  -- The handlers that wait for a state, and the state each of them waits for.
  pub data Handler : Type 0 where
    configuring starting stopping cleaning : Handler

  abbrev pub run : Handler → ℕ → Uuid → Task (World env) FduRecord
  run configuring = configure_fdu env self
  run starting = start_fdu env self
  run stopping = stop_fdu env self
  run cleaning = clean_fdu env self

  abbrev pub goal : Handler → FduState
  goal configuring = configured
  goal starting = running
  goal stopping = configured
  goal cleaning = defined

  -- For an instance that is recorded on the agent's own node, whatever else runs: one that `configure_fdu` or `stop_fdu`
  -- returns is configured, one that `start_fdu` returns is running, and one that `clean_fdu`
  -- returns is defined.
  pub handlers_reach_state :
      (h : Handler) (fuel : ℕ) (uuid : Uuid) (w : World env) {known found : FduRecord}
      {w₀ w' : World env}
      → get_instance env.zenoh env.codecs self.global uuid w ≡ (ret known, w₀)
      → known.node ≡ self.node_uuid
      → run h fuel uuid w ≡ (ret found, w')
      → found.status ≡ goal h
  unfolding configure_fdu start_fdu stop_fdu clean_fdu
  handlers_reach_state configuring =
      transition-status configured env.hypervisor.configure_fdu env.orchestrator.configure_fdu
  handlers_reach_state starting =
      transition-status running env.hypervisor.start_fdu env.orchestrator.start_fdu
  handlers_reach_state stopping =
      transition-status configured env.hypervisor.stop_fdu env.orchestrator.stop_fdu
  handlers_reach_state cleaning =
      transition-status defined env.hypervisor.clean_fdu env.orchestrator.clean_fdu

  -- The record was made by this agent for the FDU, which leaves the world `w'`: the plugin for the
  -- hypervisor of the FDU's descriptor was asked to define that descriptor, and the record of the
  -- instance that it has answered with was read from the store last, in the state defined.
  abbrev pub IsDefined : Uuid → FduRecord → World env → Type 0
  IsDefined fdu_uuid made w' =
      (d : FduDescriptor) × (plugin : Uuid) × (asked : FduRecord) × (w w₁ w₂ w₃ : World env)
      × (get_fdu env.zenoh env.codecs self.global fdu_uuid w ≡ (ret d, w₁))
      × (lookup d.hypervisor self.inner.hypervisors ≡ some plugin)
      × (env.hypervisor.define_fdu plugin d w₁ ≡ (ok (ok asked), w₂))
      × (get_instance env.zenoh env.codecs self.global asked.uuid w₃ ≡ (ret made, w'))
      × (made.status ≡ defined)

  pub define_fdu-IsDefined :
      (fuel : ℕ) (fdu_uuid : Uuid) (w : World env) {made : FduRecord} {w' : World env}
      → define_fdu env self fuel fdu_uuid w ≡ (ret made, w')
      → IsDefined fdu_uuid made w'
  unfolding define_fdu plugin_of
  define_fdu-IsDefined fuel fdu_uuid w h =
      let (d, w₁, got, h₁) = >>=-eq_ret (get_fdu env.zenoh env.codecs self.global fdu_uuid) _ w h in
      let (plugin, w₂, found, h₂) = >>=-eq_ret (plugin_of env self d) _ w₁ h₁ in
      let (is, same) =
        ok_or-eq_ret (lookup d.hypervisor self.inner.hypervisors) FError.not_found w₁ found in
      let (asked, w₃, defines, h₃) =
        >>=-eq_ret (rpc_call (env.hypervisor.define_fdu plugin d)) _ w₂ h₂ in
      let (at, (w₄, read)) =
        Settles-read (await_state_sound env self defined asked.uuid fuel w₃ h₃).2 in
      (
        d,
        plugin,
        asked,
        w,
        w₁,
        w₃,
        w₄,
        got,
        is,
        ap (env.hypervisor.define_fdu plugin d) same
            ∙ rpc_call-eq_ret (env.hypervisor.define_fdu plugin d) w₂ defines,
        read,
        at,
      )

  -- An instance of this node that `clean_fdu` returns is defined, and was read from the store last.
  pub clean_fdu-read :
      (fuel : ℕ) (uuid : Uuid) (w : World env) {known found : FduRecord} {w₀ w' : World env}
      → get_instance env.zenoh env.codecs self.global uuid w ≡ (ret known, w₀)
      → known.node ≡ self.node_uuid
      → clean_fdu env self fuel uuid w ≡ (ret found, w')
      → (found.status ≡ defined)
        × ((w₁ : World env) × (get_instance env.zenoh env.codecs self.global uuid w₁
              ≡ (ret found, w')))
  unfolding clean_fdu
  clean_fdu-read fuel uuid w {known} {found} {w₀} {w'} e here h =
      let local =
        sym (
          transition_local defined env.hypervisor.clean_fdu env.orchestrator.clean_fdu fuel uuid w e
            here)
        ∙ h in
      let (plugin, w₁, _, h₁) = >>=-eq_ret (local_plugin env self known) _ w₀ local in
      let (_, w₂, _, h₂) = >>=-eq_ret (rpc_call (env.hypervisor.clean_fdu plugin uuid)) _ w₁ h₁ in
      Settles-read (await_state_sound env self defined uuid fuel w₂ h₂).2
