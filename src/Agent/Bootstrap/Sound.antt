-- ===== src/Agent/Bootstrap/Sound.antt =====
-- What an agent that has started has done, and what it starts with.
use fog.Prelude.{String, ◌≡◌, ap, ◌∙◌, none, some, []}
use fog.Sdk.Outcome.{expect, expecting, ok, ret}
use fog.Sdk.Outcome.Laws.{expect-eq_ret, expecting-eq_ret, >>=-eq_ret, ret-inj}
use fog.Sdk.Types.{Uuid}
use fog.Connector.Global.Defs as global
use fog.Connector.Handle.{ZConnector, new, own_uuid}
use fog.Agent.State.{Agent, AgentConfig}
use fog.Agent.Bootstrap.{Machine, read_file, claim, own_node_uuid, made, bootstrap}
use fog.Agent.Bootstrap.Laws.{Unclaimed, Written, claim-eq_ret}

module _ {W : Type 0} (machine : Machine W) where
  -- An agent that has started with a configuration: it is of the configured system and the default
  -- tenant, has no plugins, and is not served yet.
  pub record Fresh (config : AgentConfig) (self : Agent) : Type 0 where
    pub config_is : self.inner.config ≡ config
    pub pid_is : self.inner.pid ≡ machine.id
    pub global_is : self.global ≡ record { system_id = config.system; tenant_id = 0 }
    pub no_networking : self.inner.networking ≡ none
    pub no_hypervisors : self.inner.hypervisors ≡ []
    pub no_instance : self.inner.instance_uuid ≡ none

  new-global :
      (system : Uuid) (w : W) {connector : ZConnector} {w' : W}
      → new machine.machine_uid machine.parse_uuid (some system) none w ≡ (ret connector, w')
      → connector.global ≡ record { system_id = system; tenant_id = 0 }
  unfolding new global.new
  new-global system w h =
      let (u, w₁, _, rest) = >>=-eq_ret (own_uuid machine.machine_uid machine.parse_uuid) _ w h in
      ap (λ c. c.global) (ret-inj (ap (λ x. x.0) rest))

  made-Fresh :
      (config : AgentConfig) (w : W) {self : Agent} {w' : W}
      → made machine config w ≡ (ret self, w')
      → Fresh config self
  made-Fresh config w h =
      let (node_uuid, w₁, _, h₁) = >>=-eq_ret (own_node_uuid machine) _ w h in
      let (_, w₂, _, h₂) = >>=-eq_ret (expecting (machine.connect _)) _ w₁ h₁ in
      let (_, w₃, _, h₃) = >>=-eq_ret (expecting (machine.open_net _)) _ w₂ h₂ in
      let (connector, w₄, e, h₄) =
        >>=-eq_ret (new machine.machine_uid machine.parse_uuid (some config.system) none) _ w₃ h₃ in
      let is = ret-inj (ap (λ x. x.0) h₄) in
      record {
        config_is = ap (λ a. a.inner.config) is;
        pid_is = ap (λ a. a.inner.pid) is;
        global_is = ap (λ a. a.global) is ∙ new-global config.system w₃ e;
        no_networking = ap (λ a. a.inner.networking) is;
        no_hypervisors = ap (λ a. a.inner.hypervisors) is;
        no_instance = ap (λ a. a.inner.instance_uuid) is;
      }

  -- An agent that gets through its bootstrap has read its configuration, has then found no PID
  -- file, or one with the PID of a process that was not running, which it has removed, and has then
  -- written its own PID to that file; it is of the configured system, has no plugins, and is not
  -- served yet.
  pub bootstrap_sound :
      (config_path : String) (w : W) {self : Agent} {w' : W}
      → bootstrap machine config_path w ≡ (ret self, w')
      → (text : String) × (config : AgentConfig) × (w₁ w₂ w₃ : W) × (machine.read_to_string
            config_path w
          ≡ (ok text, w₁))
        × (machine.parse_yaml text ≡ ok config)
        × Unclaimed machine config.pid_file w₁ w₂
        × Written machine config.pid_file w₂ w₃
        × Fresh config self
  unfolding bootstrap
  bootstrap_sound config_path w h =
      let (text, w₁, e₁, h₁) = >>=-eq_ret (read_file machine config_path) _ w h in
      let (config, w₂, e₂, h₂) = >>=-eq_ret (expect (machine.parse_yaml text)) _ w₁ h₁ in
      let (_, w₃, e₃, h₃) = >>=-eq_ret (claim machine config.pid_file) _ w₂ h₂ in
      let (is, same) = expect-eq_ret (machine.parse_yaml text) w₁ e₂ in
      let (w₄, unclaimed, written) = claim-eq_ret machine config.pid_file w₂ e₃ in
      (
        text,
        config,
        w₂,
        w₄,
        w₃,
        expecting-eq_ret (machine.read_to_string config_path) w (e₁ ∙ λ i. (ret text, same i)),
        is,
        unclaimed,
        written,
        made-Fresh config w₃ h₃,
      )
