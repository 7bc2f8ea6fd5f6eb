-- ===== src/Agent/State.antt =====
-- `AgentConfig`, `AgentInner` and `Agent` of fog05-agent/src/agent.rs. The client of a plugin is
-- known by the UUID of its server. The connector and the session with zenoh are parameters of the
-- methods; of the connector only the identifiers are state.
pub mod Laws
use fog.Prelude.{ℕ, String, Option, none, some, List, [], ◌∷◌, str_eq, if◌then◌else◌}
use fog.Sdk.Types.{Uuid}
use fog.Connector.Global.Defs.{Global}
use fog.Connector.Local.Defs.{Local}

pub record AgentConfig : Type 0 where
  pub system : Uuid
  pub pid_file : String
  pub zlocator : String
  pub path : String
  pub mgmt_interface : String
  pub monitoring_interveal : ℕ

-- `HashMap<String, HypervisorPluginClient>`
abbrev pub Plugins : Type 0
Plugins = List (String × Uuid)

pub record AgentInner : Type 0 where
  pub pid : ℕ
  pub networking : Option Uuid
  pub hypervisors : Plugins
  pub config : AgentConfig
  pub instance_uuid : Option Uuid

pub record Agent : Type 0 where
  pub node_uuid : Uuid
  pub global : Global
  pub local : Local
  pub inner : AgentInner

-- `hypervisors.get(&hv)`
abbrev pub lookup : String → Plugins → Option Uuid
lookup hv [] = none
lookup hv ((name, client) ∷ rest) = if str_eq name hv then some client else lookup hv rest

-- `hypervisors.insert(hv, client)`
abbrev pub insert : String → Uuid → Plugins → Plugins
insert hv client [] = (hv, client) ∷ []
insert hv client ((name, old) ∷ rest) =
    if str_eq name hv then (hv, client) ∷ rest else (name, old) ∷ insert hv client rest

-- `hypervisors.remove(&hv)`
abbrev pub remove : String → Plugins → Plugins
remove hv [] = []
remove hv ((name, client) ∷ rest) = if str_eq name hv then rest else (name, client) ∷ remove hv rest
