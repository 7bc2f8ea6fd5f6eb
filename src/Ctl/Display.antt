-- ===== src/Ctl/Display.antt =====
-- What the command line tool shows of the states of fog05-sdk/src/im: the `Display` of an
-- enumeration is the name of the variant, or the text that it holds.
use fog.Prelude.{String, List, [], ◌∷◌, ◌<>◌}
use fog.Sdk.Types.{IpVersion, ipv4, ipv6}
use fog.Sdk.Im.Fdu.{FduState, defined, configured, running}
use fog.Sdk.Im.Node.{NodeStatusEnum, not_ready, ready, unknown}
use fog.Sdk.Im.Entity.{EntityStatus, LinkKind, l2, l3, eline, elan}

abbrev pub display_state : FduState → String
display_state defined = "DEFINED"
display_state configured = "CONFIGURED"
display_state running = "RUNNING"
display_state (FduState.error e) = e

abbrev pub display_entity_status : EntityStatus → String
display_entity_status EntityStatus.onboarding = "ONBOARDING"
display_entity_status EntityStatus.onboarded = "ONBOARDED"
display_entity_status EntityStatus.starting = "STARTING"
display_entity_status EntityStatus.running = "RUNNING"
display_entity_status EntityStatus.stopping = "STOPPING"
display_entity_status EntityStatus.stopped = "STOPPED"
display_entity_status EntityStatus.offloading = "OFFLOADING"
display_entity_status EntityStatus.offloaded = "OFFLOADED"
display_entity_status EntityStatus.invalid = "INVALID"
display_entity_status (EntityStatus.error e) = e
display_entity_status EntityStatus.recovering = "RECOVERING"

abbrev pub display_link_kind : LinkKind → String
display_link_kind l2 = "L2"
display_link_kind l3 = "L3"
display_link_kind eline = "ELINE"
display_link_kind elan = "ELAN"

abbrev pub display_ip_version : IpVersion → String
display_ip_version ipv4 = "IPV4"
display_ip_version ipv6 = "IPV6"

-- `impl Display for NodeStatusEnum`
abbrev pub display_node_status : NodeStatusEnum → String
display_node_status not_ready = "NotReady"
display_node_status ready = "Ready"
display_node_status unknown = "Unknown"

-- `texts.join(",")`
abbrev pub join : List String → String
join [] = ""
join (s ∷ []) = s
join (s ∷ t ∷ rest) = s <> ("," <> join (t ∷ rest))
