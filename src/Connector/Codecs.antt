-- ===== src/Connector/Codecs.antt =====
-- The serializer of zconnector/serializers.rs at each type of data that is stored.
use fog.Zenoh.{Codec}
use fog.Sdk.Types.{PluginInfo, VirtualNetwork, ConnectionPoint, VirtualInterface, NetworkNamespace}
use fog.Sdk.Im.Fdu.{FduDescriptor, FduRecord}
use fog.Sdk.Im.Node.{SystemInfo, SystemConfig, NodeInfo, NodeStatus}
use fog.Sdk.Im.Entity.{EntityDescriptor, EntityRecord}

pub record Codecs : Type 0 where
  pub system_info : Codec SystemInfo
  pub system_config : Codec SystemConfig
  pub node_info : Codec NodeInfo
  pub node_status : Codec NodeStatus
  pub plugin : Codec PluginInfo
  pub network : Codec VirtualNetwork
  pub connection_point : Codec ConnectionPoint
  pub interface : Codec VirtualInterface
  pub namespace : Codec NetworkNamespace
  pub fdu : Codec FduDescriptor
  pub instance_record : Codec FduRecord
  pub entity : Codec EntityDescriptor
  pub entity_record : Codec EntityRecord
