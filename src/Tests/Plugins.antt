-- ===== src/Tests/Plugins.antt =====
-- What the tests of the example plugins share: codecs of interfaces and namespaces, and a
-- hypervisor and a network on the store in memory. Each new UUID is 40 and the number of entries of
-- the store, which keeps a trace of it.
use fog.Prelude.{ℕ, zero, suc, ◌+◌, String, true, false, Option, none, some, List, [], ◌∷◌, length}
use fog.Sdk.Outcome.{Result, ok, err, Call}
use fog.Sdk.Fresult.{FError}
use fog.Sdk.Types.{Uuid, VirtualInterface, VirtualInterfaceKind, NetworkNamespace, ConnectionPoint}
use fog.Sdk.Im.Fdu.{FduState}
use fog.Zenoh.{Entry, raw, word, id}
use fog.Zenoh.Memory.{memory}
use fog.Connector.Codecs.{Codecs}
use fog.Connector.LocalKeys.{
  local_prefix, node_instance_path, node_viface_path, node_cp_path, node_netns_path,
}
use fog.Dummy.Env.{Env}
use fog.Dummy.Hypervisor.Configure.{DummyHypervisor}
use fog.Dummy.Network.Defs.{DummyNetwork}
use fog.Tests.Fixture.{codecs, fdu, global, state_code}

abbrev option_code : Option Uuid → ℕ
option_code none = 0
option_code (some u) = suc u

abbrev option_of : ℕ → Option Uuid
option_of zero = none
option_of (suc u) = some u

abbrev kind_code : VirtualInterfaceKind → List ℕ
kind_code (VirtualInterfaceKind.bridge info) = 0 ∷ info.childs
kind_code (VirtualInterfaceKind.veth info) = elim info.internal [
  | true ↦ 1 ∷ info.pair ∷ []
  | false ↦ 2 ∷ info.pair ∷ []
]
kind_code _ = []

-- Bridges are called "br0", the internal end of a pair "eth0", and its other end "veth0".
abbrev face : Uuid → ℕ → ℕ → String → VirtualInterfaceKind → Result String VirtualInterface
face u ns parent name kind = ok (record {
  uuid = u;
  if_name = name;
  net_ns = option_of ns;
  kind = kind;
  parent = option_of parent;
  addresses = [];
  phy_address = 0;
})

abbrev face_of : List ℕ → Result String VirtualInterface
face_of (u ∷ ns ∷ parent ∷ zero ∷ childs) =
    face u ns parent "br0" (VirtualInterfaceKind.bridge (record { childs = childs }))
face_of (u ∷ ns ∷ parent ∷ suc zero ∷ pair ∷ []) =
    face u ns parent "eth0" (VirtualInterfaceKind.veth (record { pair = pair; internal = true }))
face_of (u ∷ ns ∷ parent ∷ suc (suc zero) ∷ pair ∷ []) =
    face u ns parent "veth0" (VirtualInterfaceKind.veth (record { pair = pair; internal = false }))
face_of _ = err "face"

abbrev face_buffer : VirtualInterface → List ℕ
face_buffer f = f.uuid ∷ option_code f.net_ns ∷ option_code f.parent ∷ kind_code f.kind

abbrev namespace_of : List ℕ → Result String NetworkNamespace
namespace_of (u ∷ interfaces) =
    ok (record { uuid = u; ns_name = "ns-dummy"; interfaces = interfaces })
namespace_of [] = err "namespace"

abbrev pub point : ConnectionPoint
point = record { uuid = 30; net_ns = 31; bridge = 32; internal_veth = 33; external_veth = 34 }

abbrev net_codecs : Codecs
net_codecs = record codecs {
  interface = record { serialize = λ f. ok (face_buffer f); deserialize = face_of };
  namespace = record { serialize = λ n. ok (n.uuid ∷ n.interfaces); deserialize = namespace_of };
  connection_point = record { serialize = λ p. ok []; deserialize = λ b. ok point };
}

abbrev answer : {A : Type 0} → A → Call (List Entry) (Result FError A)
answer a w = (ok (ok a), w)

abbrev refuse : {A : Type 0} → Call (List Entry) (Result FError A)
refuse w = (err "no server", w)

abbrev traced : List Entry → Uuid × List Entry
traced w = (length w + 40, (word "uuids" ∷ id (length w) ∷ [], raw []) ∷ w)

abbrev pub dummy_env : Env
dummy_env = record {
  zenoh = memory;
  codecs = net_codecs;
  agent = record { get_node_uuid = λ server. answer 1; fdu_info = λ server u. answer fdu };
  net = record {
    create_network_namespace = λ server. refuse;
    delete_network_namespace = λ server u. refuse;
    create_connection_point = λ server. refuse;
    delete_connection_point = λ server u. refuse;
    create_virtual_interface_in_namespace = λ server intf u. refuse;
    delete_virtual_interface = λ server u. refuse;
    bind_interface_to_connection_point = λ server u cp. refuse;
    move_interface_into_default_namespace = λ server u. refuse;
  };
  new_v4 = traced;
  random_name = λ w. ("veth0", w);
  to_json = λ u. u ∷ [];
  from_json = λ b. elim b [ [] ↦ none | u ∷ rest ↦ some u ];
  into_iter = λ m. m;
}

abbrev pub hypervisor : DummyHypervisor
hypervisor = record {
  local = record { node_uuid = 1 };
  pid = 1;
  agent = some 100;
  os = some 101;
  net = none;
}

abbrev pub network : DummyNetwork
network = record {
  local = record { node_uuid = 1 };
  global = global;
  pid = 2;
  agent = some 100;
  os = some 101;
}

-- The node's part of the store with the instance in a state.
abbrev pub node_store_in : FduState → List Entry
node_store_in state =
    (node_instance_path local_prefix (id 1) (id 7) (id 9), raw (state_code state ∷ [])) ∷ []

-- A bridge, 22, and an interface, 21, that is an end of a pair; a connection point; a namespace.
abbrev pub net_store : List Entry
net_store =
    (node_viface_path local_prefix (id 1) (id 21), raw (21 ∷ 0 ∷ 0 ∷ 1 ∷ 23 ∷ []))
    ∷ (node_viface_path local_prefix (id 1) (id 22), raw (22 ∷ 0 ∷ 0 ∷ 0 ∷ []))
    ∷ (node_cp_path local_prefix (id 1) (id 30), raw [])
    ∷ (node_netns_path local_prefix (id 1) (id 35), raw (35 ∷ 21 ∷ []))
    ∷ []

abbrev pub end_21 : VirtualInterface
end_21 = record {
  uuid = 21;
  if_name = "eth0";
  net_ns = none;
  kind = VirtualInterfaceKind.veth (record { pair = 23; internal = true });
  parent = none;
  addresses = [];
  phy_address = 0;
}

abbrev pub bridge_22 : VirtualInterface
bridge_22 = record {
  uuid = 22;
  if_name = "br0";
  net_ns = none;
  kind = VirtualInterfaceKind.bridge (record { childs = [] });
  parent = none;
  addresses = [];
  phy_address = 0;
}

abbrev pub space_35 : NetworkNamespace
space_35 = record { uuid = 35; ns_name = "ns-dummy"; interfaces = 21 ∷ [] }
