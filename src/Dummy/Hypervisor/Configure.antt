-- ===== src/Dummy/Hypervisor/Configure.antt =====
-- What `configure_fdu` of fog05-sdk/examples/dummy-hypervisor.rs asks of the networking plugin: a
-- connection point for each of the descriptor, and a pair of interfaces for each interface.
use fog.Prelude.{ℕ, String, Option, none, some, List, [], ◌∷◌, str_eq, find, put}
use fog.Sdk.Fresult.{FError}
use fog.Sdk.Outcome.{Result, Call, Task, pure, raise, unwrap, ok_or, rpc_call, ◌>>=◌, ◌>>◌}
use fog.Sdk.Types.{Uuid, VirtualInterfaceKind, VirtualInterfaceConfig, VirtualInterfaceConfigKind}
use fog.Sdk.Im.Fdu.{
  ConnectionPointDescriptor, Interface, FduRecordInterface, FduRecordConnectionPoint, e1000,
}
use fog.Connector.Local.Defs.{Local}
use fog.Dummy.Env.{Env, World}

-- `struct DummyHypervisor`; the session, the connector and the map are parameters and state of the
-- methods.
pub record DummyHypervisor : Type 0 where
  pub local : Local
  pub pid : ℕ
  pub agent : Option Uuid
  pub os : Option Uuid
  pub net : Option Uuid

-- `HashMap<String, FDURecordConnectionPoint>`
abbrev pub Cps : Type 0
Cps = List (String × FduRecordConnectionPoint)

-- `into_iter().map(|(_, v)| v).collect()`
abbrev pub values : Cps → List FduRecordConnectionPoint
values [] = []
values ((id, cp) ∷ rest) = cp ∷ values rest

-- the pair of an interface of the kind `VETH`
abbrev pub veth_pair : {W : Type 0} → VirtualInterfaceKind → Task W Uuid
veth_pair (VirtualInterfaceKind.veth info) = pure info.pair
veth_pair _ = raise FError.malformed_descriptor

module _ (env : Env) (self : DummyHypervisor) where
  -- `self.agent.as_ref().unwrap().call().await??`
  abbrev pub agent_call :
      {A : Type 0} → (Uuid → Call (World env) (Result FError A)) → Task (World env) A
  agent_call call = do server ← unwrap self.agent; rpc_call (call server)

  -- `self.net.as_ref().unwrap().call().await??`
  abbrev pub net_call :
      {A : Type 0} → (Uuid → Call (World env) (Result FError A)) → Task (World env) A
  net_call call = do server ← unwrap self.net; rpc_call (call server)

  -- The loop over the connection points of the descriptor.
  unfoldable pub create_cps : List ConnectionPointDescriptor → Cps → Task (World env) Cps
  create_cps [] cps = pure cps
  create_cps (cp ∷ rest) cps = do
    vcp ← net_call env.net.create_connection_point
    create_cps rest (put str_eq cp.id (record { uuid = vcp.uuid; id = cp.id }) cps)

  -- `match intf.cp_id`: the other end of the pair goes to its connection point, or to the default
  -- namespace.
  unfoldable pub connect : Uuid → Cps → Option String → Task (World env) (Option Uuid)
  connect pair cps (some cp_id) = do
    cp ← ok_or (find str_eq cp_id cps) FError.not_found
    net_call λ server. env.net.bind_interface_to_connection_point server pair cp.uuid
    pure (some cp.uuid)
  connect pair cps none = do
    net_call λ server. env.net.move_interface_into_default_namespace server pair
    pure none

  abbrev veth_config : Interface → VirtualInterfaceConfig
  veth_config intf = record { if_name = intf.name; kind = VirtualInterfaceConfigKind.veth }

  -- The loop over the interfaces of the descriptor.
  unfoldable pub create_faces :
      Uuid → Cps → List Interface → Task (World env) (List FduRecordInterface)
  unfolding connect
  create_faces ns cps [] = pure []
  create_faces ns cps (intf ∷ rest) = do
    viface ←
        net_call
          λ server. env.net.create_virtual_interface_in_namespace server (veth_config intf) ns
    pair ← veth_pair viface.kind
    cp_uuid ← connect pair cps intf.cp_id
    interfaces ← create_faces ns cps rest
    pure (
        record {
          name = intf.name;
          kind = intf.kind;
          mac_address = intf.mac_address;
          cp_uuid = cp_uuid;
          intf_uuid = viface.uuid;
          virtual_interface = record { vif_kind = e1000; bandwidht = none };
        }
        ∷ interfaces)
