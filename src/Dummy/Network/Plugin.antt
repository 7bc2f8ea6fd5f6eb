-- ===== src/Dummy/Network/Plugin.antt =====
-- `impl NetworkingPlugin for DummyNetwork` of fog05-sdk/examples/dummy-network.rs, as a whole.
use fog.Sdk.Outcome.{Task}
use fog.Interfaces.Networking.{NetworkingPlugin}
use fog.Dummy.Env.{Env, World}
use fog.Dummy.Network.Defs.{DummyNetwork}
use fog.Dummy.Network.Networks.{
  create_default_virtual_network, create_virtual_network, get_virtual_network,
  delete_virtual_network, create_connection_point, get_connection_point, delete_connection_point,
  bind_connection_point_to_virtual_network, unbind_connection_point_from_virtual_network,
}
use fog.Dummy.Network.Interfaces.{
  create_virtual_interface, get_virtual_interface, delete_virtual_interface, create_virtual_bridge,
  get_virtual_bridge, delete_virtual_bridge, create_macvlan_interface, delete_macvan_interface,
  get_interface_addresses, get_overlay_iface, get_vlan_face,
}
use fog.Dummy.Network.Namespaces.{
  create_network_namespace, get_network_namespace, delete_network_namespace,
  create_virtual_interface_in_namespace, delete_virtual_interface_in_namespace,
  move_interface_info_namespace, move_interface_into_default_namespace,
}
use fog.Dummy.Network.Bindings.{
  set_default_route_in_network_namespace, bind_interface_to_connection_point,
  unbind_interface_from_connection_point, rename_virtual_interface, attach_interface_to_bridge,
  detach_interface_from_bridge, assing_address_to_interface, remove_address_from_interface,
  set_macaddres_of_interface,
}

module _ (env : Env) (self : DummyNetwork) where
  abbrev pub networking_plugin : NetworkingPlugin (Task (World env))
  networking_plugin = record {
    create_default_virtual_network = create_default_virtual_network env self;
    create_virtual_network = create_virtual_network env self;
    get_virtual_network = get_virtual_network env self;
    delete_virtual_network = delete_virtual_network env self;
    create_connection_point = create_connection_point env self;
    get_connection_point = get_connection_point env self;
    delete_connection_point = delete_connection_point env self;
    create_virtual_interface = create_virtual_interface env self;
    get_virtual_interface = get_virtual_interface env self;
    delete_virtual_interface = delete_virtual_interface env self;
    create_virtual_bridge = create_virtual_bridge env self;
    get_virtual_bridge = get_virtual_bridge env self;
    delete_virtual_bridge = delete_virtual_bridge env self;
    set_default_route_in_network_namespace = set_default_route_in_network_namespace;
    create_network_namespace = create_network_namespace env self;
    get_network_namespace = get_network_namespace env self;
    delete_network_namespace = delete_network_namespace env self;
    bind_interface_to_connection_point = bind_interface_to_connection_point env self;
    unbind_interface_from_connection_point = unbind_interface_from_connection_point env self;
    bind_connection_point_to_virtual_network = bind_connection_point_to_virtual_network env self;
    unbind_connection_point_from_virtual_network =
        unbind_connection_point_from_virtual_network env self;
    get_interface_addresses = get_interface_addresses env self;
    get_overlay_iface = get_overlay_iface;
    get_vlan_face = get_vlan_face;
    create_macvlan_interface = create_macvlan_interface env self;
    delete_macvan_interface = delete_macvan_interface env self;
    move_interface_info_namespace = move_interface_info_namespace env self;
    move_interface_into_default_namespace = move_interface_into_default_namespace env self;
    rename_virtual_interface = rename_virtual_interface env self;
    attach_interface_to_bridge = attach_interface_to_bridge env self;
    detach_interface_from_bridge = detach_interface_from_bridge env self;
    create_virtual_interface_in_namespace = create_virtual_interface_in_namespace env self;
    delete_virtual_interface_in_namespace = delete_virtual_interface_in_namespace env self;
    assing_address_to_interface = assing_address_to_interface env self;
    remove_address_from_interface = remove_address_from_interface env self;
    set_macaddres_of_interface = set_macaddres_of_interface env self;
  }
