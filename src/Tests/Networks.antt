-- ===== src/Tests/Networks.antt =====
-- Virtual networks of the networking plugin on the store in memory.
use fog.Prelude.{true, ◌≡◌, refl, ◌∷◌, [], List}
use fog.Sdk.Fresult.{FError}
use fog.Sdk.Outcome.{ok, ret, fail}
use fog.Zenoh.{id, raw, Entry}
use fog.Zenoh.Memory.{memory_reliable}
use fog.Connector.Keys.{global_prefix, vnet_path}
use fog.Connector.Query.{get_one, decode, single, query}
use fog.Connector.Global.Networks as global
use fog.Dummy.Env.{Env}
use fog.Dummy.Network.Networks.{
  default_vnet, create_virtual_network, get_virtual_network, delete_virtual_network,
}
use fog.Dummy.Network.Life.{Catalogued, delete_virtual_network-create_virtual_network}
use fog.Tests.Plugins.{dummy_env, network}

-- The default network, in the catalog and not yet on the node.
abbrev network_env : Env
network_env = record dummy_env {
  codecs = record dummy_env.codecs {
    network = record { serialize = λ n. ok []; deserialize = λ b. ok (default_vnet true) };
  };
}

abbrev catalog : List Entry
catalog = (vnet_path global_prefix (id 0) (id 0) (id 0), raw []) ∷ []

delete_virtual_network-create_virtual_network_example :
    (w₁ w₂ w₃ : List Entry) × (create_virtual_network network_env network 0 catalog
      ≡ (ret (default_vnet true), w₁))
    × (get_virtual_network network_env network 0 w₁ ≡ (ret (default_vnet true), w₁))
    × (create_virtual_network network_env network 0 w₁ ≡ (ret (default_vnet true), w₂))
    × (get_virtual_network network_env network 0 w₂ ≡ (ret (default_vnet true), w₂))
    × (delete_virtual_network network_env network 0 w₂ ≡ (ret (default_vnet true), w₃))
    × (get_virtual_network network_env network 0 w₃ ≡ (fail FError.not_found, w₃))
    × (delete_virtual_network network_env network 0 w₃ ≡ (fail FError.not_found, w₃))
    × Catalogued network_env network memory_reliable
        (100, 1, refl, λ w. refl)
        (default_vnet true)
        w₃
unfolding global.get_virtual_network vnet_path get_one decode single query
delete_virtual_network-create_virtual_network_example =
    delete_virtual_network-create_virtual_network network_env network memory_reliable
      (100, 1, refl, λ w. refl) (default_vnet true) catalog
      (record { buffer = []; written = refl; back = refl }) refl
