-- ===== src/Connector/Local/Frames.antt =====
-- The interfaces, connection points and namespaces of a node on a reliable store: what is written
-- is read back, and the rest stays.
use fog.Prelude.{ℕ, ◌≡◌, ◌≢◌, false, arith}
use fog.Sdk.Fresult.{FError}
use fog.Sdk.Outcome.{Outcome, ret, fail}
use fog.Sdk.Types.{Uuid, VirtualInterface, ConnectionPoint, NetworkNamespace}
use fog.Zenoh.{Zenoh, RoundTrips, IsPath, Key, id, key_matches}
use fog.Zenoh.Reliable.{Reliable}
use fog.Connector.Codecs.{Codecs}
use fog.Connector.Query.Frames.{
  get_one-put_value_eq, get_one-put_value_stays, get_one-delete_key_stays,
}
use fog.Connector.Query.Laws.{get_one-delete_key}
use fog.Connector.LocalKeys.{local_prefix, node_viface_path, node_cp_path, node_netns_path}
use fog.Connector.Local.Defs.{Local}
use fog.Connector.Local.Networks.{
  get_interface, add_interface, get_connection_point, get_network_namespace, add_network_namespace,
  remove_interface,
}

module _ (n : ℕ) where
  abbrev face_key : Uuid → Key
  face_key u = node_viface_path local_prefix (id n) (id u)

  abbrev space_key : Uuid → Key
  space_key u = node_netns_path local_prefix (id n) (id u)

  abbrev point_key : Uuid → Key
  point_key u = node_cp_path local_prefix (id n) (id u)

  face_key-IsPath : (u : Uuid) → IsPath (face_key u)
  unfolding node_viface_path
  face_key-IsPath u = tt

  space_key-IsPath : (u : Uuid) → IsPath (space_key u)
  unfolding node_netns_path
  space_key-IsPath u = tt

  face_key_ne : (u v : Uuid) → u ≢ v → key_matches (face_key u) (face_key v) ≡ false
  unfolding node_viface_path
  face_key_ne u v ne = ground arith

  space-face : (u v : Uuid) → key_matches (space_key u) (face_key v) ≡ false
  unfolding node_viface_path node_netns_path
  space-face u v = ground arith

  face-space : (u v : Uuid) → key_matches (face_key u) (space_key v) ≡ false
  unfolding node_viface_path node_netns_path
  face-space u v = ground arith

  point-face : (u v : Uuid) → key_matches (point_key u) (face_key v) ≡ false
  unfolding node_viface_path node_cp_path
  point-face u v = ground arith

module _ {z : Zenoh} (r : Reliable z) (c : Codecs) (self : Local) where
  module _ {f : VirtualInterface} (w : z.World) (lossless : RoundTrips c.interface f) where
    pub get_interface-add_interface :
        (w' : z.World) × (add_interface z c self f w ≡ (ret tt, w'))
        × (get_interface z c self f.uuid w' ≡ (ret f, w'))
    unfolding get_interface add_interface node_viface_path
    get_interface-add_interface =
        get_one-put_value_eq r lossless _ w (face_key-IsPath self.node_uuid f.uuid)

    module _ {w' : z.World} (added : add_interface z c self f w ≡ (ret tt, w')) where
      pub get_interface_stays :
          (u : Uuid) {o : Outcome VirtualInterface}
          → u ≢ f.uuid
          → get_interface z c self u w ≡ (o, w)
          → get_interface z c self u w' ≡ (o, w')
      unfolding get_interface add_interface node_viface_path
      get_interface_stays u ne got =
          get_one-put_value_stays r lossless c.interface (face_key self.node_uuid u) _ w
            (face_key-IsPath self.node_uuid f.uuid) (face_key_ne self.node_uuid u f.uuid ne) added
            got

      pub get_network_namespace_stays :
          (u : Uuid) {o : Outcome NetworkNamespace}
          → get_network_namespace z c self u w ≡ (o, w)
          → get_network_namespace z c self u w' ≡ (o, w')
      unfolding get_network_namespace add_interface
      get_network_namespace_stays u got =
          get_one-put_value_stays r lossless c.namespace (space_key self.node_uuid u) _ w
            (face_key-IsPath self.node_uuid f.uuid) (space-face self.node_uuid u f.uuid) added got

      pub get_connection_point_stays :
          (u : Uuid) {o : Outcome ConnectionPoint}
          → get_connection_point z c self u w ≡ (o, w)
          → get_connection_point z c self u w' ≡ (o, w')
      unfolding get_connection_point add_interface
      get_connection_point_stays u got =
          get_one-put_value_stays r lossless c.connection_point (point_key self.node_uuid u) _ w
            (face_key-IsPath self.node_uuid f.uuid) (point-face self.node_uuid u f.uuid) added got

  module _ {s : NetworkNamespace} (w : z.World) (lossless : RoundTrips c.namespace s) where
    pub get_network_namespace-add_network_namespace :
        (w' : z.World) × (add_network_namespace z c self s w ≡ (ret tt, w'))
        × (get_network_namespace z c self s.uuid w' ≡ (ret s, w'))
    unfolding get_network_namespace add_network_namespace
    get_network_namespace-add_network_namespace =
        get_one-put_value_eq r lossless _ w (space_key-IsPath self.node_uuid s.uuid)

    pub get_interface_stays_beside :
        {w' : z.World} (u : Uuid) {o : Outcome VirtualInterface}
        → add_network_namespace z c self s w ≡ (ret tt, w')
        → get_interface z c self u w ≡ (o, w)
        → get_interface z c self u w' ≡ (o, w')
    unfolding get_interface add_network_namespace
    get_interface_stays_beside u added got =
        get_one-put_value_stays r lossless c.interface (face_key self.node_uuid u) _ w
          (space_key-IsPath self.node_uuid s.uuid) (face-space self.node_uuid u s.uuid) added got

  -- An interface that is removed is not found, and the rest stays.
  module _ (u : Uuid) (w : z.World) where
    pub get_interface-remove_interface :
        (w' : z.World) × (remove_interface z c self u w ≡ (ret tt, w'))
        × (get_interface z c self u w' ≡ (fail FError.not_found, w'))
    unfolding get_interface remove_interface
    get_interface-remove_interface =
        get_one-delete_key r c.interface _ w (face_key-IsPath self.node_uuid u)

    module _ {w' : z.World} (removed : remove_interface z c self u w ≡ (ret tt, w')) where
      pub get_interface_kept :
          (v : Uuid) {o : Outcome VirtualInterface}
          → v ≢ u
          → get_interface z c self v w ≡ (o, w)
          → get_interface z c self v w' ≡ (o, w')
      unfolding get_interface remove_interface
      get_interface_kept v ne got =
          get_one-delete_key_stays r c.interface (face_key self.node_uuid v) _ w
            (face_key-IsPath self.node_uuid u) (face_key_ne self.node_uuid v u ne) removed got

      pub get_network_namespace_kept :
          (v : Uuid) {o : Outcome NetworkNamespace}
          → get_network_namespace z c self v w ≡ (o, w)
          → get_network_namespace z c self v w' ≡ (o, w')
      unfolding get_network_namespace remove_interface
      get_network_namespace_kept v got =
          get_one-delete_key_stays r c.namespace (space_key self.node_uuid v) _ w
            (face_key-IsPath self.node_uuid u) (space-face self.node_uuid v u) removed got
