-- ===== src/Connector/Local/Laws.antt =====
-- What the methods on plugins do together on a reliable store.
use fog.Prelude.{◌≡◌, [], true, arith, subst}
use fog.Sdk.Fresult.{FError}
use fog.Sdk.Outcome.{ret, fail}
use fog.Sdk.Types.{Uuid, PluginInfo}
use fog.Zenoh.{Zenoh, RoundTrips, IsPath, id, key_matches}
use fog.Zenoh.Select.{select, without, key_matches_refl, select-without_self}
use fog.Zenoh.Reliable.{Reliable}
use fog.Connector.Codecs.{Codecs}
use fog.Connector.Query.Laws.{put_get_delete, get_one-put_value, alone-put_value}
use fog.Connector.LocalKeys.{
  local_prefix, node_plugin_path, node_instance_path, node_instance_selector,
}
use fog.Connector.Local.Defs.{Local}
use fog.Sdk.Im.Fdu.{FduRecord}
use fog.Connector.Local.Fdus.{get_instance, add_instance}
use fog.Connector.Local.Nodes.{add_plugin, get_plugin, remove_plugin}

node_plugin_path-IsPath : (n u : Uuid) → IsPath (node_plugin_path local_prefix (id n) (id u))
unfolding node_plugin_path
node_plugin_path-IsPath n u = tt

-- A plugin that is added is got by its identifier, until it is removed; then it is not found.
pub get_plugin-remove_plugin :
    {z : Zenoh} (r : Reliable z) (c : Codecs) (self : Local) (p : PluginInfo) (w : z.World)
    → RoundTrips c.plugin p
    → (w₁ w' : z.World) × (add_plugin z c self p w ≡ (ret tt, w₁))
      × (get_plugin z c self p.uuid w₁ ≡ (ret p, w₁))
      × (remove_plugin z c self p.uuid w₁ ≡ (ret tt, w'))
      × (get_plugin z c self p.uuid w' ≡ (fail FError.not_found, w'))
unfolding add_plugin get_plugin remove_plugin
get_plugin-remove_plugin r c self p w round =
    let k = node_plugin_path local_prefix (id self.node_uuid) (id p.uuid) in
    put_get_delete r k k p w round (node_plugin_path-IsPath self.node_uuid p.uuid)
      (key_matches_refl k) (select-without_self k (r.contents w))

node_instance_path-IsPath :
    (n f u : Uuid) → IsPath (node_instance_path local_prefix (id n) (id f) (id u))
unfolding node_instance_path
node_instance_path-IsPath n f u = tt

node_instance_selector-matches :
    (n f u : Uuid)
    → key_matches
        (node_instance_selector local_prefix (id n) (id u))
        (node_instance_path local_prefix (id n) (id f) (id u))
      ≡ true
unfolding node_instance_path node_instance_selector
node_instance_selector-matches n f u = ground arith

module _ {z : Zenoh} (r : Reliable z) (c : Codecs) (self : Local) where
  -- On this node, no other FDU has a record with the identifier of this instance.
  abbrev pub IsAlone : FduRecord → z.World → Type 0
  IsAlone i w =
      select (node_instance_selector local_prefix (id self.node_uuid) (id i.uuid)) (
        without (node_instance_path local_prefix (id self.node_uuid) (id i.fdu_uuid) (id i.uuid))
          (r.contents w))
      ≡ []

  -- An instance that is added to the node is the one that is got by its identifier, if no other FDU
  -- has a record with that identifier; and then that stays so.
  pub get_instance-add_instance :
      (i : FduRecord) (w : z.World)
      → RoundTrips c.instance_record i
      → IsAlone i w
      → (w' : z.World) × (add_instance z c self i w ≡ (ret tt, w'))
        × (get_instance z c self i.uuid w' ≡ (ret i, w'))
        × IsAlone i w'
  unfolding add_instance get_instance
  get_instance-add_instance i w round alone =
      let path = node_instance_path-IsPath self.node_uuid i.fdu_uuid i.uuid in
      let (w', added, got) =
        get_one-put_value r round _ _ w path
          (node_instance_selector-matches self.node_uuid i.fdu_uuid i.uuid) alone in
      (
        w',
        added,
        got,
        subst (IsAlone i) (λ j. (added j).1)
            (alone-put_value r round
              (node_instance_selector local_prefix (id self.node_uuid) (id i.uuid)) _ w path alone),
      )
