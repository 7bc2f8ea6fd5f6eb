-- ===== src/Connector/Global/Frames.antt =====
-- What the global part of a reliable store keeps when the record of an instance, or what a node
-- tells about itself, is written or removed.
use fog.Prelude.{ℕ, ◌≡◌, ◌≢◌, false, arith}
use fog.Sdk.Fresult.{FError}
use fog.Sdk.Outcome.{Outcome, ret, fail}
use fog.Sdk.Types.{Uuid}
use fog.Sdk.Im.Fdu.{FduRecord}
use fog.Sdk.Im.Node.{NodeStatus}
use fog.Zenoh.{Zenoh, RoundTrips, IsPath, Key, id, key_matches}
use fog.Zenoh.Reliable.{Reliable}
use fog.Connector.Codecs.{Codecs}
use fog.Connector.Keys.{global_prefix, node_info_path, node_status_path}
use fog.Connector.Keys.Laws.{fdu_instance_path-IsPath, fdu_instance_selector-ne}
use fog.Connector.LocalKeys as local
use fog.Connector.Query.Laws.{put_value_lem, get_one-delete_key}
use fog.Connector.Query.Frames.{
  get_one-put_value_eq, get_one-put_value_stays, get_one-delete_key_stays,
}
use fog.Connector.Global.Defs.{Global}
use fog.Connector.Global.Fdus.{get_instance, add_instance}
use fog.Connector.Global.Nodes.{
  get_node_status, add_node_status, remove_node_status, get_node_info, remove_node_info,
}
use fog.Connector.Local.Defs.{Local}
use fog.Connector.Local.Nodes as node

module _ (s t : ℕ) where
  abbrev info_key : Uuid → Key
  info_key u = node_info_path global_prefix (id s) (id t) (id u)

  abbrev status_key : Uuid → Key
  status_key u = node_status_path global_prefix (id s) (id t) (id u)

  info_key-IsPath : (u : Uuid) → IsPath (info_key u)
  unfolding node_info_path
  info_key-IsPath u = tt

  status_key-IsPath : (u : Uuid) → IsPath (status_key u)
  unfolding node_status_path
  status_key-IsPath u = tt

  status-info : (u v : Uuid) → key_matches (status_key u) (info_key v) ≡ false
  unfolding node_status_path node_info_path
  status-info u v = ground arith

  status-local :
      (u n : Uuid)
      → key_matches (status_key u) (local.node_status_path local.local_prefix (id n)) ≡ false
  unfolding node_status_path local.node_status_path
  status-local u n = ground arith

local_status-IsPath : (n : Uuid) → IsPath (local.node_status_path local.local_prefix (id n))
unfolding local.node_status_path
local_status-IsPath n = tt

module _ {z : Zenoh} (r : Reliable z) (c : Codecs) (self : Global) where
  -- What an identifier reads stays when the record of another instance is added.
  pub get_instance_stays :
      (j : FduRecord) (u : Uuid) (w : z.World) {o : Outcome FduRecord}
      → RoundTrips c.instance_record j
      → u ≢ j.uuid
      → get_instance z c self u w ≡ (o, w)
      → (w' : z.World) × (add_instance z c self j w ≡ (ret tt, w'))
        × (get_instance z c self u w' ≡ (o, w'))
  unfolding get_instance add_instance
  get_instance_stays j u w lossless ne got =
      let path = fdu_instance_path-IsPath self.system_id self.tenant_id j.fdu_uuid j.uuid in
      let (b, back, w', added, p) = put_value_lem r lossless _ w path in
      (
        w',
        added,
        get_one-put_value_stays r lossless c.instance_record _ _ w path
            (fdu_instance_selector-ne self.system_id self.tenant_id j.fdu_uuid u j.uuid ne) added
            got,
      )

  -- A status that is added, here and in the part of its node, is got in both.
  pub get_node_status-add_node_status :
      (s : NodeStatus) (l : Local) (w : z.World)
      → RoundTrips c.node_status s
      → (w₁ w₂ : z.World) × (add_node_status z c self s w ≡ (ret tt, w₁))
        × (node.add_node_status z c l s w₁ ≡ (ret tt, w₂))
        × (get_node_status z c self s.uuid w₂ ≡ (ret s, w₂))
        × (node.get_node_status z c l w₂ ≡ (ret s, w₂))
  unfolding get_node_status add_node_status node.get_node_status node.add_node_status
  get_node_status-add_node_status s l w lossless =
      let (w₁, added₁, got₁) =
        get_one-put_value_eq r lossless _ w
          (status_key-IsPath self.system_id self.tenant_id s.uuid) in
      let (w₂, added₂, got₂) =
        get_one-put_value_eq r lossless _ w₁ (local_status-IsPath l.node_uuid) in
      (
        w₁,
        w₂,
        added₁,
        added₂,
        get_one-put_value_stays r lossless c.node_status _ _ w₁ (local_status-IsPath l.node_uuid)
            (status-local self.system_id self.tenant_id s.uuid l.node_uuid) added₂ got₁,
        got₂,
      )

  -- The status and the description of a node are gone after they are removed.
  pub remove_node_info-remove_node_status :
      (u : Uuid) (w : z.World)
      → (w₁ w₂ : z.World) × (remove_node_status z c self u w ≡ (ret tt, w₁))
        × (remove_node_info z c self u w₁ ≡ (ret tt, w₂))
        × (get_node_status z c self u w₂ ≡ (fail FError.not_found, w₂))
        × (get_node_info z c self u w₂ ≡ (fail FError.not_found, w₂))
  unfolding get_node_status get_node_info remove_node_status remove_node_info
  remove_node_info-remove_node_status u w =
      let info_path = info_key-IsPath self.system_id self.tenant_id u in
      let (w₁, removed₁, gone₁) =
        get_one-delete_key r c.node_status _ w
          (status_key-IsPath self.system_id self.tenant_id u) in
      let (w₂, removed₂, gone₂) = get_one-delete_key r c.node_info _ w₁ info_path in
      (
        w₁,
        w₂,
        removed₁,
        removed₂,
        get_one-delete_key_stays r c.node_status _ _ w₁ info_path
            (status-info self.system_id self.tenant_id u u) removed₂ gone₁,
        gone₂,
      )
