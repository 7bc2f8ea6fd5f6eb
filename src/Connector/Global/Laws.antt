-- ===== src/Connector/Global/Laws.antt =====
-- What the methods on FDU descriptors and FDU instances do together on a reliable store.
use fog.Prelude.{◌≡◌, ◌≢◌, ◌∙◌, some, List, [], ◌∷◌}
use fog.Sdk.Fresult.{FError}
use fog.Sdk.Outcome.{ret, fail, ◌>>◌}
use fog.Sdk.Types.{Uuid}
use fog.Sdk.Im.Fdu.{FduDescriptor, FduRecord}
use fog.Zenoh.{Zenoh, Key, Entry, RoundTrips, id}
use fog.Zenoh.Select.{select, without, key_matches_refl, select-without_self}
use fog.Zenoh.Reliable.{Reliable}
use fog.Connector.Codecs.{Codecs}
use fog.Connector.Query.{single}
use fog.Connector.Query.Laws.{
  get_one_lem, get_one-put_value, get_one-put_value_ne, get_one-delete_key, put_get_delete,
}
use fog.Connector.Keys.{
  global_prefix, fdu_descriptor_path, fdu_instance_path, fdu_instance_selector,
}
use fog.Connector.Keys.Laws.{
  entity_descriptor_path-IsPath, fdu_descriptor_path-IsPath, fdu_instance_path-IsPath,
  fdu_instance_selector-matches, fdu_descriptor-instance, fdu_instance_selector-ne,
}
use fog.Connector.Global.Defs.{Global}
use fog.Connector.Global.Entities.{get_entity, remove_entity}
use fog.Connector.Global.Fdus.{
  get_fdu, add_fdu, remove_fdu, get_instance, add_instance, remove_instance,
}

module _ {z : Zenoh} (r : Reliable z) (c : Codecs) (self : Global) where
  -- The selector of an instance, and its path.
  abbrev pub selector_of : Uuid → Key
  selector_of u = fdu_instance_selector global_prefix (id self.system_id) (id self.tenant_id) (id u)

  abbrev pub path_of : FduRecord → Key
  path_of i =
      fdu_instance_path global_prefix (id self.system_id) (id self.tenant_id) (id i.fdu_uuid)
        (id i.uuid)

  -- The entries that `get_instance` finds for an identifier.
  abbrev pub records_of : Uuid → z.World → List Entry
  records_of u w = select (selector_of u) (r.contents w)

  -- No other FDU has a record with the identifier of this instance.
  abbrev pub IsAlone : FduRecord → z.World → Type 0
  IsAlone i w = select (selector_of i.uuid) (without (path_of i) (r.contents w)) ≡ []

  -- A descriptor that is added under its identifier is the one that is got by it.
  pub get_fdu-add_fdu :
      (fdu : FduDescriptor) (u : Uuid) (w : z.World)
      → RoundTrips c.fdu fdu
      → fdu.uuid ≡ some u
      → (w' : z.World) × (add_fdu z c self fdu w ≡ (ret tt, w'))
        × (get_fdu z c self u w' ≡ (ret fdu, w'))
  unfolding add_fdu get_fdu
  get_fdu-add_fdu fdu u w lossless e =
      let k = fdu_descriptor_path global_prefix (id self.system_id) (id self.tenant_id) (id u) in
      simp e (
        get_one-put_value r lossless k k w
          (fdu_descriptor_path-IsPath self.system_id self.tenant_id u) (key_matches_refl k)
          (select-without_self k (r.contents w)))

  -- A removed descriptor is not found.
  pub get_fdu-remove_fdu :
      (u : Uuid) (w : z.World)
      → (w' : z.World) × (remove_fdu z c self u w ≡ (ret tt, w'))
        × (get_fdu z c self u w' ≡ (fail FError.not_found, w'))
  unfolding remove_fdu get_fdu
  get_fdu-remove_fdu u w =
      get_one-delete_key r c.fdu _ w (fdu_descriptor_path-IsPath self.system_id self.tenant_id u)

  -- An instance that is added is the one that is got by its identifier, if no other FDU has a
  -- record with that identifier; and taking it out makes it not found.
  pub get_instance-add_instance :
      (i : FduRecord) (w : z.World)
      → RoundTrips c.instance_record i
      → IsAlone i w
      → (w' : z.World) × (add_instance z c self i w ≡ (ret tt, w'))
        × (get_instance z c self i.uuid w' ≡ (ret i, w'))
  unfolding add_instance get_instance
  get_instance-add_instance i w lossless alone =
      get_one-put_value r lossless _ _ w
        (fdu_instance_path-IsPath self.system_id self.tenant_id i.fdu_uuid i.uuid)
        (fdu_instance_selector-matches self.system_id self.tenant_id i.fdu_uuid i.uuid) alone

  -- An instance that is added and then removed is not found.
  pub get_instance-remove_instance :
      (i : FduRecord) (w : z.World)
      → RoundTrips c.instance_record i
      → IsAlone i w
      → (w' : z.World) × ((add_instance z c self i >> remove_instance z c self i.uuid) w
          ≡ (ret tt, w'))
        × (get_instance z c self i.uuid w' ≡ (fail FError.not_found, w'))
  unfolding add_instance remove_instance get_instance
  get_instance-remove_instance i w lossless alone =
      let (w₁, w', added, got, removed, gone) =
        put_get_delete r (selector_of i.uuid) (path_of i) i w lossless
          (fdu_instance_path-IsPath self.system_id self.tenant_id i.fdu_uuid i.uuid)
          (fdu_instance_selector-matches self.system_id self.tenant_id i.fdu_uuid i.uuid) alone in
      (w', rw (added, got, removed), gone)

  -- Adding an instance changes neither what any descriptor reads, nor what any other instance
  -- reads.
  pub add_instance-frame :
      (i : FduRecord) (d u : Uuid) (w : z.World)
      → RoundTrips c.instance_record i
      → u ≢ i.uuid
      → let w' = (add_instance z c self i w).1 in
        ((get_fdu z c self d w').0 ≡ (get_fdu z c self d w).0)
        × ((get_instance z c self u w').0 ≡ (get_instance z c self u w).0)
  unfolding add_instance get_fdu get_instance
  add_instance-frame i d u w lossless ne = (
    get_one-put_value_ne r lossless c.fdu _ _ w
        (fdu_instance_path-IsPath self.system_id self.tenant_id i.fdu_uuid i.uuid)
        (fdu_descriptor-instance self.system_id self.tenant_id d i.fdu_uuid i.uuid),
    get_one-put_value_ne r lossless c.instance_record _ _ w
        (fdu_instance_path-IsPath self.system_id self.tenant_id i.fdu_uuid i.uuid)
        (fdu_instance_selector-ne self.system_id self.tenant_id i.fdu_uuid u i.uuid ne),
  )

  -- Where more than one record is stored for the identifier of an instance, getting the instance
  -- fails, and says that there is too much.
  pub get_instance-ambiguous :
      (u : Uuid) (w : z.World) {a b : Entry} {l : List Entry}
      → records_of u w ≡ a ∷ b ∷ l
      → get_instance z c self u w ≡ (fail FError.too_much_error, w)
  unfolding get_instance single
  get_instance-ambiguous u w e = get_one_lem r c.instance_record _ w ∙ rw e

  -- A removed descriptor of an entity is not found.
  pub get_entity-remove_entity :
      (u : Uuid) (w : z.World)
      → (w' : z.World) × (remove_entity z c self u w ≡ (ret tt, w'))
        × (get_entity z c self u w' ≡ (fail FError.not_found, w'))
  unfolding remove_entity get_entity
  get_entity-remove_entity u w =
      get_one-delete_key r c.entity _ w
        (entity_descriptor_path-IsPath self.system_id self.tenant_id u)
