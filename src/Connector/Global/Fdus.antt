-- ===== src/Connector/Global/Fdus.antt =====
-- `Global` of zconnector/mod.rs: the catalog of FDU descriptors, and the records of FDU instances.
use fog.Prelude.{List}
use fog.Sdk.Outcome.{Task, ok_or, ◌>>=◌}
use fog.Sdk.Types.{Uuid}
use fog.Zenoh.{Zenoh, id}
use fog.Connector.Codecs.{Codecs}
use fog.Connector.Query.{get_one, get_all, put_value, delete_key}
use fog.Connector.Keys.{
  global_prefix, fdu_descriptor_path, fdu_descriptor_selector, fdu_instance_selector,
  fdu_instance_path, fdu_instances_selector, fdu_all_instances_selector,
}
use fog.Connector.Global.Defs.{Global}
use fog.Sdk.Fresult.{FError}
use fog.Sdk.Im.Fdu.{FduDescriptor, FduRecord}

module _ (z : Zenoh) (c : Codecs) (self : Global) where
  unfoldable pub get_fdu : Uuid → Task z.World FduDescriptor
  unfolding fdu_descriptor_path
  get_fdu fdu_uuid =
      get_one z c.fdu
        (fdu_descriptor_path global_prefix (id self.system_id) (id self.tenant_id) (id fdu_uuid))

  unfoldable pub get_all_fdu : Task z.World (List FduDescriptor)
  unfolding fdu_descriptor_selector
  get_all_fdu =
      get_all z c.fdu
        (fdu_descriptor_selector global_prefix (id self.system_id) (id self.tenant_id))

  unfoldable pub add_fdu : FduDescriptor → Task z.World Unit
  unfolding fdu_descriptor_path
  add_fdu fdu_info = do
    fdu_uuid ← ok_or fdu_info.uuid FError.malformed_descriptor
    put_value z c.fdu
        (fdu_descriptor_path global_prefix (id self.system_id) (id self.tenant_id) (id fdu_uuid))
        fdu_info

  unfoldable pub remove_fdu : Uuid → Task z.World Unit
  unfolding fdu_descriptor_path
  remove_fdu fdu_uuid =
      delete_key z
        (fdu_descriptor_path global_prefix (id self.system_id) (id self.tenant_id) (id fdu_uuid))

  unfoldable pub get_instance : Uuid → Task z.World FduRecord
  unfolding fdu_instance_selector
  get_instance instance_uuid = get_one z c.instance_record (
      fdu_instance_selector global_prefix (id self.system_id) (id self.tenant_id)
        (id instance_uuid))

  unfoldable pub get_all_instances : Task z.World (List FduRecord)
  unfolding fdu_all_instances_selector
  get_all_instances =
      get_all z c.instance_record
        (fdu_all_instances_selector global_prefix (id self.system_id) (id self.tenant_id))

  unfoldable pub get_all_fdu_instances : Uuid → Task z.World (List FduRecord)
  unfolding fdu_instances_selector
  get_all_fdu_instances fdu_uuid =
      get_all z c.instance_record
        (fdu_instances_selector global_prefix (id self.system_id) (id self.tenant_id) (id fdu_uuid))

  unfoldable pub add_instance : FduRecord → Task z.World Unit
  unfolding fdu_instance_path
  add_instance instance_info =
      put_value z c.instance_record
        (fdu_instance_path global_prefix (id self.system_id) (id self.tenant_id)
          (id instance_info.fdu_uuid) (id instance_info.uuid))
        instance_info

  unfoldable pub remove_instance : Uuid → Task z.World Unit
  unfolding get_instance fdu_instance_path
  remove_instance instance_uuid = do
    instance_info ← get_instance instance_uuid
    delete_key z (
        fdu_instance_path global_prefix (id self.system_id) (id self.tenant_id)
          (id instance_info.fdu_uuid) (id instance_info.uuid))
