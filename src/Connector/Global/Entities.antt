-- ===== src/Connector/Global/Entities.antt =====
-- `Global` of zconnector/mod.rs: the catalog of entity descriptors, and the records of entity instances.
use fog.Prelude.{List}
use fog.Sdk.Outcome.{Task, ok_or, ◌>>=◌}
use fog.Sdk.Types.{Uuid}
use fog.Zenoh.{Zenoh, id}
use fog.Connector.Codecs.{Codecs}
use fog.Connector.Query.{get_one, get_all, put_value, delete_key}
use fog.Connector.Keys.{
  global_prefix, entity_descriptor_path, entity_descriptor_selector, entity_instance_selector,
  entity_instance_path, entity_instances_selector, entity_all_instances_selector,
}
use fog.Connector.Global.Defs.{Global}
use fog.Sdk.Fresult.{FError}
use fog.Sdk.Im.Entity.{EntityDescriptor, EntityRecord}

module _ (z : Zenoh) (c : Codecs) (self : Global) where
  unfoldable pub get_entity : Uuid → Task z.World EntityDescriptor
  unfolding entity_descriptor_path
  get_entity entity_uuid = get_one z c.entity (
      entity_descriptor_path global_prefix (id self.system_id) (id self.tenant_id) (id entity_uuid))

  unfoldable pub get_all_entity : Task z.World (List EntityDescriptor)
  unfolding entity_descriptor_selector
  get_all_entity =
      get_all z c.entity
        (entity_descriptor_selector global_prefix (id self.system_id) (id self.tenant_id))

  unfoldable pub add_entity : EntityDescriptor → Task z.World Unit
  unfolding entity_descriptor_path
  add_entity entity_info = do
    entity_uuid ← ok_or entity_info.uuid FError.malformed_descriptor
    put_value z c.entity
        (entity_descriptor_path global_prefix (id self.system_id) (id self.tenant_id)
          (id entity_uuid))
        entity_info

  unfoldable pub remove_entity : Uuid → Task z.World Unit
  unfolding entity_descriptor_path
  remove_entity entity_uuid = delete_key z (
      entity_descriptor_path global_prefix (id self.system_id) (id self.tenant_id) (id entity_uuid))

  unfoldable pub get_entity_instance : Uuid → Task z.World EntityRecord
  unfolding entity_instance_selector
  get_entity_instance instance_uuid = get_one z c.entity_record (
      entity_instance_selector global_prefix (id self.system_id) (id self.tenant_id)
        (id instance_uuid))

  unfoldable pub get_all_entities_instances : Task z.World (List EntityRecord)
  unfolding entity_all_instances_selector
  get_all_entities_instances =
      get_all z c.entity_record
        (entity_all_instances_selector global_prefix (id self.system_id) (id self.tenant_id))

  unfoldable pub get_all_entity_instances : Uuid → Task z.World (List EntityRecord)
  unfolding entity_instances_selector
  get_all_entity_instances entity_uuid = get_all z c.entity_record (
      entity_instances_selector global_prefix (id self.system_id) (id self.tenant_id)
        (id entity_uuid))

  unfoldable pub add_entity_instance : EntityRecord → Task z.World Unit
  unfolding entity_instance_path
  add_entity_instance instance_info =
      put_value z c.entity_record
        (entity_instance_path global_prefix (id self.system_id) (id self.tenant_id)
          (id instance_info.id) (id instance_info.uuid))
        instance_info

  unfoldable pub remove_entity_instance : Uuid → Task z.World Unit
  unfolding get_entity_instance entity_instance_path
  remove_entity_instance instance_uuid = do
    instance_info ← get_entity_instance instance_uuid
    delete_key z (
        entity_instance_path global_prefix (id self.system_id) (id self.tenant_id)
          (id instance_info.id) (id instance_info.uuid))
