-- ===== src/Ctl/Args.antt =====
-- The arguments of the command line tool, fog05-fosctl/src/main.rs. A path of a file is its text.
use fog.Prelude.{String, Option}
use fog.Sdk.Types.{Uuid}

pub data AddKind : Type 0 where
  entity : (descriptor_path : String) → AddKind
  fim : (fim_id : Uuid) (locator : String) → AddKind
  cloud : (cloud_id : Uuid) (cloud_conf_path cloud_ca cloud_cert cloud_key : String) → AddKind
  entity_instance : (entity_id : Uuid) (fim_id cloud_id : Option Uuid) → AddKind

pub data GetKind : Type 0 where
  entity fim cloud entity_instance : Option Uuid → GetKind

pub data DeleteKind : Type 0 where
  entity fim cloud entity_instance : Uuid → DeleteKind

pub data AddFimKind : Type 0 where
  fdu entity network : (descriptor_path : String) → AddFimKind
  fdu_instance : Uuid → AddFimKind

pub data DeleteFimKind : Type 0 where
  fdu entity network fdu_instance : Uuid → DeleteFimKind

pub data GetFimKind : Type 0 where
  fdu entity network fdu_instance node : Option Uuid → GetFimKind

pub data FimCtl : Type 0 where
  add : AddFimKind → FimCtl
  get : GetFimKind → FimCtl
  delete : DeleteFimKind → FimCtl

pub data FosCtl : Type 0 where
  add : AddKind → FosCtl
  get : GetKind → FosCtl
  delete : DeleteKind → FosCtl
  fim : FimCtl → FosCtl
