-- ===== src/Connector/Keys/Laws.antt =====
-- Selectors and paths of the connector: which match.
use fog.Prelude.{ℕ, ◌≡◌, ◌≢◌, true, false, arith}
use fog.Zenoh.{id, key_matches, IsPath}
use fog.Connector.Keys.{
  entity_descriptor_path, global_prefix, fdu_descriptor_path, fdu_instance_path,
  fdu_instance_selector,
}

module _ (sys ten : ℕ) where
  pub fdu_descriptor_path-IsPath :
      (u : ℕ) → IsPath (fdu_descriptor_path global_prefix (id sys) (id ten) (id u))
  unfolding fdu_descriptor_path
  fdu_descriptor_path-IsPath u = tt

  pub entity_descriptor_path-IsPath :
      (u : ℕ) → IsPath (entity_descriptor_path global_prefix (id sys) (id ten) (id u))
  unfolding entity_descriptor_path
  entity_descriptor_path-IsPath u = tt

  pub fdu_instance_path-IsPath :
      (f u : ℕ) → IsPath (fdu_instance_path global_prefix (id sys) (id ten) (id f) (id u))
  unfolding fdu_instance_path
  fdu_instance_path-IsPath f u = tt

  pub fdu_instance_selector-matches :
      (f u : ℕ)
      → key_matches
          (fdu_instance_selector global_prefix (id sys) (id ten) (id u))
          (fdu_instance_path global_prefix (id sys) (id ten) (id f) (id u))
        ≡ true
  unfolding fdu_instance_path fdu_instance_selector
  fdu_instance_selector-matches f u = ground arith

  pub fdu_instance_selector-ne :
      (f u v : ℕ)
      → u ≢ v
      → key_matches
          (fdu_instance_selector global_prefix (id sys) (id ten) (id u))
          (fdu_instance_path global_prefix (id sys) (id ten) (id f) (id v))
        ≡ false
  unfolding fdu_instance_path fdu_instance_selector
  fdu_instance_selector-ne f u v h = ground arith

  pub fdu_descriptor-instance :
      (d f u : ℕ)
      → key_matches
          (fdu_descriptor_path global_prefix (id sys) (id ten) (id d))
          (fdu_instance_path global_prefix (id sys) (id ten) (id f) (id u))
        ≡ false
  unfolding fdu_descriptor_path fdu_instance_path
  fdu_descriptor-instance d f u = ground arith
