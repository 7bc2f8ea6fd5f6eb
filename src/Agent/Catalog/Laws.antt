-- ===== src/Agent/Catalog/Laws.antt =====
-- Onboarding and offloading in fog05-agent/src/agent.rs, on a reliable store.
use fog.Prelude.{
  ◌≡◌, refl, sym, ap, subst, ◌∙◌, none, some, List, [], ◌∷◌, ◌⊎◌, Option-cases, inl, inr,
}
use fog.Sdk.Fresult.{FError}
use fog.Sdk.Outcome.{Outcome, ret, fail, pure, ◌>>◌}
use fog.Sdk.Outcome.Laws.{>>=-eq_ret, ret-inj}
use fog.Sdk.Types.{Uuid}
use fog.Sdk.Im.Fdu.{FduDescriptor}
use fog.Zenoh.{RoundTrips, id, Entry}
use fog.Zenoh.Select.{select}
use fog.Zenoh.Reliable.{Reliable}
use fog.Connector.Query.Laws.{get_all-eq_nil, get_one-world}
use fog.Connector.Keys.{global_prefix, fdu_instances_selector, entity_instances_selector}
use fog.Connector.Global.Fdus.{get_fdu, remove_fdu, get_all_fdu_instances}
use fog.Connector.Global.Laws.{get_entity-remove_entity, get_fdu-add_fdu, get_fdu-remove_fdu}
use fog.Connector.Global.Entities.{get_entity, remove_entity, get_all_entity_instances}
use fog.Sdk.Im.Entity.{EntityDescriptor}
use fog.Agent.Env.{Env, World}
use fog.Agent.State.{Agent}
use fog.Agent.Catalog.{onboard_fdu, offload_entity, offload_fdu, unless_used}

module _ (env : Env) (self : Agent) (r : Reliable env.zenoh) where
  -- What the store has recorded of the instances of an FDU.
  abbrev pub instances_of : Uuid → World env → List Entry
  instances_of u w =
      select
        (fdu_instances_selector global_prefix (id self.global.system_id) (id self.global.tenant_id)
          (id u))
        (r.contents w)

  unused-eq_ret :
      {A : Type 0} (l : List A) (u : Uuid) (w : World env) {v : Uuid} {w' : World env}
      → unless_used env self l (do remove_fdu env.zenoh env.codecs self.global u; pure u) w
        ≡ (ret v, w')
      → (l ≡ [])
        × (v ≡ u)
        × (get_fdu env.zenoh env.codecs self.global u w' ≡ (fail FError.not_found, w'))
  unused-eq_ret [] u w {v} {w'} h =
      let (w₁, removed, gone) = get_fdu-remove_fdu r env.codecs self.global u w in
      let ended : ◌≡◌ {A = Outcome Uuid × World env} (ret u, w₁) (ret v, w') = rw removed at h in
      (
        refl,
        ret-inj (λ i. (ended i).0),
        subst (λ x. get_fdu env.zenoh env.codecs self.global u x ≡ (fail FError.not_found, x))
            (λ i. (ended i).1) gone,
      )
  unused-eq_ret (i ∷ is) u w h = cc (ap (λ (o : Outcome Uuid × World env). o.0) h)

  -- On a reliable store, an FDU that `offload_fdu` says it has taken out was known by that
  -- identifier and had no instance recorded, and its descriptor is not found afterwards.
  pub offload_fdu-gone :
      (u : Uuid) (w : World env) {v : Uuid} {w' : World env}
      → offload_fdu env self u w ≡ (ret v, w')
      → (v ≡ u)
        × ((d : FduDescriptor) × (get_fdu env.zenoh env.codecs self.global u w ≡ (ret d, w)))
        × (instances_of u w ≡ [])
        × (get_fdu env.zenoh env.codecs self.global u w' ≡ (fail FError.not_found, w'))
  unfolding offload_fdu get_all_fdu_instances get_fdu
  offload_fdu-gone u w h =
      let (d, w₁, known, h₁) = >>=-eq_ret (get_fdu env.zenoh env.codecs self.global u) _ w h in
      let (is, w₂, read, h₂) =
        >>=-eq_ret (get_all_fdu_instances env.zenoh env.codecs self.global u) _ w₁ h₁ in
      let (nothing, same, gone) = unused-eq_ret is u w₂ h₂ in
      let still : w₁ ≡ w = sym (λ i. (known i).1) ∙ get_one-world r env.codecs.fdu _ w in
      let none_read = get_all-eq_nil r env.codecs.instance_record _ w₁ (
        subst (λ l. get_all_fdu_instances env.zenoh env.codecs self.global u w₁ ≡ (ret l, w₂))
          nothing read) in
      (
        same,
        (d, subst (λ x. get_fdu env.zenoh env.codecs self.global u w ≡ (ret d, x)) still known),
        subst (λ x. instances_of u x ≡ []) still none_read,
        gone,
      )

  -- On a reliable store, and with a codec that reads back the descriptor as it is written,
  -- `onboard_fdu` returns an identifier, under
  -- which the descriptor is then got, with the identifier filled in; a descriptor that had an
  -- identifier keeps it.
  pub onboard_fdu-known :
      (fdu : FduDescriptor) (w : World env)
      → ((u : Uuid) → RoundTrips env.codecs.fdu (record fdu { uuid = some u }))
      → (u : Uuid) × (w' : World env) × (onboard_fdu env self fdu w ≡ (ret u, w'))
        × (get_fdu env.zenoh env.codecs self.global u w' ≡ (ret (record fdu { uuid = some u }), w'))
        × ((fdu.uuid ≡ some u) ⊎ ((fdu.uuid ≡ none) × (u ≡ (env.new_v4 w).0)))
  unfolding onboard_fdu
  onboard_fdu-known fdu w lossless = elim (Option-cases fdu.uuid) [
    | inl e ↦
        let (u, w₀) = env.new_v4 w in
        let (w', added, got) =
          get_fdu-add_fdu r env.codecs self.global (record fdu { uuid = some u }) u w₀ (lossless u)
            refl in
        (u, w', simp (e, added), got, inr (e, refl))
    | inr (u, e) ↦
        let same : fdu ≡ record fdu { uuid = some u } = λ i. record fdu { uuid = e i } in
        let (w', added, got) =
          get_fdu-add_fdu r env.codecs self.global fdu u w
            (subst (RoundTrips env.codecs.fdu) (sym same) (lossless u)) e in
        (
          u,
          w',
          simp (e, added),
          subst (λ x. get_fdu env.zenoh env.codecs self.global u w' ≡ (ret x, w')) same got,
          inl e,
        )
  ]

  -- What the store has recorded of the instances of an entity.
  abbrev pub entity_instances_of : Uuid → World env → List Entry
  entity_instances_of u w =
      select
        (entity_instances_selector global_prefix (id self.global.system_id)
          (id self.global.tenant_id) (id u))
        (r.contents w)

  entity_unused-eq_ret :
      {A : Type 0} (l : List A) (u : Uuid) (w : World env) {v : Uuid} {w' : World env}
      → unless_used env self l (do remove_entity env.zenoh env.codecs self.global u; pure u) w
        ≡ (ret v, w')
      → (l ≡ [])
        × (v ≡ u)
        × (get_entity env.zenoh env.codecs self.global u w' ≡ (fail FError.not_found, w'))
  entity_unused-eq_ret [] u w {v} {w'} h =
      let (w₁, removed, gone) = get_entity-remove_entity r env.codecs self.global u w in
      let ended : ◌≡◌ {A = Outcome Uuid × World env} (ret u, w₁) (ret v, w') = rw removed at h in
      (
        refl,
        ret-inj (λ i. (ended i).0),
        subst (λ x. get_entity env.zenoh env.codecs self.global u x ≡ (fail FError.not_found, x))
            (λ i. (ended i).1) gone,
      )
  entity_unused-eq_ret (i ∷ is) u w h = cc (ap (λ (o : Outcome Uuid × World env). o.0) h)

  -- On a reliable store, an entity that `offload_entity` says it has taken out was known by that
  -- identifier and had no instance recorded, and its descriptor is not found afterwards.
  pub offload_entity-gone :
      (u : Uuid) (w : World env) {v : Uuid} {w' : World env}
      → offload_entity env self u w ≡ (ret v, w')
      → (v ≡ u)
        × ((d : EntityDescriptor) × (get_entity env.zenoh env.codecs self.global u w ≡ (ret d, w)))
        × (entity_instances_of u w ≡ [])
        × (get_entity env.zenoh env.codecs self.global u w' ≡ (fail FError.not_found, w'))
  unfolding offload_entity get_all_entity_instances get_entity
  offload_entity-gone u w h =
      let (d, w₁, known, h₁) = >>=-eq_ret (get_entity env.zenoh env.codecs self.global u) _ w h in
      let (is, w₂, read, h₂) =
        >>=-eq_ret (get_all_entity_instances env.zenoh env.codecs self.global u) _ w₁ h₁ in
      let (nothing, same, gone) = entity_unused-eq_ret is u w₂ h₂ in
      let still : w₁ ≡ w = sym (λ i. (known i).1) ∙ get_one-world r env.codecs.entity _ w in
      let none_read = get_all-eq_nil r env.codecs.entity_record _ w₁ (
        subst (λ l. get_all_entity_instances env.zenoh env.codecs self.global u w₁ ≡ (ret l, w₂))
          nothing read) in
      (
        same,
        (d, subst (λ x. get_entity env.zenoh env.codecs self.global u w ≡ (ret d, x)) still known),
        subst (λ x. entity_instances_of u x ≡ []) still none_read,
        gone,
      )
