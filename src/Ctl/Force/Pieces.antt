-- ===== src/Ctl/Force/Pieces.antt =====
-- The one command of fog05-fosctl/src/force.rs that prints piece by piece.
use mathlib.Core.List.{Memᴰ}
use fog.Prelude.{◌<>◌, ◌≡◌, refl, sym, ap, ◌∙◌, String, Option, none, some, List, [], ◌∷◌}
use fog.Sdk.Outcome.{ret, panic, Task, pure, unwrap, ◌>>=◌}
use fog.Sdk.Outcome.Locked.{outside}
use fog.Sdk.Outcome.Laws.{>>=-ret, >>=-panic}
use fog.Sdk.Types.{Uuid}
use fog.Sdk.Im.Fdu.{FduDescriptor}
use fog.Ctl.Types.{GetEntityResponse}
use fog.Ctl.Terminal.{Machine, Screen, line, table}
use fog.Ctl.Force.Jobs.{fetch}
use fog.Ctl.Force.Tables.{get_entity, fdu_rows, fdu_cells}

module _ {W : Type 0} (machine : Machine W) (host : String) where
  after_none :
      {A B : Type 0} (o : Option A) (f : A → Task W B) (w : W)
      → o ≡ none
      → (unwrap o >>= f) w ≡ (panic, w)
  after_none o f w h = ap (λ x. (unwrap x >>= f) w) h

  after_unwrap :
      {A B : Type 0} (o : Option A) (f : A → Task W B) (w : W)
      → ((a : A) → f a w ≡ (panic, w))
      → (unwrap o >>= f) w ≡ (panic, w)
  after_unwrap none f w h = refl
  after_unwrap (some a) f w h = h a

  -- The rows of FDUs of which one has no UUID.
  fdu_rows_panic :
      (fdus : List FduDescriptor) (w : W) (fdu : FduDescriptor)
      → Memᴰ fdu fdus
      → fdu.uuid ≡ none
      → fdu_rows machine host fdus w ≡ (panic, w)
  fdu_rows_panic [] w fdu m h = elim m [ ]
  fdu_rows_panic (first ∷ fdus) w fdu (Memᴰ.head e) h =
      after_none first.uuid _ w (sym (ap (λ d. d.uuid) e) ∙ h)
  fdu_rows_panic (first ∷ fdus) w fdu (Memᴰ.tail m) h = after_unwrap first.uuid _ w λ u.
      >>=-panic (fdu_rows machine host fdus) (λ rows. pure (fdu_cells machine host first u ∷ rows))
        w (fdu_rows_panic fdus w fdu m h)

  -- the table of an entity, and the title of the table of its FDUs
  abbrev pub begun : Uuid → GetEntityResponse → Screen → Screen
  begun u resp screen =
      line "FDUs:"
      ∷ table (
          ("UUID" ∷ "ID" ∷ "Name" ∷ "Version" ∷ [])
          ∷ (machine.show_uuid u
              ∷ resp.entity.id
              ∷ resp.entity.name
              ∷ resp.entity.entity_version
              ∷ [])
          ∷ [])
      ∷ screen

  -- Where the server answers with an entity that has a UUID, but one of whose FDUs has none,
  -- `get_entity` panics, but only after it has printed the table of the entity and the title of
  -- the table of its FDUs.
  pub get_entity_partly :
      (entity_id u : Uuid) (screen : Screen) (w w' : W) (resp : GetEntityResponse)
      (fdu : FduDescriptor)
      → fetch machine host machine.json.get_entity ("entity/" <> machine.show_uuid entity_id) w
        ≡ (ret resp, w')
      → resp.entity.uuid ≡ some u
      → Memᴰ fdu resp.entity.fdus
      → fdu.uuid ≡ none
      → get_entity machine host entity_id (screen, w) ≡ (panic, (begun u resp screen, w'))
  unfolding get_entity
  get_entity_partly entity_id u screen w w' resp fdu fetched known member without =
      >>=-ret
        (outside
          (fetch machine host machine.json.get_entity ("entity/" <> machine.show_uuid entity_id)))
        _ (screen, w) (λ i. ((fetched i).0, (screen, (fetched i).1)))
      ∙ (>>=-ret (unwrap resp.entity.uuid) _ (screen, w') (ap (λ o. unwrap o (screen, w')) known)
          ∙ >>=-panic (outside (fdu_rows machine host resp.entity.fdus)) _ (begun u resp screen, w')
              (λ i.
                let x = fdu_rows_panic resp.entity.fdus w' fdu member without i in
                (x.0, (begun u resp screen, x.1))))
