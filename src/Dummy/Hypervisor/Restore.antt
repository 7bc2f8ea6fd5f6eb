-- ===== src/Dummy/Hypervisor/Restore.antt =====
-- Starting an instance and stopping it again, on a reliable store.
use fog.Prelude.{◌≡◌, refl, sym, ap, ◌∙◌, subst, some, ◌==◌, put}
use fog.Sdk.Outcome.{ok, ret, ◌>>◌}
use fog.Sdk.Types.{Uuid}
use fog.Sdk.Im.Fdu.{FduRecord, configured, running}
use fog.Zenoh.{RoundTrips}
use fog.Zenoh.Reliable.{Reliable}
use fog.Connector.Local.Fdus.{get_instance, add_instance}
use fog.Connector.Local.Laws.{IsAlone, get_instance-add_instance}
use fog.Dummy.Env.{Env, World}
use fog.Dummy.Hypervisor.Configure.{DummyHypervisor}
use fog.Dummy.Hypervisor.{Fdus, known_instance, start_fdu, stop_fdu}

module _ (env : Env) (self : DummyHypervisor) (r : Reliable env.zenoh) where
  -- The agent tells the node's identifier and does nothing else.
  abbrev pub TellsNode : Type 0
  TellsNode =
      (server n : Uuid) × (self.agent ≡ some server)
      × ((w : World env) → env.agent.get_node_uuid server w ≡ (ok (ok n), w))

  known_instance_lem :
      (u : Uuid) (m : Fdus) (w : World env) {found : FduRecord}
      → TellsNode
      → get_instance env.zenoh env.codecs self.local u w ≡ (ret found, w)
      → known_instance env self u (m, w) ≡ (ret found, (m, w))
  known_instance_lem u m w (server, n, client, tells) got = rw (client, tells, got)

  pub start_fdu_lem :
      (u : Uuid) (m : Fdus) (w : World env) {w' : World env} {found : FduRecord}
      → TellsNode
      → get_instance env.zenoh env.codecs self.local u w ≡ (ret found, w)
      → found.status ≡ configured
      → add_instance env.zenoh env.codecs self.local (record found { status = running }) w
        ≡ (ret tt, w')
      → start_fdu env self u (m, w)
        ≡ (ret u, (put ◌==◌ u (record found { status = running }) m, w'))
  unfolding start_fdu
  start_fdu_lem u m w tells got is added = rw (known_instance_lem u m w tells got, is, added)

  stop_fdu_lem :
      (u : Uuid) (m : Fdus) (w : World env) {w' : World env} {found : FduRecord}
      → TellsNode
      → get_instance env.zenoh env.codecs self.local u w ≡ (ret found, w)
      → found.status ≡ running
      → add_instance env.zenoh env.codecs self.local (record found { status = configured }) w
        ≡ (ret tt, w')
      → stop_fdu env self u (m, w)
        ≡ (ret u, (put ◌==◌ u (record found { status = configured }) m, w'))
  unfolding stop_fdu
  stop_fdu_lem u m w tells got is added = rw (known_instance_lem u m w tells got, is, added)

  -- On a reliable store, where the agent tells the node's identifier, both records survive their
  -- encoding, and no other FDU has a record with the identifier of the instance: starting an
  -- instance that is configured and stopping it again both return, and then its record is the one
  -- that it was.
  pub stop_fdu-start_fdu :
      (known : FduRecord) (m : Fdus) (w : World env)
      → TellsNode
      → RoundTrips env.codecs.instance_record known
      → RoundTrips env.codecs.instance_record (record known { status = running })
      → IsAlone r env.codecs self.local known w
      → known.status ≡ configured
      → get_instance env.zenoh env.codecs self.local known.uuid w ≡ (ret known, w)
      → (s' : Fdus × World env) × ((start_fdu env self known.uuid >> stop_fdu env self known.uuid)
            (m, w)
          ≡ (ret known.uuid, s'))
        × (get_instance env.zenoh env.codecs self.local known.uuid s'.1 ≡ (ret known, s'.1))
  stop_fdu-start_fdu known m w tells round round' alone is got =
      let up = record known { status = running } in
      let down = record known { status = configured } in
      let same : known ≡ down = λ i. record known { status = is i } in
      let (w₁, started, got₁, alone₁) =
        get_instance-add_instance r env.codecs self.local up w round' alone in
      let (w₂, stopped, got₂, _) =
        get_instance-add_instance r env.codecs self.local down w₁
          (subst (RoundTrips env.codecs.instance_record) same round) alone₁ in
      let first = start_fdu_lem known.uuid m w tells got is started in
      let m₁ = put ◌==◌ known.uuid up m in
      let second = stop_fdu_lem known.uuid m₁ w₁ tells got₁ refl stopped in
      (
        (put ◌==◌ known.uuid down m₁, w₂),
        rw (first, second),
        got₂ ∙ ap (λ x. (ret x, w₂)) (sym same),
      )
