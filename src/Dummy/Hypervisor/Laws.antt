-- ===== src/Dummy/Hypervisor/Laws.antt =====
-- The operations of the dummy hypervisor, against the life cycle of an FDU.
use fog.Prelude.{◌≡◌, subst, refl, sym, ap, ◌∙◌, [], ◌==◌, put}
use fog.Sdk.Outcome.{ret, Task, pure, ◌>>=◌, unwrap}
use fog.Sdk.Outcome.Locked.{outside}
use fog.Sdk.Outcome.Laws.{>>=-eq_ret, outside-eq_ret, ret-inj, Returns, Returns-bind}
use fog.Sdk.Types.{Uuid}
use fog.Sdk.Im.Fdu.{FduRecord, FduState, defined, configured, running}
use fog.Connector.Local.Fdus.{get_instance, add_instance}
use fog.Dummy.Env.{Env, World}
use fog.Dummy.Hypervisor.Configure.{DummyHypervisor, agent_call, net_call, create_cps, create_faces}
use fog.Dummy.Hypervisor.{
  Fdus, known_instance, publish, configured_record, cleaned_record, node_uuid, delete_faces,
  delete_cps,
}
use fog.Dummy.Hypervisor.Moves.{
  Operation, configuring, cleaning, starting, stopping, Move, configure, clean, start, stop,
  perform, perform_lem, body, in_defined-eq_ret, in_configured-eq_ret, in_running-eq_ret,
}

-- The records of one instance: what an operation never changes.
pub record Keeps (found next : FduRecord) : Type 0 where
  pub uuid_kept : next.uuid ≡ found.uuid
  pub fdu_kept : next.fdu_uuid ≡ found.fdu_uuid
  pub node_kept : next.node ≡ found.node
  pub restarts_kept : next.restarts ≡ found.restarts

abbrev Becomes : FduRecord → FduState → FduRecord → Type 0
Becomes found st next = (next.status ≡ st) × Keeps found next

pure-Becomes :
    {W : Type 0} {found r : FduRecord} {st : FduState}
    → Becomes found st r
    → Returns (Becomes found st) (pure {W = W} r)
pure-Becomes {found} {r} {st} b = record {
  at = λ w h. subst (Becomes found st) (sym (ret-inj (λ i. (h i).0))) b;
}

module _ (env : Env) (self : DummyHypervisor) where
  configured_record-Becomes :
      (found : FduRecord) → Returns (Becomes found configured) (configured_record env self found)
  unfolding configured_record
  configured_record-Becomes found =
      Returns-bind _ (agent_call env self λ server. env.agent.fdu_info server found.fdu_uuid) _
        λ descriptor. Returns-bind _ (net_call env self env.net.create_network_namespace) _ λ ns.
          Returns-bind _ (create_cps env self descriptor.connection_points []) _ λ cps.
            Returns-bind _ (create_faces env self ns.uuid cps descriptor.interfaces) _ λ faces.
              pure-Becomes (
                refl,
                record {
                  uuid_kept = refl;
                  fdu_kept = refl;
                  node_kept = refl;
                  restarts_kept = refl;
                },
              )

  cleaned_record-Becomes :
      (found : FduRecord) → Returns (Becomes found defined) (cleaned_record env self found)
  unfolding cleaned_record
  cleaned_record-Becomes found = Returns-bind _ (unwrap found.hypervisor_specific) _ λ specific.
      Returns-bind _ (unwrap (env.from_json specific)) _ λ netns.
        Returns-bind _ (net_call env self λ server. env.net.delete_network_namespace server netns) _
          λ _. Returns-bind _ (delete_faces env self found.interfaces) _ λ _.
            Returns-bind _ (delete_cps env self found.connection_points) _ λ _. pure-Becomes (
              refl,
              record { uuid_kept = refl; fdu_kept = refl; node_kept = refl; restarts_kept = refl },
            )

  -- The record `next` was written, in the store and in the map.
  abbrev pub Published : Uuid → FduRecord → Fdus → Uuid → Fdus × World env → Type 0
  Published u next m v s' =
      (v ≡ u)
      × (s'.0 ≡ put ◌==◌ u next m)
      × ((w₁ : World env) × (add_instance env.zenoh env.codecs self.local next w₁ ≡ (ret tt, s'.1)))

  publish-eq_ret :
      (u : Uuid) (next : FduRecord) (m : Fdus) (w : World env) {v : Uuid} {s' : Fdus × World env}
      → publish env self u next (m, w) ≡ (ret v, s')
      → Published u next m v s'
  publish-eq_ret u next m w h =
      let (_, s₁, e, h₁) =
        >>=-eq_ret (outside (add_instance env.zenoh env.codecs self.local next)) _ (m, w) h in
      let (added, same) =
        outside-eq_ret (add_instance env.zenoh env.codecs self.local next) m w e in
      (
        ret-inj (λ i. (h₁ i).0),
        sym (λ i. (h₁ i).1.0) ∙ ap (put ◌==◌ u next) same,
        (
          w,
          subst (λ x. add_instance env.zenoh env.codecs self.local next w ≡ (ret tt, x))
              (λ i. (h₁ i).1.1) added,
        ),
      )

  -- What an operation that returns has done: from the record that it found, by a move of the life
  -- cycle, to the record that it wrote.
  abbrev pub Moved : Operation → Uuid → FduRecord → Fdus → Uuid → Fdus × World env → Type 0
  Moved op u found m v s' =
      (next : FduRecord) × Move op found.status next.status
      × Keeps found next
      × Published u next m v s'

  publish-Moved :
      (op : Operation) (u : Uuid) (found next : FduRecord) (st : FduState) (m : Fdus)
      (w : World env) {v : Uuid} {s' : Fdus × World env}
      → Move op found.status st
      → Becomes found st next
      → publish env self u next (m, w) ≡ (ret v, s')
      → Moved op u found m v s'
  publish-Moved op u found next st m w move (is, keeps) h =
      (next, subst (Move op found.status) (sym is) move, keeps, publish-eq_ret u next m w h)

  outside-Moved :
      (op : Operation) (u : Uuid) (found : FduRecord) (st : FduState) (m : Fdus) (w : World env)
      (make : Task (World env) FduRecord) {v : Uuid} {s' : Fdus × World env}
      → Move op found.status st
      → Returns (Becomes found st) make
      → (outside make >>= publish env self u) (m, w) ≡ (ret v, s')
      → Moved op u found m v s'
  outside-Moved op u found st m w make {v} {s'} move makes h =
      let (next, s₁, e, h₁) = >>=-eq_ret (outside make) (publish env self u) (m, w) h in
      let (made, same) = outside-eq_ret make m w e in
      publish-Moved op u found next st m s₁.1 move (makes.at w made)
        (subst (λ x. publish env self u next (x, s₁.1) ≡ (ret v, s')) same h₁)

  body-Moved :
      (op : Operation) (u : Uuid) (found : FduRecord) (m : Fdus) (w : World env) {v : Uuid}
      {s' : Fdus × World env}
      → body env self op u found (m, w) ≡ (ret v, s')
      → Moved op u found m v s'
  body-Moved configuring u found m w h =
      let (is, h₁) = in_defined-eq_ret found.status _ (m, w) h in
      outside-Moved configuring u found configured m w (configured_record env self found)
        (subst (λ st. Move configuring st configured) (sym is) configure)
        (configured_record-Becomes found) h₁
  body-Moved cleaning u found m w h =
      let (is, h₁) = in_configured-eq_ret found.status _ (m, w) h in
      outside-Moved cleaning u found defined m w (cleaned_record env self found)
        (subst (λ st. Move cleaning st defined) (sym is) clean) (cleaned_record-Becomes found) h₁
  body-Moved starting u found m w h =
      let (is, h₁) = in_configured-eq_ret found.status _ (m, w) h in
      publish-Moved starting u found (record found { status = running }) running m w
        (subst (λ st. Move starting st running) (sym is) start)
        (refl, record { uuid_kept = refl; fdu_kept = refl; node_kept = refl; restarts_kept = refl })
        h₁
  body-Moved stopping u found m w h =
      let (is, h₁) = in_running-eq_ret found.status _ (m, w) h in
      publish-Moved stopping u found (record found { status = configured }) configured m w
        (subst (λ st. Move stopping st configured) (sym is) stop)
        (refl, record { uuid_kept = refl; fdu_kept = refl; node_kept = refl; restarts_kept = refl })
        h₁

  -- Whatever else runs: `configure_fdu`, `clean_fdu`, `start_fdu` or `stop_fdu` of the dummy
  -- hypervisor that returns has found the record of the instance in the store, has moved its state
  -- as the life cycle says of that operation, has left its identifiers, its node and its restarts
  -- as they were, and has written it to the store, in its last call, and to the map of the plugin.
  pub perform-Move :
      (op : Operation) (u : Uuid) (m : Fdus) (w : World env) {v : Uuid} {s' : Fdus × World env}
      → perform env self op u (m, w) ≡ (ret v, s')
      → (found : FduRecord) × (w₀ w₁ : World env) × (get_instance env.zenoh env.codecs self.local u
            w₀
          ≡ (ret found, w₁))
        × Moved op u found m v s'
  perform-Move op u m w {v} {s'} h =
      let (found, s₁, known, h₁) =
        >>=-eq_ret (known_instance env self u) (body env self op u) (m, w)
          (sym (perform_lem env self op u (m, w)) ∙ h) in
      let (_, s₀, asked, read) =
        >>=-eq_ret (outside (node_uuid env self))
          (λ _. outside (get_instance env.zenoh env.codecs self.local u)) (m, w) known in
      let (_, same₀) = outside-eq_ret (node_uuid env self) m w asked in
      let (got, same₁) =
        outside-eq_ret (get_instance env.zenoh env.codecs self.local u) s₀.0 s₀.1 read in
      (
        found,
        s₀.1,
        s₁.1,
        got,
        body-Moved op u found m s₁.1
            (subst (λ x. body env self op u found (x, s₁.1) ≡ (ret v, s')) (same₁ ∙ same₀) h₁),
      )
