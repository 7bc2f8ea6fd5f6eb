-- ===== src/Agent/Monitoring/Laws.antt =====
-- What the rest of the system sees of a node, on a reliable store.
use mathlib.Core.List.{Memᴰ}
use fog.Prelude.{
  ℕ, suc, ◌≡◌, ◌≢◌, ◌⊎◌, ◌↔◌, inl, inr, refl, String, Option, none, some, List, [], ◌∷◌,
}
use fog.Sdk.Fresult.{FError}
use fog.Sdk.Outcome.{Outcome, Result, ok, err, ret, fail}
use fog.Sdk.Types.{Uuid}
use fog.Sdk.Im.Fdu.{FduRecord, FduState, defined, configured, running}
use fog.Sdk.Im.Node.{DiskStatus, ready}
use fog.Zenoh.{RoundTrips}
use fog.Zenoh.Reliable.{Reliable}
use fog.Connector.Global.Fdus.{get_instance}
use fog.Connector.Global.Nodes as global
use fog.Connector.Local.Nodes as local
use fog.Connector.Global.Laws.{IsAlone, get_instance-add_instance}
use fog.Connector.Global.Frames.{
  get_instance_stays, get_node_status-add_node_status, remove_node_info-remove_node_status,
}
use fog.Agent.Host.{Host, Reading}
use fog.Agent.Env.{Env, World}
use fog.Agent.State.{Agent, Plugins, lookup}
use text.Mathlib.TextPositions.{eq_refl}
use fog.Agent.Instances.{await_state, judge, done}
use fog.Agent.Monitoring.{
  monitoring_fdus, disk_statuses, monitor_host, status_of, readiness, keys, stop,
}

module _ (env : Env) (self : Agent) (r : Reliable env.zenoh) where
  -- Records of other instances leave what an identifier reads as it is.
  monitoring_fdus_others :
      (u : Uuid) (received : List (Result String FduRecord)) (w : World env) {o : Outcome FduRecord}
      → ((j : FduRecord) → Memᴰ (ok j) received → RoundTrips env.codecs.instance_record j)
      → ((j : FduRecord) → Memᴰ (ok j) received → u ≢ j.uuid)
      → get_instance env.zenoh env.codecs self.global u w ≡ (o, w)
      → (w' : World env) × (monitoring_fdus env self received w ≡ (ret tt, w'))
        × (get_instance env.zenoh env.codecs self.global u w' ≡ (o, w'))
  unfolding monitoring_fdus
  monitoring_fdus_others u [] w round ne got = (w, refl, got)
  monitoring_fdus_others u (err e ∷ rest) w round ne got =
      monitoring_fdus_others u rest w (λ j at. round j (Memᴰ.tail at)) (λ j at. ne j (Memᴰ.tail at))
        got
  monitoring_fdus_others u (ok j ∷ rest) w round ne got =
      let (w₁, added, got₁) =
        get_instance_stays r env.codecs self.global j u w (round j (Memᴰ.head refl))
          (ne j (Memᴰ.head refl)) got in
      let (w', monitored, got') =
        monitoring_fdus_others u rest w₁ (λ j at. round j (Memᴰ.tail at))
          (λ j at. ne j (Memᴰ.tail at)) got₁ in
      (w', rw (added, monitored), got')

  -- On a reliable store, where every record received survives its encoding and no other FDU has a
  -- record with the identifier of the instance: once the monitoring has received the record of an
  -- instance in the state defined, configured or running, and after it only errors and records of
  -- other instances, a handler of the agent that waits for the instance in that state gets that
  -- record with its first read.
  pub await_state-monitoring_fdus :
      (target : FduState) (fuel : ℕ) (i : FduRecord) (later : List (Result String FduRecord))
      (w : World env)
      → (target ≡ defined) ⊎ ((target ≡ configured) ⊎ (target ≡ running))
      → i.status ≡ target
      → RoundTrips env.codecs.instance_record i
      → IsAlone r env.codecs self.global i w
      → ((j : FduRecord) → Memᴰ (ok j) later → RoundTrips env.codecs.instance_record j)
      → ((j : FduRecord) → Memᴰ (ok j) later → i.uuid ≢ j.uuid)
      → (w' : World env) × (monitoring_fdus env self (ok i ∷ later) w ≡ (ret tt, w'))
        × (await_state env self target (suc fuel) i.uuid w' ≡ (ret i, w'))
  unfolding monitoring_fdus await_state
  await_state-monitoring_fdus target fuel i later w wanted is round alone rounds others =
      let (w₁, added, got) = get_instance-add_instance r env.codecs self.global i w round alone in
      let (w', monitored, got') = monitoring_fdus_others i.uuid later w₁ rounds others got in
      let ends : judge target (ret i) ≡ done (ret i) = elim wanted [
        | inl e ↦ rw (is, e)
        | inr (inl e) ↦ rw (is, e)
        | inr (inr e) ↦ rw (is, e)
      ] in
      (w', rw (added, monitored), rw (got', ends))

  -- On a reliable store, a round of the host's monitoring returns when every mount point is a text
  -- and the status that it makes survives its encoding; then, before the sleep, that status is the
  -- one that is got for the node from the global part of the store and from the node's part.
  pub get_node_status-monitor_host :
      (host : Host) (reading : Reading) (w : World env) {disks : List DiskStatus}
      → disk_statuses host reading.disks w ≡ (ret disks, w)
      → RoundTrips env.codecs.node_status (status_of host self reading disks)
      → (w' : World env) × (monitor_host env host self reading w ≡ (ret tt, env.sleep w'))
        × (global.get_node_status env.zenoh env.codecs self.global self.node_uuid w'
            ≡ (ret (status_of host self reading disks), w'))
        × (local.get_node_status env.zenoh env.codecs self.local w'
            ≡ (ret (status_of host self reading disks), w'))
  unfolding monitor_host status_of
  get_node_status-monitor_host host reading w read lossless =
      let (w₁, w₂, added, added', got, got') =
        get_node_status-add_node_status r env.codecs self.global _ self.local w lossless in
      (w₂, rw (read, added, added'), got, got')

  -- On a reliable store, `stop` returns, and then neither the status of the node nor its
  -- description are found in the global part of the store.
  pub stop_lem :
      (w : World env)
      → (w' : World env) × (stop env self w ≡ (ret tt, w'))
        × (global.get_node_status env.zenoh env.codecs self.global self.node_uuid w'
            ≡ (fail FError.not_found, w'))
        × (global.get_node_info env.zenoh env.codecs self.global self.node_uuid w'
            ≡ (fail FError.not_found, w'))
  unfolding stop
  stop_lem w =
      let (w₁, w₂, removed, removed', gone, gone') =
        remove_node_info-remove_node_status r env.codecs self.global self.node_uuid w in
      (w₂, rw (removed, removed'), gone, gone')

readiness_lem :
    {A : Type 0} (networking : Option A) (hvs : Plugins)
    → (readiness networking (keys hvs) ≡ ready) ↔ (
        ((client : A) × (networking ≡ some client))
        × ((hv : String) × (client : Uuid) × (lookup hv hvs ≡ some client)))
unfolding readiness keys
readiness_lem none hvs = (λ e. cc, λ x. let ((client, e), _) = x in cc)
readiness_lem (some client) [] = (λ e. cc, λ x. let (_, (hv, c, e)) = x in cc)
readiness_lem (some client) ((hv, c) ∷ rest) =
    (λ e. ((client, refl), (hv, c, rw (eq_refl hv))), λ x. refl)

-- The node tells that it is READY exactly when it has a networking plugin and, under some name, a
-- hypervisor plugin.
pub status_of_ready :
    (host : Host) (self : Agent) (reading : Reading) (disks : List DiskStatus)
    → ((status_of host self reading disks).status ≡ ready) ↔ (
        ((client : Uuid) × (self.inner.networking ≡ some client))
        × ((hv : String) × (client : Uuid) × (lookup hv self.inner.hypervisors ≡ some client)))
unfolding status_of
status_of_ready host self reading disks = readiness_lem self.inner.networking self.inner.hypervisors
