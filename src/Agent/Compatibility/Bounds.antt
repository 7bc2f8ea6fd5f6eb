-- ===== src/Agent/Compatibility/Bounds.antt =====
-- The count of processors in `check_fdu_compatibility` of fog05-agent/src/agent.rs, which is cast to
-- a byte.
use fog.Prelude.{ℕ, ◌≡◌, ◌≤◌, ◌<◌, ◌%◌, ◌^◌, true, arith, length}
use fog.Sdk.Outcome.{ret}
use fog.Sdk.Types.{Uuid}
use fog.Sdk.Im.Fdu.{FduDescriptor}
use fog.Sdk.Im.Node.{NodeInfo}
use fog.Connector.Global.Fdus.{get_fdu}
use fog.Connector.Global.Nodes.{get_node_info}
use fog.Agent.Env.{Env, World}
use fog.Agent.State.{Agent}
use fog.Agent.Compatibility.{check_fdu_compatibility}
use fog.Agent.Compatibility.Laws.{check_fdu_compatibility-Fits}

byte_bounds : (wanted n : ℕ) → wanted ≤ n % 2 ^ 8 → (wanted ≤ n) × (wanted < 256)
byte_bounds wanted n h = (omega arith, omega arith)

-- A check that returns true never counts too many processors: the FDU whose descriptor it has read
-- wants at most as many as the node, whose information it has read, has, and fewer than 256.
pub check_fdu_compatibility_bounds :
    (env : Env) (self : Agent) (u : Uuid) (w : World env) {w' : World env}
    → check_fdu_compatibility env self u w ≡ (ret true, w')
    → (d : FduDescriptor) × (info : NodeInfo) × (w₁ w₂ : World env) × (get_fdu env.zenoh env.codecs
          self.global u w
        ≡ (ret d, w₁))
      × (get_node_info env.zenoh env.codecs self.global self.node_uuid w₁ ≡ (ret info, w₂))
      × (d.computation_requirements.cpu_min_count ≤ length info.cpu)
      × (d.computation_requirements.cpu_min_count < 256)
check_fdu_compatibility_bounds env self u w h =
    let (d, info, status, w₁, w₂, w₃, got, known, _, fits, _) =
      check_fdu_compatibility-Fits env self u w h in
    let (enough, small) =
      byte_bounds d.computation_requirements.cpu_min_count (length info.cpu) fits.count in
    (d, info, w₁, w₂, got, known, enough, small)
