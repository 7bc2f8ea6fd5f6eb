-- ===== src/Agent/Scheduling.antt =====
-- `get_compatible_nodes` and `schedule_fdu` of fog05-agent/src/agent.rs: the agents that can run an
-- FDU, and the choice of one of them. The calls of `join_all` are made one after another, in the
-- order of their answers; what runs beside them is the world's.
pub mod Laws
use fog.Prelude.{
  ℕ, String, Bool, true, false, Option, none, some, List, [], ◌∷◌, ◌++◌, not, ◌==◌, if◌then◌else◌,
}
use fog.Sdk.Fresult.{FError}
use fog.Sdk.Outcome.{
  Result, ok, err, Outcome, ret, fail, panic, hang, Task, pure, raise, unwrap, rpc_call, ◌>>=◌,
  ◌>>◌,
}
use fog.Sdk.Types.{Uuid}
use fog.Sdk.Im.Fdu.{FduRecord}
use fog.Sdk.Im.Node.{NodeInfo}
use fog.Connector.Global.Nodes.{get_all_nodes}
use fog.Agent.Env.{Env, World}
use fog.Agent.State.{Agent}
use fog.Agent.Instances.{define_fdu}
use fog.Agent.Compatibility.{check_fdu_compatibility}

-- An answer to the check, and the UUID it is counted under.
abbrev pub Answer : Type 0
Answer = Result String (Result FError Bool) × Uuid

-- the closure of `filter_map`
abbrev pub accepted : Answer → Option Uuid
accepted (ok (ok true), u) = some u
accepted (ok (ok false), u) = none
accepted (ok (err e), u) = none
accepted (err e, u) = none

unfoldable pub compatibles : List Answer → List Uuid
compatibles [] = []
compatibles (a ∷ rest) =
    let found = compatibles rest in elim (accepted a) [ some u ↦ u ∷ found | none ↦ found ]

-- The services of the other agents: the loop that creates the clients.
unfoldable pub others : Uuid → List NodeInfo → List Uuid
others my_uuid [] = []
others my_uuid (node ∷ nodes) =
    let rest = others my_uuid nodes in
    if node.agent_service_uuid == my_uuid then rest else node.agent_service_uuid ∷ rest

module _ (env : Env) where
  -- `join_all` over the clients
  unfoldable pub ask_all : Uuid → List Uuid → World env → List Answer × World env
  ask_all fdu_uuid [] w = ([], w)
  ask_all fdu_uuid (server ∷ servers) w =
      let (check_res, w₁) = env.orchestrator.check_fdu_compatibility server fdu_uuid w in
      let (results, w₂) = ask_all fdu_uuid servers w₁ in ((check_res, server) ∷ results, w₂)

  abbrev pub asking : Uuid → List Uuid → Task (World env) (List Answer)
  asking fdu_uuid servers w = let (results, w') = ask_all fdu_uuid servers w in (ret results, w')

  -- A call whose result is kept whole: its error is a value, a panic is not.
  abbrev pub kept : {A : Type 0} → Outcome A → Outcome (Result FError A)
  kept (ret a) = ret (ok a)
  kept (fail e) = ret (err e)
  kept panic = panic
  kept hang = hang

  abbrev pub attempt : {A : Type 0} → Task (World env) A → Task (World env) (Result FError A)
  attempt m w = let (o, w') = m w in (kept o, w')

  module _ (self : Agent) where
    unfoldable pub get_compatible_nodes : Uuid → Task (World env) (List Uuid)
    unfolding compatibles others ask_all
    get_compatible_nodes fdu_uuid = do
      my_uuid ← unwrap self.inner.instance_uuid
      nodes ← get_all_nodes env.zenoh env.codecs self.global
      results ← asking fdu_uuid (others my_uuid nodes)
      self_check ← attempt (check_fdu_compatibility env self fdu_uuid)
      pure (compatibles (results ++ (ok self_check, self.node_uuid) ∷ []))

    abbrev pub choosing : List Uuid → Task (World env) (Option Uuid)
    choosing us w = let (picked, w') = env.choose us w in (ret picked, w')

    -- `match selected`
    abbrev pub define_on : ℕ → Uuid → Option Uuid → Task (World env) FduRecord
    define_on fuel fdu_uuid none = raise FError.not_found
    define_on fuel fdu_uuid (some selected) =
        if selected == self.node_uuid
        then define_fdu env self fuel fdu_uuid
        else rpc_call (env.orchestrator.define_fdu selected fdu_uuid)

    unfoldable pub schedule_fdu : ℕ → Uuid → Task (World env) FduRecord
    unfolding get_compatible_nodes
    schedule_fdu fuel fdu_uuid = do
      unwrap self.inner.instance_uuid
      found ← get_compatible_nodes fdu_uuid
      selected ← choosing found
      define_on fuel fdu_uuid selected
