-- ===== src/Api/Laws.antt =====
-- The operations of the API, and who has answered them.
use mathlib.Core.List.{Memᴰ}
use fog.Prelude.{◌≡◌, refl, sym, subst, ap, ◌∙◌, Option, none, some, inl, inr, List, [], ◌∷◌}
use fog.Sdk.Fresult.{FError}
use fog.Sdk.Outcome.{Result, ok, Call, Outcome, ret, panic, Task, unwrap, rpc_call, ◌>>=◌}
use fog.Sdk.Outcome.Laws.{>>=-eq_ret, rpc_call-eq_ret}
use fog.Sdk.Types.{Uuid}
use fog.Sdk.Im.Fdu.{FduRecord}
use fog.Sdk.Im.Node.{NodeInfo}
use fog.Connector.Global.Defs.{Global}
use fog.Connector.Global.Nodes.{get_all_nodes}
use fog.Agent.Env.{Env, World}
use fog.Agent.Scheduling.Laws.{Chooses}
use fog.Api.{services, relay, configure_fdu, start_fdu, stop_fdu, clean_fdu, undefine_fdu}

services_lem :
    (u : Uuid) (nodes : List NodeInfo)
    → Memᴰ u (services nodes)
    → (n : NodeInfo) × Memᴰ n nodes × (n.agent_service_uuid ≡ u)
services_lem u [] m = elim m [ ]
services_lem u (n ∷ nodes) m = elim m [
  | Memᴰ.head e ↦ (n, Memᴰ.head refl, sym e)
  | Memᴰ.tail t ↦ let (x, at, is) = services_lem u nodes t in (x, Memᴰ.tail at, is)
]

-- An operation on an instance.
pub data Operation : Type 0 where
  configuring starting stopping cleaning undefining : Operation

module _ (env : Env) (self : Global) where
  abbrev pub run : Operation → Uuid → Task (World env) FduRecord
  run configuring = configure_fdu env self
  run starting = start_fdu env self
  run stopping = stop_fdu env self
  run cleaning = clean_fdu env self
  run undefining = undefine_fdu env self

  -- What an agent is asked for by the operation.
  abbrev pub asked : Operation → Uuid → Uuid → Call (World env) (Result FError FduRecord)
  asked configuring = env.orchestrator.configure_fdu
  asked starting = env.orchestrator.start_fdu
  asked stopping = env.orchestrator.stop_fdu
  asked cleaning = env.orchestrator.clean_fdu
  asked undefining = env.orchestrator.undefine_fdu

  run-eq-relay :
      (op : Operation) (uuid : Uuid) (w : World env)
      → run op uuid w ≡ relay env self (λ server. asked op server uuid) w
  unfolding configure_fdu start_fdu stop_fdu clean_fdu undefine_fdu
  run-eq-relay configuring uuid w = refl
  run-eq-relay starting uuid w = refl
  run-eq-relay stopping uuid w = refl
  run-eq-relay cleaning uuid w = refl
  run-eq-relay undefining uuid w = refl

  asking-eq_ret :
      {A : Type 0} (call : Uuid → Call (World env) (Result FError A)) (picked : Option Uuid)
      (w : World env) {a : A} {w' : World env}
      → (unwrap picked >>= (λ server. rpc_call (call server))) w ≡ (ret a, w')
      → (u : Uuid) × (picked ≡ some u) × (call u w ≡ (ok (ok a), w'))
  asking-eq_ret call none w h = cc (ap (λ (o : Outcome _ × _). o.0) h)
  asking-eq_ret call (some u) w h = (u, refl, rpc_call-eq_ret (call u) w h)

  -- Where `choose` picks an element: a record that an operation on an instance returns is what the
  -- agent of a known node has answered to the same operation on that instance.
  pub run-eq_ret :
      (op : Operation) (uuid : Uuid) (w : World env) {found : FduRecord} {w' : World env}
      → Chooses env
      → run op uuid w ≡ (ret found, w')
      → (nodes : List NodeInfo) × (w₁ w₂ : World env) × (n : NodeInfo) × (get_all_nodes env.zenoh
            env.codecs self w
          ≡ (ret nodes, w₁))
        × Memᴰ n nodes
        × (asked op n.agent_service_uuid uuid w₂ ≡ (ok (ok found), w'))
  unfolding relay
  run-eq_ret op uuid w {found} {w'} chooses h =
      let (nodes, w₁, known, h₁) =
        >>=-eq_ret (get_all_nodes env.zenoh env.codecs self) _ w
          (sym (run-eq-relay op uuid w) ∙ h) in
      let (u, picked, answered) =
        asking-eq_ret (λ server. asked op server uuid) (env.choose (services nodes) w₁).0
          (env.choose (services nodes) w₁).1 h₁ in
      elim (chooses (services nodes) w₁) [
        | inl (_, none_there) ↦ cc (none_there, picked)
        | inr (v, at, chosen) ↦
            let (n, there, is) =
              services_lem u nodes
                (subst (λ x. Memᴰ x (services nodes)) (cc (picked, chosen)) at) in
            (
              nodes,
              w₁,
              (env.choose (services nodes) w₁).1,
              n,
              known,
              there,
              subst (λ x. asked op x uuid (env.choose (services nodes) w₁).1 ≡ (ok (ok found), w'))
                  (sym is) answered,
            )
      ]

  -- Where `choose` picks nothing from nothing: an operation on an instance panics when no node is
  -- known.
  pub run-eq_panic :
      (op : Operation) (uuid : Uuid) (w : World env) {w₁ : World env}
      → Chooses env
      → get_all_nodes env.zenoh env.codecs self w ≡ (ret [], w₁)
      → (run op uuid w).0 ≡ panic
  unfolding relay
  run-eq_panic op uuid w {w₁} chooses e = elim (chooses [] w₁) [
    | inl (_, nothing) ↦
        ap (λ (o : Outcome FduRecord × World env). o.0) (run-eq-relay op uuid w) ∙ rw (e, nothing)
    | inr (v, at, _) ↦ elim at [ ]
  ]
