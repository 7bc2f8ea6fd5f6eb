-- ===== src/Agent/Scheduling/Laws.antt =====
-- The answers that the scheduler counts, and the node that it picks.
use mathlib.Core.List.{Memᴰ}
use fog.Prelude.{
  ℕ, ◌≡◌, ◌≢◌, ◌↔◌, ◌⊎◌, inl, inr, refl, sym, ap, ◌∙◌, subst, Bool, true, false, Bool-cases, ◌==◌,
  Option, none, some, List, [], ◌∷◌, ◌++◌, arith,
}
use fog.Sdk.Fresult.{FError}
use fog.Sdk.Outcome.{Result, ok, err, Outcome, ret, fail, panic, hang, Task, pure, ◌>>=◌, unwrap}
use fog.Sdk.Outcome.Laws.{>>=-eq_ret, ret-inj, rpc_call-eq_ret}
use fog.Sdk.Types.{Uuid}
use fog.Sdk.Im.Fdu.{FduRecord}
use fog.Sdk.Im.Node.{NodeInfo}
use fog.Connector.Global.Nodes.{get_all_nodes}
use fog.Agent.Env.{Env, World}
use fog.Agent.State.{Agent}
use fog.Agent.Instances.States.{IsDefined, define_fdu-IsDefined}
use fog.Agent.Compatibility.{check_fdu_compatibility}
use fog.Agent.Scheduling.{
  Answer, compatibles, others, ask_all, attempt, kept, get_compatible_nodes, choosing, define_on,
  schedule_fdu,
}

-- The UUIDs that are kept are those that stand beside a yes.
pub compatibles_lem :
    (u : Uuid) (l : List Answer) → Memᴰ u (compatibles l) ↔ Memᴰ (ok (ok true), u) l
unfolding compatibles
compatibles_lem u [] = (λ m. elim m [ ], λ m. elim m [ ])
compatibles_lem u ((ok (ok true), v) ∷ l) = (
  λ m. elim m [
    | Memᴰ.head e ↦ Memᴰ.head (λ i. (ok (ok true), e i))
    | Memᴰ.tail t ↦ Memᴰ.tail ((compatibles_lem u l).0 t)
  ],
  λ m. elim m [
    | Memᴰ.head e ↦ Memᴰ.head (λ i. (e i).1)
    | Memᴰ.tail t ↦ Memᴰ.tail ((compatibles_lem u l).1 t)
  ],
)
compatibles_lem u ((ok (ok false), v) ∷ l) = (
  λ m. Memᴰ.tail ((compatibles_lem u l).0 m),
  λ m. elim m [ Memᴰ.head e ↦ cc e | Memᴰ.tail t ↦ (compatibles_lem u l).1 t ],
)
compatibles_lem u ((ok (err x), v) ∷ l) = (
  λ m. Memᴰ.tail ((compatibles_lem u l).0 m),
  λ m. elim m [ Memᴰ.head e ↦ cc e | Memᴰ.tail t ↦ (compatibles_lem u l).1 t ],
)
compatibles_lem u ((err x, v) ∷ l) = (
  λ m. Memᴰ.tail ((compatibles_lem u l).0 m),
  λ m. elim m [ Memᴰ.head e ↦ cc e | Memᴰ.tail t ↦ (compatibles_lem u l).1 t ],
)

-- The other agents are the nodes' agents that are not this one.
pub others_lem :
    (my u : Uuid) (nodes : List NodeInfo)
    → Memᴰ u (others my nodes)
    → (u ≢ my) × ((n : NodeInfo) × Memᴰ n nodes × (n.agent_service_uuid ≡ u))
unfolding others
others_lem my u [] m = elim m [ ]
others_lem my u (n ∷ nodes) m = elim (Bool-cases (n.agent_service_uuid == my)) [
  | inl e ↦ let (ne, (x, at, is)) = others_lem my u nodes (rw e at m) in (ne, (x, Memᴰ.tail at, is))
  | inr e ↦
      let m' : Memᴰ u (n.agent_service_uuid ∷ others my nodes) = rw e at m in
      elim m' [
        | Memᴰ.head h ↦ (ground arith, (n, Memᴰ.head refl, sym h))
        | Memᴰ.tail t ↦
            let (ne, (x, at, is)) = others_lem my u nodes t in (ne, (x, Memᴰ.tail at, is))
      ]
]

Mem-append : {A : Type 0} {x : A} (l : List A) {m : List A} → Memᴰ x (l ++ m) → Memᴰ x l ⊎ Memᴰ x m
Mem-append [] h = inr h
Mem-append (y ∷ l) h = elim h [
  | Memᴰ.head e ↦ inl (Memᴰ.head e)
  | Memᴰ.tail t ↦ elim (Mem-append l t) [ inl a ↦ inl (Memᴰ.tail a) | inr b ↦ inr b ]
]

module _ (env : Env) where
  -- Every answer of `ask_all` is what a server that was asked has answered.
  ask_all-Mem :
      (fdu_uuid : Uuid) (servers : List Uuid) (w : World env) (a : Answer)
      → Memᴰ a (ask_all env fdu_uuid servers w).0
      → Memᴰ a.1 servers
        × ((w₁ : World env) × ((env.orchestrator.check_fdu_compatibility a.1 fdu_uuid w₁).0 ≡ a.0))
  unfolding ask_all
  ask_all-Mem fdu_uuid [] w a m = elim m [ ]
  ask_all-Mem fdu_uuid (server ∷ servers) w a m = elim m [
    | Memᴰ.head e ↦ (
      Memᴰ.head (λ i. (e i).1),
      (
        w,
        ap (λ (b : Answer). (env.orchestrator.check_fdu_compatibility b.1 fdu_uuid w).0) e
            ∙ sym (λ i. (e i).0),
      ),
    )
    | Memᴰ.tail t ↦ let (at, said) = ask_all-Mem fdu_uuid servers _ a t in (Memᴰ.tail at, said)
  ]

  kept-eq_ret :
      {A : Type 0} (o : Outcome A) {r : Result FError A} (a : A)
      → kept env o ≡ ret r
      → r ≡ ok a
      → o ≡ ret a
  kept-eq_ret (ret b) a h e = cc (h, e)
  kept-eq_ret (fail x) a h e = cc (h, e)
  kept-eq_ret panic a h e = cc h
  kept-eq_ret hang a h e = cc h

  -- `choose` of the crate rand: one of the elements, or nothing where there is none.
  abbrev pub Chooses : Type 0
  Chooses =
      (us : List Uuid) (w : World env)
      → ((us ≡ []) × ((env.choose us w).0 ≡ none))
        ⊎ ((v : Uuid) × Memᴰ v us × ((env.choose us w).0 ≡ some v))

  module _ (self : Agent) (fdu_uuid my : Uuid) where
    -- This node, which has said yes.
    abbrev pub IsSelf : Uuid → World env → Type 0
    IsSelf v w' =
        (v ≡ self.node_uuid)
        × ((w : World env) × (check_fdu_compatibility env self fdu_uuid w ≡ (ret true, w')))

    -- The service of another agent of the nodes, which has said yes.
    abbrev pub IsOther : List NodeInfo → Uuid → Type 0
    IsOther nodes v =
        (v ≢ my)
        × ((n : NodeInfo) × Memᴰ n nodes × (n.agent_service_uuid ≡ v))
        × ((w : World env) × ((env.orchestrator.check_fdu_compatibility v fdu_uuid w).0
              ≡ ok (ok true)))

    -- the end of `get_compatible_nodes`, with the answers of the others
    abbrev ending : List Answer → Result FError Bool → Task (World env) (List Uuid)
    ending results self_check = pure (compatibles (results ++ (ok self_check, self.node_uuid) ∷ []))

    -- the result in an answer, `fallback` where there is none
    abbrev settled : Answer → Result FError Bool
    settled (ok r, u) = r
    settled (err x, u) = err FError.not_found

    from_answers :
        (nodes : List NodeInfo) (w w₁ : World env) (self_check : Result FError Bool)
        (w₂ : World env)
        → attempt env (check_fdu_compatibility env self fdu_uuid) w₁ ≡ (ret self_check, w₂)
        → (v : Uuid)
        → Memᴰ v (
            compatibles (
              (ask_all env fdu_uuid (others my nodes) w).0 ++ (ok self_check, self.node_uuid) ∷ []))
        → IsSelf v w₂ ⊎ IsOther nodes v
    from_answers nodes w w₁ self_check w₂ checked v m =
        elim (Mem-append (ask_all env fdu_uuid (others my nodes) w).0 ((compatibles_lem v _).0 m)) [
          | inl a ↦
              let (at, said) = ask_all-Mem fdu_uuid (others my nodes) w (ok (ok true), v) a in
              let (ne, known) = others_lem my v nodes at in inr (ne, known, said)
          | inr b ↦ elim b [
            | Memᴰ.head e ↦ inl (
              λ i. (e i).1,
              (
                w₁,
                (λ i. (
                  kept-eq_ret (check_fdu_compatibility env self fdu_uuid w₁).0 true
                      (λ j. (checked j).0) (sym (λ j. settled (e j))) i,
                  (checked i).1,
                )),
              ),
            )
            | Memᴰ.tail t ↦ elim t [ ]
          ]
        ]

    -- Where the agent has a service UUID, every UUID that `get_compatible_nodes` returns belongs to an agent that has said yes: this
    -- one, counted under its node, or the agent of another known node, counted under its service.
    pub get_compatible_nodes_sound :
        (w : World env) {found : List Uuid} {w' : World env} (v : Uuid)
        → self.inner.instance_uuid ≡ some my
        → get_compatible_nodes env self fdu_uuid w ≡ (ret found, w')
        → Memᴰ v found
        → (nodes : List NodeInfo) × (w₁ : World env) × (get_all_nodes env.zenoh env.codecs
              self.global w
            ≡ (ret nodes, w₁))
          × (IsSelf v w' ⊎ IsOther nodes v)
    unfolding get_compatible_nodes
    get_compatible_nodes_sound w {found} {w'} v e h m =
        let (nodes, w₁, known, h₁) =
          >>=-eq_ret (get_all_nodes env.zenoh env.codecs self.global) _ w (simp e at h) in
        let (results, w₂) = ask_all env fdu_uuid (others my nodes) w₁ in
        let (self_check, w₃, checked, h₂) =
          >>=-eq_ret (attempt env (check_fdu_compatibility env self fdu_uuid)) (ending results) w₂
            h₁ in
        (
          nodes,
          w₁,
          known,
          subst (λ x. IsSelf v x ⊎ IsOther nodes v) (λ i. (h₂ i).1)
              (from_answers nodes w₁ w₂ self_check w₃ checked v
                (subst (Memᴰ v) (ret-inj (λ i. (h₂ i).0)) m)),
        )

    -- What is known of a record that was made on a node that was chosen.
    abbrev pub IsMade : FduRecord → World env → Uuid → Type 0
    IsMade made w' v =
        ((v ≡ self.node_uuid) × IsDefined env self fdu_uuid made w')
        ⊎ ((v ≢ self.node_uuid)
            × ((w : World env) × (env.orchestrator.define_fdu v fdu_uuid w ≡ (ok (ok made), w'))))

    define_on-some :
        (fuel : ℕ) (v : Uuid) (w : World env) {made : FduRecord} {w' : World env}
        → define_on env self fuel fdu_uuid (some v) w ≡ (ret made, w')
        → IsMade made w' v
    define_on-some fuel v w {made} {w'} h = elim (Bool-cases (v == self.node_uuid)) [
      | inl e ↦ inl (ground arith, define_fdu-IsDefined env self fuel fdu_uuid w (rw e at h))
      | inr e ↦ inr (
        ground arith,
        (w, rpc_call-eq_ret (env.orchestrator.define_fdu v fdu_uuid) w (rw e at h)),
      )
    ]

    define_on-eq_ret :
        (fuel : ℕ) (picked : Option Uuid) (w : World env) {made : FduRecord} {w' : World env}
        → define_on env self fuel fdu_uuid picked w ≡ (ret made, w')
        → (v : Uuid) × (picked ≡ some v) × IsMade made w' v
    define_on-eq_ret fuel none w h = cc (ap (λ (o : Outcome FduRecord × World env). o.0) h)
    define_on-eq_ret fuel (some v) w h = (v, refl, define_on-some fuel v w h)

    -- Where `choose` picks an element and the agent has a service UUID: a record that `schedule_fdu`
    -- returns was made under a UUID that has said yes, this node's or that of the service of another
    -- agent of a known node. If the UUID is this node's, this agent has asked its plugin for the
    -- hypervisor of the FDU's descriptor to define that descriptor, and the record is that of the
    -- instance that the plugin has answered with, read from the store last, in the state defined;
    -- otherwise it is what the agent with that UUID has answered when it was asked to define the
    -- FDU.
    pub schedule_fdu_sound :
        (fuel : ℕ) (w : World env) {made : FduRecord} {w' : World env}
        → Chooses
        → self.inner.instance_uuid ≡ some my
        → schedule_fdu env self fuel fdu_uuid w ≡ (ret made, w')
        → (v : Uuid) × (w₀ w₁ w₂ : World env) × (nodes : List NodeInfo) × (get_all_nodes env.zenoh
              env.codecs self.global w₀
            ≡ (ret nodes, w₂))
          × (IsSelf v w₁ ⊎ IsOther nodes v)
          × IsMade made w' v
    unfolding schedule_fdu
    schedule_fdu_sound fuel w {made} {w'} chooses e h =
        let (_, w₀, _, h₀) =
          >>=-eq_ret (unwrap self.inner.instance_uuid)
            (λ _. do
              found ← get_compatible_nodes env self fdu_uuid
              selected ← choosing env self found
              define_on env self fuel fdu_uuid selected)
            w h in
        let (found, w₁, compatible, h₁) =
          >>=-eq_ret (get_compatible_nodes env self fdu_uuid)
            (λ found. do
              selected ← choosing env self found
              define_on env self fuel fdu_uuid selected)
            w₀ h₀ in
        let (v, chosen, made_on) =
          define_on-eq_ret fuel (env.choose found w₁).0 (env.choose found w₁).1 h₁ in
        elim (chooses found w₁) [
          | inl (_, none_there) ↦ cc (none_there, chosen)
          | inr (u, at, picked) ↦
              let there : Memᴰ v found = subst (λ x. Memᴰ x found) (cc (picked, chosen)) at in
              let (nodes, w₂, known, said) = get_compatible_nodes_sound w₀ v e compatible there in
              (v, w₀, w₁, w₂, nodes, known, said, made_on)
        ]
