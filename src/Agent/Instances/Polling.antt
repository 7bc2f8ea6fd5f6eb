-- ===== src/Agent/Instances/Polling.antt =====
-- The polling loop of the handlers, against a description of how it settles.
use fog.Prelude.{ℕ, zero, suc, ◌≡◌, ◌<◌, ◌⊎◌, inl, inr, refl, ◌∙◌, arith}
use fog.Sdk.Outcome.{Outcome, ret, Task}
use fog.Sdk.Types.{Uuid}
use fog.Sdk.Im.Fdu.{FduRecord, FduState}
use fog.Connector.Global.Fdus.{get_instance}
use fog.Agent.Env.{Env, World}
use fog.Agent.State.{Agent}
use fog.Agent.Instances.{await_state, Turn, done, again, judge}

Turn-cases : (t : Turn) → ((o : Outcome FduRecord) × (t ≡ done o)) ⊎ (t ≡ again)
Turn-cases (done o) = inl (o, refl)
Turn-cases again = inr refl

-- A turn that ends the loop with a record has read it, in the wanted state.
pub judge-eq_ret :
    (target : FduState) (o : Outcome FduRecord) {found : FduRecord}
    → judge target o ≡ done (ret found)
    → (o ≡ ret found) × (found.status ≡ target)
judge-eq_ret target o h = ground arith

module _ (env : Env) (self : Agent) (target : FduState) (uuid : Uuid) where
  abbrev pub read : Task (World env) FduRecord
  read = get_instance env.zenoh env.codecs self.global uuid

  -- From the world `w`, the loop goes on `n` times and then ends: its last turn makes `result` of
  -- what it reads and leaves the world `w'`.
  pub data Settles (result : Outcome FduRecord) (w' : World env) : ℕ → World env → Type 0 where
    now :
        {w : World env} (o : Outcome FduRecord)
        → read w ≡ (o, w')
        → judge target o ≡ done result
        → Settles result w' zero w
    later :
        {n : ℕ} {w : World env} (o : Outcome FduRecord) (w₁ : World env)
        → read w ≡ (o, w₁)
        → judge target o ≡ again
        → Settles result w' n (env.sleep w₁)
        → Settles result w' (suc n) w

  -- With more fuel than turns are needed, the loop ends as its last turn says.
  pub await_state_complete :
      (fuel : ℕ) {result : Outcome FduRecord} {w' : World env} {n : ℕ} {w : World env}
      → Settles result w' n w
      → n < fuel
      → await_state env self target fuel uuid w ≡ (result, w')
  unfolding await_state
  await_state_complete zero s h = absurd (omega arith)
  await_state_complete (suc fuel) (now o e v) h = rw (e, v)
  await_state_complete (suc fuel) (later o w₁ e v s) h =
      rw (e, v) (await_state_complete fuel s (omega arith))

  -- A loop that returns a record has settled on it within its fuel.
  pub await_state_sound :
      (fuel : ℕ) (w : World env) {found : FduRecord} {w' : World env}
      → await_state env self target fuel uuid w ≡ (ret found, w')
      → (n : ℕ) × (n < fuel) × Settles (ret found) w' n w
  unfolding await_state
  await_state_sound zero w h = cc
  await_state_sound (suc fuel) w {found} {w'} h = elim (Turn-cases (judge target (read w).0)) [
    | inl (o, e) ↦
        let ended : ◌≡◌ {A = Outcome FduRecord × World env} (o, (read w).1) (ret found, w') =
          rw e at h in
        (
          zero,
          omega arith,
          now (read w).0 (λ i. ((read w).0, (ended i).1)) (e ∙ λ i. done (ended i).0),
        )
    | inr e ↦
        let (n, lt, s) = await_state_sound fuel (env.sleep (read w).1) (rw e at h) in
        (suc n, omega arith, later (read w).0 (read w).1 refl e s)
  ]
