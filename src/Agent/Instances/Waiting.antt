-- ===== src/Agent/Instances/Waiting.antt =====
-- The polling loop of the handlers, described by what each of its reads finds.
use fog.Prelude.{ℕ, zero, suc, String, ◌≡◌, ◌≢◌, ◌<◌, ◌⊎◌, inl, inr, refl, arith}
use fog.Sdk.Fresult.{FError}
use fog.Sdk.Outcome.{Outcome, ret, fail, panic}
use fog.Sdk.Types.{Uuid}
use fog.Sdk.Im.Fdu.{FduRecord, FduState, defined, configured, running}
use fog.Agent.Env.{Env, World}
use fog.Agent.State.{Agent}
use fog.Agent.Instances.{await_state, judge, done, again}
use fog.Connector.Global.Fdus.{get_instance}
use fog.Agent.Instances.Polling.{Settles, now, later, await_state_complete}

-- The states that a handler waits for.
abbrev pub IsAwaited : FduState → Type 0
IsAwaited target = (target ≡ defined) ⊎ ((target ≡ configured) ⊎ (target ≡ running))

-- A read after which the loop goes on: there is no record, or one in another state than the target,
-- and not in an error.
pub data Misses (target : FduState) : Outcome FduRecord → Type 0 where
  absent : Misses target (fail FError.not_found)
  elsewhere :
      {found : FduRecord}
      → IsAwaited found.status
      → found.status ≢ target
      → Misses target (ret found)

-- A read that ends the loop, and the loop's result: the record in the state `target`, the error that
-- the record of the instance is in, or the read's own failure.
pub data Finds (target : FduState) : Outcome FduRecord → Outcome FduRecord → Type 0 where
  arrived : {found : FduRecord} → found.status ≡ target → Finds target (ret found) (ret found)
  broken :
      {found : FduRecord} {e : String}
      → found.status ≡ FduState.error e
      → Finds target (ret found) (fail (FError.hypervisor_error e))
  unread : {e : FError} → e ≢ FError.not_found → Finds target (fail e) (fail e)
  panicked : Finds target panic panic

judge-Finds :
    (target : FduState) {o result : Outcome FduRecord}
    → IsAwaited target
    → Finds target o result
    → judge target o ≡ done result
judge-Finds target (inl e) (arrived is) = rw (is, e)
judge-Finds target (inr (inl e)) (arrived is) = rw (is, e)
judge-Finds target (inr (inr e)) (arrived is) = rw (is, e)
judge-Finds target a (broken is) = rw is
judge-Finds target a (unread ne) = ground arith
judge-Finds target a panicked = refl

judge-Misses :
    (target : FduState) {o : Outcome FduRecord}
    → IsAwaited target
    → Misses target o
    → judge target o ≡ again
judge-Misses target a absent = refl
judge-Misses target a (elsewhere b ne) = ground arith

module _ (env : Env) (self : Agent) (target : FduState) (uuid : Uuid) where
  -- From the world `w`, the loop sleeps after `n` reads that miss the state, and ends with
  -- `result` after one that does not, which leaves the world `w'`.
  pub data Waits (result : Outcome FduRecord) (w' : World env) : ℕ → World env → Type 0 where
    ends :
        {w : World env} {o : Outcome FduRecord}
        → get_instance env.zenoh env.codecs self.global uuid w ≡ (o, w')
        → Finds target o result
        → Waits result w' zero w
    goes_on :
        {n : ℕ} {w w₁ : World env} {o : Outcome FduRecord}
        → get_instance env.zenoh env.codecs self.global uuid w ≡ (o, w₁)
        → Misses target o
        → Waits result w' n (env.sleep w₁)
        → Waits result w' (suc n) w

  Settles-of :
      {result : Outcome FduRecord} {w' : World env} {n : ℕ} {w : World env}
      → IsAwaited target
      → Waits result w' n w
      → Settles env self target uuid result w' n w
  Settles-of a (ends {o = o} e f) = now o e (judge-Finds target a f)
  Settles-of a (goes_on {w₁ = w₁} {o = o} e m s) =
      later o w₁ e (judge-Misses target a m) (Settles-of a s)

  -- A loop that waits until an instance is defined, configured or running goes on after a read that
  -- finds no record of it, or one in another of these states, and ends after any other: with the
  -- record, where it is in the wanted state; with `HypervisorError`, where it is in an error; and
  -- with the read's own error or panic. With more fuel than the reads after which it goes on, it
  -- comes to that end.
  pub await_state-Waits :
      (fuel : ℕ) {result : Outcome FduRecord} {w' : World env} {n : ℕ} {w : World env}
      → IsAwaited target
      → Waits result w' n w
      → n < fuel
      → await_state env self target fuel uuid w ≡ (result, w')
  await_state-Waits fuel a s h = await_state_complete env self target uuid fuel (Settles-of a s) h
