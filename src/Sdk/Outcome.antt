-- ===== src/Sdk/Outcome.antt =====
-- How an async function of the program ends, and how fallible calls are sequenced.
-- `Result` is Rust's; a call of the program has an `Outcome`: it returns `Ok` (`ret`) or `Err`
-- (`fail`), it panics (`unwrap` on `None`, an index out of range), or it is still in a loop when
-- the fuel of the model is used up (`hang`).
pub mod Laws
pub mod Locked
use fog.Prelude.{String, Option, none, some}
use fog.Sdk.Fresult.{FError, from_zerror, from_zrpc_error, from_codec_error}

pub data Result (E A : Type 0) : Type 0 where
  ok : A → Result E A
  err : E → Result E A

pub data Outcome (A : Type 0) : Type 0 where
  ret : A → Outcome A
  fail : FError → Outcome A
  panic hang : Outcome A

-- A call in a world `W`, which it and everything that runs beside it may change.
abbrev pub Task : Type 0 → Type 0 → Type 0
Task W A = W → Outcome A × W

-- A call of another crate: its error is a text.
abbrev pub Call : Type 0 → Type 0 → Type 0
Call W A = W → Result String A × W

module _ {A : Type 0} where
  abbrev settle : Result FError A → Outcome A
  settle (ok a) = ret a
  settle (err e) = fail e

  abbrev settle_z : Result String A → Outcome A
  settle_z (ok a) = ret a
  settle_z (err e) = fail (from_zerror e)

  abbrev settle_codec : Result String A → Outcome A
  settle_codec (ok a) = ret a
  settle_codec (err e) = fail (from_codec_error e)

  abbrev pub settle_rpc : Result String (Result FError A) → Outcome A
  settle_rpc (ok r) = settle r
  settle_rpc (err e) = fail (from_zrpc_error e)

module _ {W A : Type 0} where
  abbrev pub pure : A → Task W A
  pure a w = (ret a, w)

  abbrev pub raise : FError → Task W A
  raise e w = (fail e, w)

  abbrev pub panics : Task W A
  panics w = (panic, w)

  -- the rest of a block, by the outcome of its first call
  abbrev pub resume : {B : Type 0} → Outcome A → (A → Task W B) → Task W B
  resume (ret a) f w = f a w
  resume (fail e) f w = (fail e, w)
  resume panic f w = (panic, w)
  resume hang f w = (hang, w)

  -- `option.ok_or(e)?`
  abbrev pub ok_or : Option A → FError → Task W A
  ok_or none e = raise e
  ok_or (some a) e = pure a

  -- `option.unwrap()`
  abbrev pub unwrap : Option A → Task W A
  unwrap none = panics
  unwrap (some a) = pure a

  -- `result.unwrap()`
  abbrev pub expect : Result String A → Task W A
  expect (ok a) w = (ret a, w)
  expect (err e) w = (panic, w)

  -- `call.await.unwrap()`
  abbrev pub expecting : Call W A → Task W A
  expecting c w = let (r, w') = c w in expect r w'

  -- `call.await?` on a call of zenoh
  abbrev pub zenoh_call : Call W A → Task W A
  zenoh_call c w = let (r, w') = c w in (settle_z r, w')

  -- `?` on a value that needs no waiting: a parsed path, an encoded or decoded value
  abbrev pub zenoh_value : Result String A → Task W A
  zenoh_value r w = (settle_z r, w)

  abbrev pub codec_value : Result String A → Task W A
  codec_value r w = (settle_codec r, w)

  -- `call.await??` on a remote call: the first `?` is for the transport, the second for the callee
  abbrev pub rpc_call : Call W (Result FError A) → Task W A
  rpc_call c w = let (r, w') = c w in (settle_rpc r, w')

infixl 5 ◌>>=◌ ◌>>◌
abbrev pub ◌>>=◌ : {W A B : Type 0} → Task W A → (A → Task W B) → Task W B
◌>>=◌ m f w = let (o, w') = m w in resume o f w'

abbrev pub ◌>>◌ : {W A B : Type 0} → Task W A → Task W B → Task W B
m >> k = m >>= λ _. k
