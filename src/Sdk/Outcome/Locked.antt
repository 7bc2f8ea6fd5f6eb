-- ===== src/Sdk/Outcome/Locked.antt =====
-- Calls that hold a lock: the value behind it is part of their world, so what they wrote stays
-- written when they fail later.
use fog.Sdk.Outcome.{Task, ret}

module _ {S W : Type 0} where
  -- A call that does not touch the value behind the lock.
  abbrev pub outside : {A : Type 0} → Task W A → Task (S × W) A
  outside m (s, w) = let (o, w') = m w in (o, (s, w'))

  abbrev pub modify : (S → S) → Task (S × W) Unit
  modify f (s, w) = (ret tt, (f s, w))
