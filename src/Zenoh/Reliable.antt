-- ===== src/Zenoh/Reliable.antt =====
-- What the connector relies on in zenoh while nothing fails and no one else writes: the world
-- holds a set of entries, a `get` answers with those that its selector matches, in any order, and
-- a `put` or a `delete` of a path changes the entry of that path and no other.
use mathlib.Core.List.{Permᴰ}
use fog.Prelude.{◌≡◌, ◌∷◌, List}
use fog.Sdk.Outcome.{ok}
use fog.Zenoh.{Zenoh, Key, Value, Entry, IsPath}
use fog.Zenoh.Select.{select, without}

pub record Reliable (z : Zenoh) : Type 0 where
  pub contents : z.World → List Entry
  pub path_ok : (k : Key) → IsPath k → z.path_try_from k ≡ ok k
  pub selector_ok : (k : Key) → z.selector_try_from k ≡ ok k
  pub workspace_ok : (w : z.World) → z.workspace w ≡ (ok tt, w)
  pub get_answers :
      (k : Key) (w : z.World)
      → (ds : List Entry) × (z.get k w ≡ (ok ds, w)) × Permᴰ ds (select k (contents w))
  pub put_writes :
      (k : Key) (v : Value) (w : z.World)
      → IsPath k
      → (w' : z.World) × (z.put k v w ≡ (ok tt, w'))
        × Permᴰ (contents w') ((k, v) ∷ without k (contents w))
  pub delete_removes :
      (k : Key) (w : z.World)
      → IsPath k
      → (w' : z.World) × (z.delete k w ≡ (ok tt, w')) × Permᴰ (contents w') (without k (contents w))
