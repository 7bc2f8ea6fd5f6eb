-- ===== src/Zenoh/Memory.antt =====
-- A store in memory: the assumptions on zenoh can be met. It serves the witnesses and the tests.

use mathlib.Core.List.Permᴰ
use fog.Prelude.{refl, ◌∷◌, List}
use fog.Sdk.Outcome.{ok}
use fog.Zenoh.{Zenoh, Entry}
use fog.Zenoh.Select.{select, without}
use fog.Zenoh.Reliable.{Reliable}

abbrev pub memory : Zenoh
memory = record {
  World = List Entry;
  path_try_from = λ k. ok k;
  selector_try_from = λ k. ok k;
  workspace = λ w. (ok tt, w);
  get = λ k w. (ok (select k w), w);
  put = λ k v w. (ok tt, (k, v) ∷ without k w);
  delete = λ k w. (ok tt, without k w);
}

abbrev pub memory_reliable : Reliable memory
memory_reliable = record {
  contents = λ w. w;
  path_ok = λ k p. refl;
  selector_ok = λ k. refl;
  workspace_ok = λ w. refl;
  get_answers = λ k w. (select k w, refl, Permᴰ.refl _);
  put_writes = λ k v w p. ((k, v) ∷ without k w, refl, Permᴰ.refl _);
  delete_removes = λ k w p. (without k w, refl, Permᴰ.refl _);
}
