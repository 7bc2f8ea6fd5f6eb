-- ===== src/Zenoh/Select.antt =====
-- The entries that a selector matches, and the others.
use mathlib.Core.Bool.{Bool-discrete}
use mathlib.Core.List.{filter, Permᴰ}
use mathlib.Core.List.Permᴰ
use text.Mathlib.TextPositions.{eq_refl}
use fog.Prelude.{◌≡◌, refl, ap, ◌∙◌, true, false, List, [], ◌∷◌, arith, eq_iff, if◌then◌else◌}
use fog.Zenoh.{Chunk, word, id, star, Key, Value, Entry, key_matches, chunk_matches, IsPath}

abbrev pub select : Key → List Entry → List Entry
select k = filter (λ e. Bool-discrete (key_matches k e.0) true)

abbrev pub without : Key → List Entry → List Entry
without k = filter (λ e. Bool-discrete (key_matches k e.0) false)

chunk_matches_refl : (c : Chunk) → chunk_matches c c ≡ true
chunk_matches_refl (word s) = eq_refl s
chunk_matches_refl (id u) = ground arith
chunk_matches_refl star = refl

pub key_matches_refl : (k : Key) → key_matches k k ≡ true
key_matches_refl [] = refl
key_matches_refl (c ∷ k) = ground (arith, chunk_matches_refl c, key_matches_refl k)

-- A path matches itself alone.
pub eq_of_key_matches : (k j : Key) → IsPath k → key_matches k j ≡ true → k ≡ j
eq_of_key_matches [] [] p h = refl
eq_of_key_matches [] (d ∷ j) p h = cc
eq_of_key_matches (c ∷ k) [] p h = cc
eq_of_key_matches (word s ∷ k) (word t ∷ j) p h =
    ground (arith, eq_iff s t, eq_of_key_matches k j p)
eq_of_key_matches (id a ∷ k) (id b ∷ j) p h = ground (arith, eq_of_key_matches k j p)
eq_of_key_matches (star ∷ k) (d ∷ j) p h = absurd p
eq_of_key_matches (word s ∷ k) (id b ∷ j) p h = cc
eq_of_key_matches (word s ∷ k) (star ∷ j) p h = cc
eq_of_key_matches (id a ∷ k) (word t ∷ j) p h = cc
eq_of_key_matches (id a ∷ k) (star ∷ j) p h = cc

pub select-without_self : (k : Key) (l : List Entry) → select k (without k l) ≡ []
select-without_self k [] = refl
select-without_self k (e ∷ l) = ground (arith, select-without_self k l)

-- Taking away the path `k` leaves alone what a selector that does not match `k` finds.
pub select-without_ne :
    (s k : Key) (l : List Entry)
    → IsPath k
    → key_matches s k ≡ false
    → select s (without k l) ≡ select s l
select-without_ne s k [] p h = refl
select-without_ne s k (e ∷ l) p h =
    ground (arith, select-without_ne s k l p h, eq_of_key_matches k e.0 p, ap (key_matches s))

-- A shorter list of finds: what is gone for `s` stays gone.
pub select-without_nil :
    (s k : Key) (l : List Entry) → select s l ≡ [] → select s (without k l) ≡ []
select-without_nil s k [] h = refl
select-without_nil s k (e ∷ l) h = ground (arith, select-without_nil s k l)

pub select-cons :
    (s k : Key) (v : Value) (l : List Entry)
    → select s ((k, v) ∷ l) ≡ (if key_matches s k then (k, v) ∷ select s l else select s l)
select-cons s k v l = ground arith

pub select-perm : (s : Key) {l m : List Entry} → Permᴰ l m → Permᴰ (select s l) (select s m)
select-perm s p = Permᴰ.filter (λ e. Bool-discrete (key_matches s e.0) true) p

pub without-perm : (k : Key) {l m : List Entry} → Permᴰ l m → Permᴰ (without k l) (without k m)
without-perm k p = Permᴰ.filter (λ e. Bool-discrete (key_matches k e.0) false) p

pub without-cons_self :
    (k : Key) (v : Value) (l : List Entry) → without k ((k, v) ∷ l) ≡ without k l
without-cons_self k v l = ground (arith, key_matches_refl k)

without_comm : (k j : Key) (l : List Entry) → without k (without j l) ≡ without j (without k l)
without_comm k j [] = refl
without_comm k j (e ∷ l) = ground (arith, without_comm k j l)

select-without_cons :
    (s k j : Key) (v : Value) (l : List Entry)
    → key_matches s j ≡ false
    → select s (without k ((j, v) ∷ l)) ≡ select s (without k l)
select-without_cons s k j v l miss = ground arith

-- An entry that a selector does not match can be written, and the selector still finds nothing
-- beside the path `k`.
pub select-without_beside :
    (s k j : Key) (v : Value) (l : List Entry)
    → key_matches s j ≡ false
    → select s (without k l) ≡ []
    → select s (without k ((j, v) ∷ without j l)) ≡ []
select-without_beside s k j v l miss alone =
    select-without_cons s k j v (without j l) miss
    ∙ ap (select s) (without_comm k j l)
    ∙ select-without_nil s j (without k l) alone
