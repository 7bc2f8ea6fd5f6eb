-- ===== src/Connector/Query/Laws.antt =====
-- What the steps do on a reliable store.
use mathlib.Core.List.{Permᴰ}
use mathlib.Core.List.Perm
use fog.Prelude.{ℕ, ◌≡◌, refl, ap, sym, subst, ◌∙◌, true, false, List, [], ◌∷◌}
use fog.Sdk.Fresult.{FError}
use fog.Sdk.Outcome.{Outcome, ret, fail, ok}
use fog.Sdk.Outcome.Laws.{>>=-eq_ret}
use fog.Zenoh.{Zenoh, Key, Entry, raw, other, Codec, RoundTrips, key_matches, IsPath}
use fog.Zenoh.Select.{select, without, select-cons, select-perm}
use fog.Zenoh.Select.{
  select-without_self, select-without_ne, select-without_nil, without-perm, without-cons_self,
}
use fog.Zenoh.Reliable.{Reliable}
use fog.Connector.Query.{decode, decode_all, get_all, single, query, get_one, put_value, delete_key}

-- How many answers there are does not depend on their order, nor does the only one.
pub single-perm :
    {W A : Type 0} (c : Codec A) {l m : List Entry} (w : W)
    → Permᴰ l m
    → single c l w ≡ single c m w
unfolding single
single-perm c w Permᴰ.nil = refl
single-perm c w (Permᴰ.cons {l₁ = []} {l₂ = []} e p) = ap (λ (d : Entry). decode c d.1 w) e
single-perm c w (Permᴰ.cons {l₁ = []} {l₂ = y ∷ m} e p) = cc (Perm.nil-eq ∣ p ∣₁)
single-perm c w (Permᴰ.cons {l₁ = x ∷ l} {l₂ = []} e p) = cc (Perm.eq-nil ∣ p ∣₁)
single-perm c w (Permᴰ.cons {l₁ = x ∷ l} {l₂ = y ∷ m} e p) = refl
single-perm c w (Permᴰ.swap e d) = refl
single-perm c w (Permᴰ.trans p q) = single-perm c w p ∙ single-perm c w q

-- The outcome does not depend on the world.
pub single_outcome :
    {W A : Type 0} (c : Codec A) (l : List Entry) (w w' : W) → (single c l w).0 ≡ (single c l w').0
unfolding single decode
single_outcome c [] w w' = refl
single_outcome c ((k, raw buf) ∷ []) w w' = refl
single_outcome c ((k, other) ∷ []) w w' = refl
single_outcome c (kv ∷ kv' ∷ rest) w w' = refl

single-world : {W A : Type 0} (c : Codec A) (l : List Entry) (w : W) → (single c l w).1 ≡ w
unfolding single decode
single-world c [] w = refl
single-world c ((k, raw buf) ∷ []) w = refl
single-world c ((k, other) ∷ []) w = refl
single-world c (kv ∷ kv' ∷ rest) w = refl

decode_all-eq_nil :
    {W A : Type 0} (c : Codec A) (l : List Entry) (w : W) {w' : W}
    → decode_all c l w ≡ (ret [], w')
    → l ≡ []
unfolding decode_all
decode_all-eq_nil c [] w h = refl
decode_all-eq_nil c (kv ∷ rest) w h =
    let (info, w₁, _, h₁) = >>=-eq_ret (decode c kv.1) _ w h in
    let (infos, w₂, _, h₂) = >>=-eq_ret (decode_all c rest) _ w₁ h₁ in
    cc (ap (λ (o : Outcome (List _) × _). o.0) h₂)

module _ {z : Zenoh} (r : Reliable z) where
  -- A query leaves the world alone and answers with the entries that the selector matches.
  pub query_lem :
      (k : Key) (w : z.World)
      → (ds : List Entry) × (query z k w ≡ (ret ds, w)) × Permᴰ ds (select k (r.contents w))
  unfolding query
  query_lem k w =
      let (ds, e, p) = r.get_answers k w in (ds, rw (r.selector_ok k, r.workspace_ok w, e), p)

  pub get_one_lem :
      {A : Type 0} (c : Codec A) (k : Key) (w : z.World)
      → get_one z c k w ≡ single c (select k (r.contents w)) w
  unfolding get_one
  get_one_lem c k w = let (ds, e, p) = query_lem k w in rw e (single-perm c w p)

  -- Getting does not change the world.
  pub get_one-world : {A : Type 0} (c : Codec A) (k : Key) (w : z.World) → (get_one z c k w).1 ≡ w
  get_one-world c k w = ap (λ o. o.1) (get_one_lem c k w) ∙ single-world c _ w

  -- The same where the contents are known up to their order.
  pub get_one-perm :
      {A : Type 0} (c : Codec A) (k : Key) (w : z.World) {l : List Entry}
      → Permᴰ (r.contents w) l
      → get_one z c k w ≡ single c (select k l) w
  get_one-perm c k w p = get_one_lem c k w ∙ single-perm c w (select-perm k p)

  -- A deleted path is not found, and the rest of the store is what it was.
  pub delete_key_lem :
      (k : Key) (w : z.World)
      → IsPath k
      → (w' : z.World) × (delete_key z k w ≡ (ret tt, w'))
        × Permᴰ (r.contents w') (without k (r.contents w))
  unfolding delete_key
  delete_key_lem k w path =
      let (w', e, p) = r.delete_removes k w path in
      (w', rw (r.path_ok k path, r.workspace_ok w, e), p)

  module _ {A : Type 0} {c : Codec A} {a : A} (lossless : RoundTrips c a) where
    pub put_value_lem :
        (k : Key) (w : z.World)
        → IsPath k
        → (b : List ℕ) × (c.deserialize b ≡ ok a)
          × (w' : z.World) × (put_value z c k a w ≡ (ret tt, w'))
          × Permᴰ (r.contents w') ((k, raw b) ∷ without k (r.contents w))
    unfolding put_value
    put_value_lem k w path =
        let (w', e, p) = r.put_writes k (raw lossless.buffer) w path in
        (
          lossless.buffer,
          lossless.back,
          w',
          rw (r.path_ok k path, r.workspace_ok w, lossless.written, e),
          p,
        )

    -- A value that is put can be got by a selector that matches its path and no other entry.
    pub get_one-put_value :
        (s k : Key) (w : z.World)
        → IsPath k
        → key_matches s k ≡ true
        → select s (without k (r.contents w)) ≡ []
        → (w' : z.World) × (put_value z c k a w ≡ (ret tt, w')) × (get_one z c s w' ≡ (ret a, w'))
    unfolding single decode
    get_one-put_value s k w path hit alone =
        let (b, back, w', e, p) = put_value_lem k w path in
        (w', e, get_one-perm c s w' p ∙ rw (select-cons, hit, alone, back))

    -- After the value is put, the selector matches no other entry either.
    pub alone-put_value :
        (s k : Key) (w : z.World)
        → IsPath k
        → select s (without k (r.contents w)) ≡ []
        → select s (without k (r.contents (put_value z c k a w).1)) ≡ []
    alone-put_value s k w path alone =
        let (b, back, w', e, p) = put_value_lem k w path in
        let same = select-perm s (without-perm k p) in
        let gone : select s (without k ((k, raw b) ∷ without k (r.contents w))) ≡ [] =
          rw (without-cons_self, select-without_nil s k _ alone) in
        rw e (Perm.eq-nil ∣ subst (Permᴰ (select s (without k (r.contents w')))) gone same ∣₁)

    -- Reads through a selector that does not match the path answer as before.
    pub get_one-put_value_ne :
        {B : Type 0} (d : Codec B) (s k : Key) (w : z.World)
        → IsPath k
        → key_matches s k ≡ false
        → (get_one z d s (put_value z c k a w).1).0 ≡ (get_one z d s w).0
    get_one-put_value_ne d s k w path miss =
        let (b, back, w', e, p) = put_value_lem k w path in
        rw
          (
            e,
            get_one-perm d s w' p,
            get_one_lem d s w,
            select-cons,
            miss,
            select-without_ne s k (r.contents w) path miss,
          )
          (single_outcome d (select s (r.contents w)) w' w)

  -- A path that is deleted is not found any more.
  pub get_one-delete_key :
      {A : Type 0} (c : Codec A) (k : Key) (w : z.World)
      → IsPath k
      → (w' : z.World) × (delete_key z k w ≡ (ret tt, w'))
        × (get_one z c k w' ≡ (fail FError.not_found, w'))
  unfolding single
  get_one-delete_key c k w path =
      let (w', e, p) = delete_key_lem k w path in
      (w', e, get_one-perm c k w' p ∙ rw select-without_self)

  -- A value that is put is got by the selectors that match it alone, and after it is deleted they
  -- find nothing.
  pub put_get_delete :
      {A : Type 0} {c : Codec A} (s k : Key) (a : A) (w : z.World)
      → RoundTrips c a
      → IsPath k
      → key_matches s k ≡ true
      → select s (without k (r.contents w)) ≡ []
      → (w₁ w' : z.World) × (put_value z c k a w ≡ (ret tt, w₁))
        × (get_one z c s w₁ ≡ (ret a, w₁))
        × (delete_key z k w₁ ≡ (ret tt, w'))
        × (get_one z c s w' ≡ (fail FError.not_found, w'))
  unfolding single decode
  put_get_delete {c} s k a w lossless path hit alone =
      let (b, back, w₁, e, p) = put_value_lem lossless k w path in
      let (w', e', q) = delete_key_lem k w₁ path in
      let gone = Permᴰ.trans q (without-perm k p) in
      (
        w₁,
        w',
        e,
        get_one-perm c s w₁ p ∙ rw (select-cons, hit, alone, back),
        e',
        get_one-perm c s w' gone ∙ rw (without-cons_self, select-without_nil s k _ alone),
      )

  -- When every answer decodes and there is none, the selector matches no entry.
  pub get_all-eq_nil :
      {A : Type 0} (c : Codec A) (k : Key) (w : z.World) {w' : z.World}
      → get_all z c k w ≡ (ret [], w')
      → select k (r.contents w) ≡ []
  unfolding get_all
  get_all-eq_nil c k w {w'} h =
      let (ds, e, p) = query_lem k w in
      let none_left = decode_all-eq_nil c ds w (rw e at h) in
      sym (Perm.nil-eq ∣ subst (λ l. Permᴰ l (select k (r.contents w))) none_left p ∣₁)
