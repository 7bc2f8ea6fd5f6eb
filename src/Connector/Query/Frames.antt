-- ===== src/Connector/Query/Frames.antt =====
-- What a reliable store keeps when a value is put.
use mathlib.Core.List.{Permᴰ}
use mathlib.Core.List.Perm
use fog.Prelude.{[], ◌≡◌, ap, sym, ◌∙◌, subst, false}
use fog.Sdk.Outcome.{Outcome, ret}
use fog.Zenoh.{Zenoh, raw, Key, Codec, RoundTrips, key_matches, IsPath}
use fog.Zenoh.Select.{
  key_matches_refl, select-without_self, select-without_ne, select, without, select-without_beside,
  select-perm, without-perm,
}
use fog.Zenoh.Reliable.{Reliable}
use fog.Connector.Query.{get_one, put_value, delete_key, single}
use fog.Connector.Query.Laws.{
  get_one-put_value, get_one-put_value_ne, get_one-world, delete_key_lem, get_one-perm, get_one_lem,
  single_outcome, put_value_lem,
}

module _ {z : Zenoh} (r : Reliable z) {A : Type 0} {c : Codec A} {a : A}
    (lossless : RoundTrips c a) where
  -- A value that is put is got by its path.
  pub get_one-put_value_eq :
      (k : Key) (w : z.World)
      → IsPath k
      → (w' : z.World) × (put_value z c k a w ≡ (ret tt, w')) × (get_one z c k w' ≡ (ret a, w'))
  get_one-put_value_eq k w path =
      get_one-put_value r lossless k k w path (key_matches_refl k)
        (select-without_self k (r.contents w))

  -- What another selector finds stays.
  pub get_one-put_value_stays :
      {B : Type 0} (d : Codec B) (s k : Key) (w : z.World) {w' : z.World} {o : Outcome B}
      → IsPath k
      → key_matches s k ≡ false
      → put_value z c k a w ≡ (ret tt, w')
      → get_one z d s w ≡ (o, w)
      → get_one z d s w' ≡ (o, w')
  get_one-put_value_stays d s k w {w'} path miss put_eq got =
      let same : (get_one z d s w').0 ≡ (get_one z d s w).0 =
        subst (λ x. (get_one z d s x.1).0 ≡ (get_one z d s w).0) put_eq
          (get_one-put_value_ne r lossless d s k w path miss) in
      let found = same ∙ ap (λ x. x.0) got in λ i. (found i, get_one-world r d s w' i)

-- What a selector finds stays when a path that it does not match is deleted.
pub get_one-delete_key_stays :
    {z : Zenoh} (r : Reliable z) {B : Type 0} (d : Codec B) (s k : Key) (w : z.World) {w' : z.World}
    {o : Outcome B}
    → IsPath k
    → key_matches s k ≡ false
    → delete_key z k w ≡ (ret tt, w')
    → get_one z d s w ≡ (o, w)
    → get_one z d s w' ≡ (o, w')
get_one-delete_key_stays {z} r d s k w {w'} {o} path miss deleted got =
    let (w₁, e, p) = delete_key_lem r k w path in
    let same_world : w₁ ≡ w' = ap (λ x. x.1) (sym e ∙ deleted) in
    let now =
      get_one-perm r d s w₁ p
      ∙ ap (λ l. single d l w₁) (select-without_ne s k (r.contents w) path miss) in
    let before = ap (λ x. x.0) (sym (get_one_lem r d s w) ∙ got) in
    let found = ap (λ x. x.0) now ∙ single_outcome d (select s (r.contents w)) w₁ w ∙ before in
    subst (λ v. get_one z d s v ≡ (o, v)) same_world (λ i. (found i, get_one-world r d s w₁ i))

-- After a value is put under a path that a selector does not match, the selector still finds
-- nothing beside the path `k`.
pub alone-put_value_beside :
    {z : Zenoh} (r : Reliable z) {A : Type 0} {c : Codec A} {a : A} (s k j : Key) (w : z.World)
    {w' : z.World}
    → RoundTrips c a
    → IsPath j
    → key_matches s j ≡ false
    → put_value z c j a w ≡ (ret tt, w')
    → select s (without k (r.contents w)) ≡ []
    → select s (without k (r.contents w')) ≡ []
alone-put_value_beside r s k j w {w'} lossless path miss put_eq alone =
    let (b, back, w₁, e, p) = put_value_lem r lossless j w path in
    let none_left = select-without_beside s k j (raw b) (r.contents w) miss alone in
    let same = select-perm s (without-perm k p) in
    subst (λ v. select s (without k (r.contents v)) ≡ []) (ap (λ x. x.1) (sym e ∙ put_eq))
      (Perm.eq-nil ∣ subst (Permᴰ (select s (without k (r.contents w₁)))) none_left same ∣₁)
