-- ===== src/Sdk/Outcome/Laws.antt =====
-- A block that returns has returned at each of its steps.
use fog.Prelude.{Option, none, some, String, ◌≡◌, refl, sym, ap, ◌∙◌}
use fog.Sdk.Outcome.Locked.{outside}
use fog.Sdk.Fresult.{FError}
use fog.Sdk.Outcome.{
  ok_or, Result, ok, err, Call, settle_rpc, rpc_call, Outcome, ret, fail, panic, hang, Task, expect,
  expecting, resume, pure, ◌>>=◌, ◌>>◌,
}

pub ret-inj : {A : Type 0} {a b : A} → ret a ≡ ret b → b ≡ a
ret-inj h = cc h

pub ok_or-eq_ret :
    {W A : Type 0} (o : Option A) (e : FError) (w : W) {a : A} {w' : W}
    → ok_or o e w ≡ (ret a, w')
    → (o ≡ some a) × (w ≡ w')
ok_or-eq_ret none e w h = cc (ap (λ (x : Outcome _ × _). x.0) h)
ok_or-eq_ret (some b) e w h = (ap some (sym (ret-inj (λ i. (h i).0))), λ i. (h i).1)

module _ {W A B : Type 0} where
  resume-eq_ret :
      (o : Outcome A) (f : A → Task W B) (w : W) {b : B} {w' : W}
      → resume o f w ≡ (ret b, w')
      → (a : A) × (o ≡ ret a) × (f a w ≡ (ret b, w'))
  resume-eq_ret (ret a) f w h = (a, refl, h)
  resume-eq_ret (fail e) f w h = cc (ap (λ (r : Outcome B × W). r.0) h)
  resume-eq_ret panic f w h = cc (ap (λ (r : Outcome B × W). r.0) h)
  resume-eq_ret hang f w h = cc (ap (λ (r : Outcome B × W). r.0) h)

  pub >>=-eq_ret :
      (m : Task W A) (f : A → Task W B) (w : W) {b : B} {w' : W}
      → (m >>= f) w ≡ (ret b, w')
      → (a : A) × (w₁ : W) × (m w ≡ (ret a, w₁)) × (f a w₁ ≡ (ret b, w'))
  >>=-eq_ret m f w h =
      let (a, e, rest) = resume-eq_ret (m w).0 f (m w).1 h in
      (a, (m w).1, λ i. (e i, (m w).1), rest)

module _ {W A : Type 0} where
  pub expect-eq_ret :
      (r : Result String A) (w : W) {a : A} {w' : W}
      → expect r w ≡ (ret a, w')
      → (r ≡ ok a) × (w ≡ w')
  expect-eq_ret (ok b) w h = (ap ok (sym (ret-inj (ap (λ x. x.0) h))), ap (λ x. x.1) h)
  expect-eq_ret (err e) w h = cc (ap (λ (x : Outcome A × W). x.0) h)

  pub expecting-eq_ret :
      (c : Call W A) (w : W) {a : A} {w' : W} → expecting c w ≡ (ret a, w') → c w ≡ (ok a, w')
  expecting-eq_ret c w h = let (is, there) = expect-eq_ret (c w).0 (c w).1 h in λ i. (is i, there i)

-- Whatever `m` returns has the property `P`.
pub record Returns {W A : Type 0} (P : A → Type 0) (m : Task W A) : Type 0 where
  pub at : (w : W) {a : A} {w' : W} → m w ≡ (ret a, w') → P a

-- What a block returns, its last step returns.
pub Returns-bind :
    {W A B : Type 0} (P : B → Type 0) (m : Task W A) (f : A → Task W B)
    → ((a : A) → Returns P (f a))
    → Returns P (m >>= f)
Returns-bind P m f k = record {
  at = λ w h. let (a, w₁, _, rest) = >>=-eq_ret m f w h in (k a).at w₁ rest;
}

settle_rpc-eq_ret :
    {A : Type 0} (r : Result String (Result FError A)) {a : A}
    → settle_rpc r ≡ ret a
    → r ≡ ok (ok a)
settle_rpc-eq_ret (ok (ok b)) h = cc h
settle_rpc-eq_ret (ok (err e)) h = cc h
settle_rpc-eq_ret (err e) h = cc h

-- A remote call that returns has been answered with what it returns.
pub rpc_call-eq_ret :
    {W A : Type 0} (c : Call W (Result FError A)) (w : W) {a : A} {w' : W}
    → rpc_call c w ≡ (ret a, w')
    → c w ≡ (ok (ok a), w')
rpc_call-eq_ret c w h = λ i. (settle_rpc-eq_ret (c w).0 (λ j. (h j).0) i, (h i).1)

-- Three remote calls, the last two of which are about what the first has returned.
pub three_calls-eq_ret :
    {W A B K V : Type 0} (of : A → K) (c : Call W (Result FError A))
    (c' : K → Call W (Result FError V)) (c'' : K → Call W (Result FError A)) (last : A → B) (w : W)
    {b : B} {w' : W}
    → (rpc_call c >>= (λ first.
          rpc_call (c' (of first)) >> (rpc_call (c'' (of first)) >>= (λ third. pure (last third)))))
        w
      ≡ (ret b, w')
    → (first : A) × (second : V) × (third : A) × (w₁ w₂ : W) × (c w ≡ (ok (ok first), w₁))
      × (c' (of first) w₁ ≡ (ok (ok second), w₂))
      × (c'' (of first) w₂ ≡ (ok (ok third), w'))
      × (b ≡ last third)
three_calls-eq_ret of c c' c'' last w h =
    let (first, w₁, e₁, h₁) = >>=-eq_ret (rpc_call c) _ w h in
    let (second, w₂, e₂, h₂) = >>=-eq_ret (rpc_call (c' (of first))) _ w₁ h₁ in
    let (third, w₃, e₃, h₃) = >>=-eq_ret (rpc_call (c'' (of first))) _ w₂ h₂ in
    (
      first,
      second,
      third,
      w₁,
      w₂,
      rpc_call-eq_ret c w e₁,
      rpc_call-eq_ret (c' (of first)) w₁ e₂,
      rpc_call-eq_ret (c'' (of first)) w₂ e₃ ∙ (λ i. (ok (ok third), (h₃ i).1)),
      ret-inj (λ i. (h₃ i).0),
    )

pub >>=-ret :
    {W A B : Type 0} (m : Task W A) (f : A → Task W B) (w : W) {a : A} {w₁ : W}
    → m w ≡ (ret a, w₁)
    → (m >>= f) w ≡ f a w₁
>>=-ret m f w h = ap (λ x. resume x.0 f x.1) h

pub >>=-panic :
    {W A B : Type 0} (m : Task W A) (f : A → Task W B) (w : W) {w₁ : W}
    → m w ≡ (panic, w₁)
    → (m >>= f) w ≡ (panic, w₁)
>>=-panic m f w h = ap (λ x. resume x.0 f x.1) h

pub rpc_call-ret :
    {W A : Type 0} (c : Call W (Result FError A)) (w : W) {a : A} {w' : W}
    → c w ≡ (ok (ok a), w')
    → rpc_call c w ≡ (ret a, w')
rpc_call-ret c w h = ap (λ x. (settle_rpc x.0, x.1)) h

-- Three remote calls that are answered so, by what is made of the last answer.
pub three_calls-ret :
    {W A B K V : Type 0} (of : A → K) (c : Call W (Result FError A))
    (c' : K → Call W (Result FError V)) (c'' : K → Call W (Result FError A)) (last : A → B)
    (w w₁ w₂ : W) {first : A} {second : V} {third : A} {w' : W}
    → c w ≡ (ok (ok first), w₁)
    → c' (of first) w₁ ≡ (ok (ok second), w₂)
    → c'' (of first) w₂ ≡ (ok (ok third), w')
    → (rpc_call c
          >>= (λ a. rpc_call (c' (of a)) >> (rpc_call (c'' (of a)) >>= (λ b. pure (last b)))))
        w
      ≡ (ret (last third), w')
three_calls-ret of c c' c'' last w w₁ w₂ {first} e₁ e₂ e₃ =
    >>=-ret (rpc_call c) _ w (rpc_call-ret c w e₁)
    ∙ (>>=-ret (rpc_call (c' (of first))) _ w₁ (rpc_call-ret (c' (of first)) w₁ e₂)
        ∙ >>=-ret (rpc_call (c'' (of first))) _ w₂ (rpc_call-ret (c'' (of first)) w₂ e₃))

-- A call that is made outside the lock leaves the value behind it.
pub outside-eq_ret :
    {S W A : Type 0} (m : Task W A) (s : S) (w : W) {a : A} {s' : S} {w' : W}
    → outside m (s, w) ≡ (ret a, (s', w'))
    → (m w ≡ (ret a, w')) × (s' ≡ s)
outside-eq_ret m s w h = (λ i. ((h i).0, (h i).1.1), sym (λ i. (h i).1.0))
