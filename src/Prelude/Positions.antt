-- ===== src/Prelude/Positions.antt =====
-- The first element of a list that equals a value, by a Boolean equality, and its removal.
use fog.Prelude.Tests.{if◌then◌else◌, ◌==◌, Bool-cases}
use mathlib.Core.Path.{◌≡◌, refl, ap, sym, subst, ◌∙◌}
use mathlib.Core.Logic.{◌≢◌, inl, inr}
use mathlib.Core.Bool.{Bool, true}
use native.Mathlib.Omega.{arith}
use mathlib.Core.Option.{Option, none, some}
use mathlib.Core.List.{List, [], ◌∷◌, ◌++◌}
use Prim.Native.Nat.{ℕ, zero, suc}

abbrev next : Option ℕ → Option ℕ
next none = none
next (some p) = some (suc p)

module _ {ℓ} {A : Type ℓ} where
  -- `iter().position(|x| x == a)`
  unfoldable pub position : (A → A → Bool) → A → List A → Option ℕ
  position same a [] = none
  position same a (b ∷ rest) =
      let later = next (position same a rest) in if same b a then some zero else later

  -- `Vec::remove`, for an index in range
  unfoldable pub remove : ℕ → List A → List A
  remove p [] = []
  remove zero (b ∷ rest) = rest
  remove (suc p) (b ∷ rest) = b ∷ remove p rest

pub ==-refl : (n : ℕ) → (n == n) ≡ true
==-refl n = ground arith

next-eq_none : (o : Option ℕ) → next o ≡ none → o ≡ none
next-eq_none none h = refl
next-eq_none (some p) h = cc

-- What is pushed to the end of a list that does not have it is found there, and its removal leaves
-- the list.
pub position-push :
    (a : ℕ) (l : List ℕ)
    → position ◌==◌ a l ≡ none
    → (p : ℕ) × (position ◌==◌ a (l ++ (a ∷ [])) ≡ some p) × (remove p (l ++ (a ∷ [])) ≡ l)
unfolding position remove
position-push a [] fresh = (zero, rw (==-refl a), refl)
position-push a (b ∷ l) fresh = elim (Bool-cases (b == a)) [
  | inl here ↦ cc (rw here at fresh)
  | inr there ↦
      let (p, found, gone) = position-push a l (next-eq_none _ (rw there at fresh)) in
      (suc p, rw (there, found), ap (λ m. b ∷ m) gone)
]

next-eq_some : (o : Option ℕ) {p : ℕ} → next o ≡ some p → (q : ℕ) × (o ≡ some q) × (p ≡ suc q)
next-eq_some none h = cc h
next-eq_some (some q) h = (q, refl, cc h)

==-sound : (m n : ℕ) → (m == n) ≡ true → m ≡ n
==-sound m n h = ground arith

-- The removal of one value leaves the others in the list.
pub position-remove :
    (a b : ℕ) (l : List ℕ) {p : ℕ}
    → a ≢ b
    → position ◌==◌ a l ≡ some p
    → position ◌==◌ b l ≢ none
    → position ◌==◌ b (remove p l) ≢ none
unfolding position remove
position-remove a b [] ne found there = cc found
position-remove a b (c ∷ l) {p} ne found there = elim (Bool-cases (c == a)) [
  | inl here ↦ elim (Bool-cases (c == b)) [
    | inl both ↦ absurd (ne (sym (==-sound c a here) ∙ ==-sound c b both))
    | inr other ↦
        let first : zero ≡ p = cc (rw here at found) in
        subst (λ q. position ◌==◌ b (remove q (c ∷ l)) ≢ none) first
          (λ gone. there (rw (other, gone)))
  ]
  | inr beside ↦
      let (q, at, is) = next-eq_some _ (rw beside at found) in
      let kept : position ◌==◌ b (c ∷ remove q l) ≢ none = elim (Bool-cases (c == b)) [
        | inl same ↦ λ gone. cc (rw same at gone)
        | inr other ↦ λ gone.
            position-remove a b l ne at (λ e. there (rw (other, e)))
              (next-eq_none _ (rw other at gone))
      ] in
      subst (λ x. position ◌==◌ b (remove x (c ∷ l)) ≢ none) (sym is) kept
]
