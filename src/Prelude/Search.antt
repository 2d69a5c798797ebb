-- ===== src/Prelude/Search.antt =====
-- The first element that passes a test: what it passes, and where changes of the list leave it.
use mathlib.Core.Path.{◌≡◌, refl, sym, ap, ◌∙◌}
use mathlib.Core.Logic.{inl, inr}
use mathlib.Core.Bool.{Bool, true, false}
use mathlib.Core.Option.{Option, none, some}
use mathlib.Core.Option
use mathlib.Core.List.{List, [], ◌∷◌, ◌++◌, map}
use native.Mathlib.Omega.{arith}
use ai_interviewer.Prelude.Tests.{if◌then◌else◌, Bool-cases}
use ai_interviewer.Prelude.Lists.{find?, any}

module _ {A : Type 0} (p : A → Bool) where
  pub find?-hit : (x : A) (xs : List A) → p x ≡ true → find? p (x ∷ xs) ≡ some x
  find?-hit x xs h = ap (λ b. if b then some x else find? p xs) h

  pub find?-miss : (x : A) (xs : List A) → p x ≡ false → find? p (x ∷ xs) ≡ find? p xs
  find?-miss x xs h = ap (λ b. if b then some x else find? p xs) h

  pub found_passes : (xs : List A) {a : A} → find? p xs ≡ some a → p a ≡ true
  found_passes [] e = cc
  found_passes (x ∷ xs) {a} e = elim (Bool-cases (p x)) [
    | inl hit ↦
        let same : some x ≡ some a = sym (find?-hit x xs hit) ∙ e in
        sym (ap (λ (o : Option A). elim o [ none ↦ true | some y ↦ p y ]) same) ∙ hit
    | inr miss ↦ found_passes xs (sym (find?-miss x xs miss) ∙ e)
  ]

  -- A test that no element passes fails on what is found.
  pub found_fails :
      (q : A → Bool) (xs : List A) {a : A} → any q xs ≡ false → find? p xs ≡ some a → q a ≡ false
  found_fails q [] free e = cc
  found_fails q (x ∷ xs) {a} free e = elim (Bool-cases (p x)) [
    | inl hit ↦
        let same : some x ≡ some a = sym (find?-hit x xs hit) ∙ e in
        sym (ap (λ (o : Option A). elim o [ none ↦ false | some y ↦ q y ]) same)
        ∙ ground (arith, free)
    | inr miss ↦ found_fails q xs (ground (arith, free)) (sym (find?-miss x xs miss) ∙ e)
  ]

  -- A change that the test does not see.
  pub find?-map :
      (f : A → A)
      → ((x : A) → p (f x) ≡ p x)
      → (xs : List A) → find? p (map f xs) ≡ Option.map f (find? p xs)
  find?-map f same [] = refl
  find?-map f same (x ∷ xs) = elim (Bool-cases (p x)) [
    | inl hit ↦ rw (same x, hit) refl
    | inr miss ↦ rw (same x, miss) (find?-map f same xs)
  ]

  pub find?-append : (xs ys : List A) {a : A} → find? p xs ≡ some a → find? p (xs ++ ys) ≡ some a
  find?-append [] ys e = cc
  find?-append (x ∷ xs) ys e = elim (Bool-cases (p x)) [
    | inl hit ↦ find?-hit x (xs ++ ys) hit ∙ (sym (find?-hit x xs hit) ∙ e)
    | inr miss ↦ find?-miss x (xs ++ ys) miss ∙ find?-append xs ys (sym (find?-miss x xs miss) ∙ e)
  ]

  pub find?-append_free : (xs ys : List A) → any p xs ≡ false → find? p (xs ++ ys) ≡ find? p ys
  find?-append_free [] ys e = refl
  find?-append_free (x ∷ xs) ys e = elim (Bool-cases (p x)) [
    | inl hit ↦ absurd (ground (arith, hit, e))
    | inr miss ↦ find?-miss x (xs ++ ys) miss ∙ find?-append_free xs ys (ground (arith, miss, e))
  ]
