-- ===== src/Prelude/Select.antt =====
-- Laws of `select` and `All`: what a comprehension with a test keeps.
use mathlib.Core.Path.{◌≡◌, refl, ap, subst}
use mathlib.Core.Logic.{inl, inr}
use mathlib.Core.Bool.{Bool, true, false, ◌&&◌}
use mathlib.Core.List.{List, [], ◌∷◌, ◌++◌}
use native.Mathlib.Omega.{arith}
use agent_graph_engine.Prelude.Tests.{Bool-cases}
use agent_graph_engine.Prelude.Lists.{select, All, any}

module _ {ℓ} {A : Type ℓ} where
  pub All-map {κ} : (P Q : A → Type κ) (xs : List A) → ((x : A) → P x → Q x) → All P xs → All Q xs
  All-map P Q [] f h = tt
  All-map P Q (x ∷ xs) f h = (f x h.0, All-map P Q xs f h.1)

  pub All-both {κ} :
      (P Q : A → Type κ) (xs : List A) → All P xs → All Q xs → All (λ x. P x × Q x) xs
  All-both P Q [] h k = tt
  All-both P Q (x ∷ xs) h k = ((h.0, k.0), All-both P Q xs h.1 k.1)

  pub All-split {κ} : (P : A → Type κ) (xs ys : List A) → All P (xs ++ ys) → All P xs × All P ys
  All-split P [] ys h = (tt, h)
  All-split P (x ∷ xs) ys h = let (a, b) = All-split P xs ys h.1 in ((h.0, a), b)

  pub select-append :
      (p : A → Bool) (xs ys : List A) → select p (xs ++ ys) ≡ select p xs ++ select p ys
  select-append p [] ys = refl
  select-append p (x ∷ xs) ys = ground (arith, select-append p xs ys)

  pub select-select :
      (p q : A → Bool) (xs : List A) → select q (select p xs) ≡ select (λ x. p x && q x) xs
  select-select p q [] = refl
  select-select p q (x ∷ xs) = ground (arith, select-select p q xs)

  pub select-eq-nil : (p : A → Bool) (xs : List A) → All (λ x. p x ≡ false) xs → select p xs ≡ []
  select-eq-nil p [] h = refl
  select-eq-nil p (x ∷ xs) h = ground (arith, select-eq-nil p xs h.1, h.0)

  pub none_of_select : (p : A → Bool) (xs : List A) → select p xs ≡ [] → All (λ x. p x ≡ false) xs
  none_of_select p [] h = tt
  none_of_select p (x ∷ xs) h = elim (Bool-cases (p x)) [
    | inl yes' ↦ absurd (ground arith)
    | inr no' ↦ (no', none_of_select p xs (ground arith))
  ]

  -- Every kept element has the property that the test brings.
  pub All-select {κ} :
      (P : A → Type κ) (p : A → Bool) (xs : List A)
      → All (λ x. p x ≡ true → P x) xs
      → All P (select p xs)
  All-select P p [] h = tt
  All-select P p (x ∷ xs) h = elim (Bool-cases (p x)) [
    | inl yes' ↦ rw yes' (h.0 yes', All-select P p xs h.1)
    | inr no' ↦ rw no' (All-select P p xs h.1)
  ]

  pub All-of_select {κ} :
      (P : A → Type κ) (p : A → Bool) (xs : List A)
      → All P (select p xs)
      → All (λ x. p x ≡ true → P x) xs
  All-of_select P p [] h = tt
  All-of_select P p (x ∷ xs) h = elim (Bool-cases (p x)) [
    | inl yes' ↦ let k = (rw yes' at h) in ((λ _. k.0), All-of_select P p xs k.1)
    | inr no' ↦ ((λ e. absurd (ground arith)), All-of_select P p xs (rw no' at h))
  ]

  -- A list in which just one place passes the test.
  abbrev pub SolePlace : (A → Bool) → A → List A → Type ℓ
  SolePlace p a xs =
      (before : List A) × (after : List A) × (xs ≡ before ++ a ∷ after)
      × (p a ≡ true)
      × All (λ x. p x ≡ false) (before ++ after)

  pub SolePlace-of_select :
      (p : A → Bool) (a : A) (xs : List A) → select p xs ≡ a ∷ [] → SolePlace p a xs
  SolePlace-of_select p a [] h = absurd (ground arith)
  SolePlace-of_select p a (x ∷ xs) h = elim (Bool-cases (p x)) [
    | inl yes' ↦ ([], xs, ground arith, ground arith, none_of_select p xs (ground arith))
    | inr no' ↦
        let (before, after, e, t, f) = SolePlace-of_select p a xs (ground arith) in
        (x ∷ before, after, ap (λ l. x ∷ l) e, t, (no', f))
  ]

  pub none_of_any : (p : A → Bool) (xs : List A) → any p xs ≡ false → All (λ x. p x ≡ false) xs
  none_of_any p [] h = tt
  none_of_any p (x ∷ xs) h = (ground arith, none_of_any p xs (ground arith))

  -- What holds of a whole list holds at each of its places.
  pub All_place {κ} :
      (P : A → Type κ) (before after xs : List A) (a : A)
      → xs ≡ before ++ a ∷ after
      → All P xs
      → P a
  All_place P before after xs a place h =
      (All-split P before (a ∷ after) (subst (All P) place h)).1.0
