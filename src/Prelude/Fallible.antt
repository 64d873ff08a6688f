-- ===== src/Prelude/Fallible.antt =====
-- Calls that return a value or raise an exception of a given type.
use mathlib.Core.Path.{◌≡◌, refl}
use mathlib.Core.Bool.{Bool, true, false}

pub data Fallible {ℓ κ} (E : Type ℓ) (A : Type κ) : Type (ℓ ⊔ κ) where
  failed : E → Fallible E A
  fine : A → Fallible E A

module _ {ℓ κ} {E : Type ℓ} {A : Type κ} where
  infixl 5 ◌>>=◌ ◌>>◌
  abbrev pub ◌>>=◌ {λ'} : {B : Type λ'} → Fallible E A → (A → Fallible E B) → Fallible E B
  failed e >>= next = failed e
  fine a >>= next = next a

  abbrev pub ◌>>◌ {λ'} : {B : Type λ'} → Fallible E A → Fallible E B → Fallible E B
  check >> next = check >>= λ _. next

  pub bind-eq-fine {λ'} :
      {B : Type λ'} (call : Fallible E A) (next : A → Fallible E B) {b : B}
      → (call >>= next) ≡ fine b
      → (a : A) × (call ≡ fine a) × (next a ≡ fine b)
  bind-eq-fine (failed e) next h = cc
  bind-eq-fine (fine a) next h = (a, refl, h)

module _ {ℓ} {E : Type ℓ} where
  -- if not b: raise e
  abbrev pub demand : Bool → E → Fallible E (Unit {0})
  demand true e = fine tt
  demand false e = failed e

  pub demand-bind-eq-fine {κ} :
      {A : Type κ} (b : Bool) (e : E) (next : Unit {0} → Fallible E A) {a : A}
      → (demand b e >>= next) ≡ fine a
      → (b ≡ true) × (next tt ≡ fine a)
  demand-bind-eq-fine true e next h = (refl, h)
  demand-bind-eq-fine false e next h = cc
