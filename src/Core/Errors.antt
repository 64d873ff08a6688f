-- ===== src/Core/Errors.antt =====
-- core/errors.py: the exceptions, as the error of a result. The texts of messages are left out,
-- but for the edge ids that an ambiguity names.
use agent_graph_engine.Prelude.{String, ◌≡◌, refl, Bool, true, false, List}

pub data Error : Type 0 where
  contract_validation graph_definition graph_transition no_valid_transition : Error
  ambiguous_transition : List String → Error
  stale_state_patch unauthorized_state_patch invalid_state_patch : Error
  -- Python's ValueError
  value_error : Error

-- What a call leaves: the error that it raised, or its value.
pub data Result {ℓ} (Out : Type ℓ) : Type ℓ where
  err : Error → Result Out
  ok : Out → Result Out

infixl 5 ◌>>=◌ ◌>>◌
-- The statement that comes next runs on the value alone.
abbrev pub ◌>>=◌ {ℓ κ} :
    {Out : Type ℓ} {Next : Type κ} → Result Out → (Out → Result Next) → Result Next
err raised >>= next = err raised
ok value >>= next = next value

abbrev pub ◌>>◌ {κ} : {Next : Type κ} → Result (Unit {0}) → Result Next → Result Next
check >> next = check >>= λ _. next

-- if not b: raise e
abbrev pub require : Bool → Error → Result (Unit {0})
require true e = ok tt
require false e = err e

-- if b: raise e
abbrev pub refuse : Bool → Error → Result (Unit {0})
refuse true e = err e
refuse false e = ok tt

-- A sequence with a value: the call has a value, and so has what comes next.
pub bind-eq-ok {ℓ κ} :
    {Out : Type ℓ} {Next : Type κ} (call : Result Out) (next : Out → Result Next) {last : Next}
    → (call >>= next) ≡ ok last
    → (value : Out) × (call ≡ ok value) × (next value ≡ ok last)
bind-eq-ok (err raised) next done = cc
bind-eq-ok (ok value) next done = (value, refl, done)

-- What a check that was passed says.
pub require-eq-ok {ℓ} :
    {A : Type ℓ} (b : Bool) (e : Error) (k : Result A) {a : A}
    → (require b e >> k) ≡ ok a
    → (b ≡ true) × (k ≡ ok a)
require-eq-ok true e k h = (refl, h)
require-eq-ok false e k h = cc

pub refuse-eq-ok {ℓ} :
    {A : Type ℓ} (b : Bool) (e : Error) (k : Result A) {a : A}
    → (refuse b e >> k) ≡ ok a
    → (b ≡ false) × (k ≡ ok a)
refuse-eq-ok true e k h = cc
refuse-eq-ok false e k h = (refl, h)

pub then-eq-ok {ℓ} :
    {A : Type ℓ} (m : Result (Unit {0})) (k : Result A) {a : A}
    → (m >> k) ≡ ok a
    → (m ≡ ok tt) × (k ≡ ok a)
then-eq-ok (ok u) k h = (refl, h)
then-eq-ok (err e) k h = cc

pub ok_inj {ℓ} : {A : Type ℓ} {a b : A} → ok a ≡ ok b → a ≡ b
ok_inj h = cc

-- Inversion of three binds whose actions do not depend on one another.
pub bind3-eq-ok {ℓ} :
    {A B C D : Type ℓ} (l : Result A) (m : Result B) (n : Result C) (f : A → B → C → D) {d : D}
    → (l >>= λ a. m >>= λ b. n >>= λ c. ok (f a b c)) ≡ ok d
    → (a : A) × (b : B) × (c : C) × (l ≡ ok a) × (m ≡ ok b) × (n ≡ ok c) × (d ≡ f a b c)
bind3-eq-ok (ok a) (ok b) (ok c) f h = (a, b, c, refl, refl, refl, cc)
bind3-eq-ok (ok a) (ok b) (err e) f h = cc
bind3-eq-ok (ok a) (err e) n f h = cc
bind3-eq-ok (err e) m n f h = cc
