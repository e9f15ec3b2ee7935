-- ===== src/Base/Outcomes.antt =====
-- What a run of kernel code comes to. `panic` is a failed VERIFY or another kpanicln, after which
-- the kernel does not go on. `out_of_fuel` is a loop of the model that was given too few rounds.
-- `undefined` is what C leaves open: a write past the end of an array.
use mathlib.Core.Path.{◌≡◌, refl}
use mathlib.Core.Bool.{Bool, true, false}

pub data Outcome {ℓ} (A : Type ℓ) : Type ℓ where
  ok : A → Outcome A
  panic : Outcome A
  out_of_fuel : Outcome A
  undefined : Outcome A

infixl 5 ◌>>=◌ ◌>>◌
abbrev pub ◌>>=◌ {ℓ κ} : {A : Type ℓ} {B : Type κ} → Outcome A → (A → Outcome B) → Outcome B
ok a >>= f = f a
panic >>= f = panic
out_of_fuel >>= f = out_of_fuel
undefined >>= f = undefined

abbrev pub ◌>>◌ {ℓ} : {B : Type ℓ} → Outcome (Unit {0}) → Outcome B → Outcome B
m >> k = m >>= λ _. k

-- kernel/lib/kassertions.h: VERIFY.
abbrev pub verify : Bool → Outcome (Unit {0})
verify true = ok tt
verify false = panic

-- A chain that returns has returned at its first step.
pub bind-ok {ℓ κ} :
    {A : Type ℓ} {B : Type κ} (m : Outcome A) {f : A → Outcome B} {b : B}
    → m >>= f ≡ ok b
    → (a : A) × (m ≡ ok a) × (f a ≡ ok b)
bind-ok (ok a) e = (a, refl, e)
bind-ok panic e = cc
bind-ok out_of_fuel e = cc
bind-ok undefined e = cc

pub bind_assoc {ℓ κ μ} :
    {A : Type ℓ} {B : Type κ} {C : Type μ} (m : Outcome A) (f : A → Outcome B) (g : B → Outcome C)
    → (m >>= f >>= g) ≡ (m >>= λ a. f a >>= g)
bind_assoc (ok a) f g = refl
bind_assoc panic f g = refl
bind_assoc out_of_fuel f g = refl
bind_assoc undefined f g = refl

pub bind_congr {ℓ κ} :
    {A : Type ℓ} {B : Type κ} (m : Outcome A) (f g : A → Outcome B)
    → ((a : A) → f a ≡ g a)
    → (m >>= f) ≡ (m >>= g)
bind_congr (ok a) f g h = h a
bind_congr panic f g h = refl
bind_congr out_of_fuel f g h = refl
bind_congr undefined f g h = refl

pub bind_ok {ℓ} : {A : Type ℓ} (m : Outcome A) → (m >>= λ a. ok a) ≡ m
bind_ok (ok a) = refl
bind_ok panic = refl
bind_ok out_of_fuel = refl
bind_ok undefined = refl
