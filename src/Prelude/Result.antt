-- ===== src/Prelude/Result.antt =====
-- What a call of the Python code gives: a value, or an exception that it raises.
use mathlib.Core.Path.{◌≡◌, refl}
use mathlib.Core.Logic.{◌⊎◌, inl, inr}

-- `out_of_fuel` is the model's own: a loop whose fuel is used up.
pub data Error : Type 0 where
  index_error type_error overflow_error runtime_error value_error key_error : Error
  refinement_stall out_of_fuel : Error

pub data Result {ℓ} (A : Type ℓ) : Type ℓ where
  raises : Error → Result A
  ok : A → Result A

module _ {ℓ κ} {A : Type ℓ} {B : Type κ} where
  infixl 5 ◌>>=◌
  abbrev pub ◌>>=◌ : Result A → (A → Result B) → Result B
  raises e >>= f = raises e
  ok a >>= f = f a

  -- To rewrite what follows a call.
  pub >>=-cong : (m : Result A) (f g : A → Result B) → ((a : A) → f a ≡ g a) → (m >>= f) ≡ (m >>= g)
  >>=-cong (raises e) f g h = refl
  >>=-cong (ok a) f g h = h a

  -- What follows a call that returned.
  pub >>=-at :
      (m : Result A) (f : A → Result B) {a : A} {r : Result B} → m ≡ ok a → (m >>= f) ≡ r → f a ≡ r
  >>=-at m f e h = rw e at h

  -- A chain that returned: its first call did, and what follows it.
  pub >>=-eq-ok :
      (call : Result A) (next : A → Result B) {result : B}
      → (call >>= next) ≡ ok result
      → (value : A) × (call ≡ ok value) × (next value ≡ ok result)
  >>=-eq-ok (raises e) next h = cc
  >>=-eq-ok (ok value) next h = (value, refl, h)

pub ok_inj {ℓ} : {A : Type ℓ} {a b : A} → ◌≡◌ {A = Result A} (ok a) (ok b) → a ≡ b
ok_inj p = cc

pub Result-cases {ℓ} :
    {A : Type ℓ} (r : Result A) → ((a : A) × (r ≡ ok a)) ⊎ ((e : Error) × (r ≡ raises e))
Result-cases (raises e) = inr (e, refl)
Result-cases (ok a) = inl (a, refl)

pub >>=-assoc {ℓ κ μ} :
    {A : Type ℓ} {B : Type κ} {C : Type μ} (m : Result A) (f : A → Result B) (g : B → Result C)
    → ((m >>= f) >>= g) ≡ (m >>= λ a. f a >>= g)
>>=-assoc (raises e) f g = refl
>>=-assoc (ok a) f g = refl
