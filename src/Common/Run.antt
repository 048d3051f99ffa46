-- ===== src/Common/Run.antt =====
-- Results of code that can leave its memory: `fault` is an access that C leaves undefined.
use mathlib.Core.Path.{◌≡◌, refl}
use mathlib.Core.Logic.{◌≢◌}

pub data Run {ℓ} (A : Type ℓ) : Type ℓ where
  ok : A → Run A
  fault : Run A

module _ {ℓ κ} {A : Type ℓ} {B : Type κ} where
  infixl 5 ◌>>=◌
  abbrev pub ◌>>=◌ : Run A → (A → Run B) → Run B
  fault >>= next = fault
  ok x >>= next = next x

-- The run ends normally, in a value with the property.
module _ {ℓ κ} {A : Type ℓ} where
  abbrev pub Returns : Run A → (A → Type κ) → Type (ℓ ⊔ κ)
  Returns m P = (x : A) × (m ≡ ok x) × P x

-- A run that does not fault ends in a value.
pub ok_of_ne-fault {ℓ} : {A : Type ℓ} (r : Run A) → r ≢ fault → (a : A) × (r ≡ ok a)
ok_of_ne-fault (ok a) h = (a, refl)
ok_of_ne-fault fault h = absurd (h refl)
