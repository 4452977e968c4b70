-- ===== src/Errors/Plain.antt =====
-- Results whose exception has gone through `catch (QingStorException & e) { …; throw e; }`.
use qing_stor_c_sdk.Prelude.{◌≡◌, refl, true}
use qing_stor_c_sdk.Errors.{
  Result, ok, throw, fault, ◌>>=◌, rethrowing, rethrow_copy, qingstor, catches,
}

-- What is thrown is a `QingStorException` and none of its subclasses.
abbrev pub Plain {ℓ} : {V : Type ℓ} → Result V → Type 0
Plain fault = Unit
Plain (throw e) = e ≡ qingstor
Plain (ok v) = Unit

-- The exceptions that `catch (QingStorException &)` takes.
abbrev pub Caught {ℓ} : {V : Type ℓ} → Result V → Type 0
Caught fault = Unit
Caught (throw e) = catches qingstor e ≡ true
Caught (ok v) = Unit

pub >>=-Caught {κ ℓ} :
    {V : Type κ} {W : Type ℓ} (next : V → Result W) (first : Result V)
    → Caught first
    → ((v : V) → Caught (next v))
    → Caught (first >>= next)
>>=-Caught next fault c h = tt
>>=-Caught next (throw e) c h = c
>>=-Caught next (ok v) c h = h v

pub rethrowing-Plain {ℓ} : {V : Type ℓ} (r : Result V) → Caught r → Plain (rethrowing r)
unfolding rethrow_copy
rethrowing-Plain fault c = tt
rethrowing-Plain (throw e) c = rw c refl
rethrowing-Plain (ok v) c = tt
