-- ===== src/Errors.antt =====
-- The exceptions of src/Exception.h, the `errno` that src/QingStor.cpp derives from one, and the
-- values of functions that may throw. An exception is its class; its text is not modelled.
pub mod Classes
pub mod Plain
pub mod Messages
pub mod Paths
mod Tests
use qing_stor_c_sdk.Prelude.{
  ℕ, zero, suc, ◌≡◌, refl, Bool, true, false, Option, none, some, ◌==◌, if◌then◌else◌, ◌||◌,
}

-- The classes of Exception.h; `bad_alloc` is `std::bad_alloc`, and `std_exception` any other
-- `std::exception`.
pub data Exception : Type 0 where
  qingstor io end_of_stream network network_connect access_control canceled : Exception
  config_invalid config_not_found timeout invalid_parameter illegal_argument : Exception
  out_of_memory bad_alloc std_exception : Exception

-- The class that a class derives from.
abbrev pub base : Exception → Option Exception
base qingstor = some std_exception
base io = some qingstor
base end_of_stream = some io
base network = some io
base network_connect = some network
base access_control = some qingstor
base canceled = some qingstor
base config_invalid = some qingstor
base config_not_found = some qingstor
base timeout = some qingstor
base invalid_parameter = some qingstor
base illegal_argument = some invalid_parameter
base out_of_memory = some qingstor
base bad_alloc = some std_exception
base std_exception = none

abbrev pub tag : Exception → ℕ
tag qingstor = 0
tag io = 1
tag end_of_stream = 2
tag network = 3
tag network_connect = 4
tag access_control = 5
tag canceled = 6
tag config_invalid = 7
tag config_not_found = 8
tag timeout = 9
tag invalid_parameter = 10
tag illegal_argument = 11
tag out_of_memory = 12
tag bad_alloc = 13
tag std_exception = 14

-- Whether one of the `depth` classes from `e` upwards is `c`.
abbrev ancestor : ℕ → Exception → Exception → Bool
ancestor zero c e = false
ancestor (suc depth) c e =
    let above : Bool = elim (base e) [ none ↦ false | some b ↦ ancestor depth c b ] in
    if tag c == tag e then true else above

-- `catch (c &)` takes an exception of class `e`. No class has more than four above it.
abbrev pub catches : Exception → Exception → Bool
catches c e = ancestor 5 c e

pub data Errno : Type 0 where
  eacces eio einval einternal enomem : Errno

-- `handleException`: the first clause that takes the exception decides.
unfoldable pub handle_exception : Exception → Errno
handle_exception e =
    if catches access_control e
    then eacces
    else if catches canceled e
    then eio
    else if catches config_invalid e
    then einval
    else if catches config_not_found e
    then einval
    else if catches timeout e
    then eio
    else if catches illegal_argument e
    then einval
    else if catches invalid_parameter e
    then einval
    else if catches network e
    then eio
    else if catches io e
    then eio
    else if catches qingstor e
    then einternal
    else einternal

-- `catch (QingStorException & e) { …; throw e; }`: `throw e` copies the object at its static type,
-- so what leaves the block is a plain `QingStorException`, whatever came in.
unfoldable pub rethrow_copy : Exception → Exception
rethrow_copy e = if catches qingstor e then qingstor else e

-- The value of a function that may throw; `fault` is undefined behaviour of the source.
pub data Result {ℓ} (Value : Type ℓ) : Type ℓ where
  fault : Result Value
  throw : Exception → Result Value
  ok : Value → Result Value

infixl 5 ◌>>=◌
abbrev pub ◌>>=◌ {κ ℓ} : {V : Type κ} {W : Type ℓ} → Result V → (V → Result W) → Result W
fault >>= next = fault
throw e >>= next = throw e
ok v >>= next = next v

-- A block in `try { … } catch (QingStorException & e) { cleanup; throw e; }`.
abbrev pub rethrowing {ℓ} : {V : Type ℓ} → Result V → Result V
rethrowing fault = fault
rethrowing (throw e) = throw (rethrow_copy e)
rethrowing (ok v) = ok v

-- A chain that ends well had a first step that ended well.
pub >>=-ok {κ ℓ} :
    {V : Type κ} {W : Type ℓ} (next : V → Result W) {w : W} (first : Result V)
    → first >>= next ≡ ok w
    → (v : V) × (next v ≡ ok w) × (first ≡ ok v)
>>=-ok next fault e = cc
>>=-ok next (throw x) e = cc
>>=-ok next (ok v) e = (v, e, refl)
