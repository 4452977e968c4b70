-- ===== src/Interface/Returns.antt =====
-- What the parts of a function of src/QingStor.cpp did, by what the function returned.
use qing_stor_c_sdk.Prelude.{ℕ, ◌≡◌, refl, sym, ap, true, false, Bool, Option, none, some}
use qing_stor_c_sdk.Prelude.Int.{ℤ, pos}
use qing_stor_c_sdk.Errors.{Result, ok, throw, fault, >>=-ok}
use qing_stor_c_sdk.Writer.{Writer, Session, Step}
use qing_stor_c_sdk.Writer.Requests.{Client}
use qing_stor_c_sdk.Context.Extract.{JsonNumbers}
use qing_stor_c_sdk.Interface.{Api, Texts, guarded, checked}
use qing_stor_c_sdk.Interface.Contexts.{success, failure}
use qing_stor_c_sdk.Interface.Handles.{Object, as_written, destroy_object, behind_delete}
use qing_stor_c_sdk.Interface.Objects.{left_by, write_steps}

pub none-some {ℓ} : {A : Type ℓ} {x : A} → none ≡ some x → ⊥
none-some e = cc

pub some_inj {ℓ} : {A : Type ℓ} {x y : A} → some x ≡ some y → x ≡ y
some_inj e = cc

pub ok_inj {ℓ} : {A : Type ℓ} {x y : A} → ok x ≡ ok y → x ≡ y
ok_inj e = cc

pub fault-ok {ℓ} : {A : Type ℓ} {x : A} → fault ≡ ok x → ⊥
fault-ok e = cc

pub failure-pos : (m : ℕ) → ok failure ≡ ok (pos m) → ⊥
failure-pos m e = cc

module _ {World Json : Type 0} (texts : Texts) (client : Client World Json)
    (numbers : JsonNumbers Json) where
  pub write_steps-ok :
      (m : ℕ) (d : Option (Step client)) (a a' : Api World) (o' : Object)
      → write_steps texts client numbers (pos m) d a ≡ some (ok (pos m), (some o', a'))
      → (s : Session World) × (d ≡ some (ok tt, s))
        × (o' ≡ as_written s.writer)
        × (a' ≡ left_by texts client numbers s a)
  write_steps-ok m none a a' o' e = absurd (none-some e)
  write_steps-ok m (some (fault, s)) a a' o' e = absurd (fault-ok (ap (λ x. x.0) (some_inj e)))
  write_steps-ok m (some (throw x, s)) a a' o' e =
      absurd (failure-pos m (ap (λ x. x.0) (some_inj e)))
  write_steps-ok m (some (ok u, s)) a a' o' e =
      let q = ap (λ x. x.1) (some_inj e) in
      (s, refl, sym (some_inj (ap (λ x. x.0) q)), sym (ap (λ x. x.1) q))

  -- An object that was closed and deleted well.
  pub deleted-ok :
      (o : Object) (r : Result ℤ) (a a' : Api World)
      → behind_delete o (r, a) ≡ (ok (pos 0), a')
      → (r ≡ ok (pos 0)) × (a ≡ a')
  deleted-ok o r a a' e =
      let (released, p, q) = >>=-ok (λ released. r) (destroy_object o) (ap (λ x. x.0) e) in
      (p, ap (λ x. x.1) e)

  pub closed-ok :
      (d : Step client) (a a' : Api World)
      → behind_delete
          (as_written d.1.writer)
          (guarded texts failure success d.0 (left_by texts client numbers d.1 a))
        ≡ (ok (pos 0), a')
      → (d.0 ≡ ok tt) × (a' ≡ left_by texts client numbers d.1 a)
  closed-ok (fault, s) a a' e =
      absurd (
        fault-ok (deleted-ok (as_written s.writer) fault (left_by texts client numbers s a) a' e).0)
  closed-ok (throw x, s) a a' e =
      absurd (failure-pos 0 (deleted-ok (as_written s.writer) (ok failure) _ a' e).0)
  closed-ok (ok u, s) a a' e = (refl, sym (deleted-ok (as_written s.writer) (ok (pos 0)) _ a' e).1)

  pub guarded-ok :
      (r : Result Writer) (a a' : Api World) (o : Object)
      → guarded texts none (λ w. some (as_written w)) r a ≡ (ok (some o), a')
      → (w : Writer) × (r ≡ ok w) × (o ≡ as_written w) × (a' ≡ a)
  guarded-ok fault a a' o e = absurd (fault-ok (ap (λ x. x.0) e))
  guarded-ok (throw x) a a' o e = absurd (none-some (ok_inj (ap (λ x. x.0) e)))
  guarded-ok (ok w) a a' o e =
      (w, refl, sym (some_inj (ok_inj (ap (λ x. x.0) e))), sym (ap (λ x. x.1) e))

  pub checked-ok {ℓ} :
      {R : Type ℓ} (valid : Bool) (failing v : R) (body : Api World → Result R × Api World)
      (a a' : Api World)
      → (failing ≡ v → ⊥)
      → checked texts valid failing body a ≡ (ok v, a')
      → body a ≡ (ok v, a')
  checked-ok true failing v body a a' h e = e
  checked-ok false failing v body a a' h e = absurd (h (ok_inj (ap (λ x. x.0) e)))
