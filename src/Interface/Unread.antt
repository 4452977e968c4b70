-- ===== src/Interface/Unread.antt =====
-- Giving up an object that was opened for reading before anything was read (src/QingStor.cpp).
use qing_stor_c_sdk.Prelude.{
  ℕ, zero, suc, ◌≡◌, refl, ap, Bool, true, false, ◌&&◌, not, List, [], ◌∷◌, map, Bytes,
  if◌then◌else◌, Option, none, some,
}
use qing_stor_c_sdk.Prelude.Int.{ℤ, pos, ◌+ℤ◌, ltb_ℤ}
use mathlib.Core.Path.{subst}
use qing_stor_c_sdk.Errors.{Result, ok, throw, fault, ◌>>=◌}
use qing_stor_c_sdk.Config.{Configuration}
use qing_stor_c_sdk.Fetcher.{Fetcher, indeterminate, destroy, cleanup}
use qing_stor_c_sdk.Reader.{
  ObjectInfo, chunk_len, chunk_sizes, chunks, cons?, chunk_fetcher, setup_pipeline,
}
use qing_stor_c_sdk.Pipeline.{Pipeline}
use qing_stor_c_sdk.Pipeline.End.{
  new_pipeline, filled_with, open_reader, destroy_all, destroy_pipeline,
}
use qing_stor_c_sdk.Writer.Requests.{Client}
use qing_stor_c_sdk.Context.Extract.{JsonNumbers, HeadObjectResult}
use qing_stor_c_sdk.Interface.{Api, Texts, given}
use qing_stor_c_sdk.Interface.Contexts.{or_empty}
use qing_stor_c_sdk.Interface.Objects.{get_object, reader_for, given_reader, close_object}
use qing_stor_c_sdk.Interface.Handles.{Object, object_info, as_read, destroy_object, get_reader}

-- A pipeline of which no fetcher has been started, and that has at least one.
record IsUnread (p : Pipeline) : Type 0 where
  first : Fetcher
  others : List Fetcher
  none_active : p.active ≡ []
  some_pending : p.pending ≡ first ∷ others
  never_set : first.curl ≡ indeterminate

abbrev UnreadIf : Option (Result Pipeline) → Type 0
UnreadIf none = Unit
UnreadIf (some fault) = Unit
UnreadIf (some (throw e)) = Unit
UnreadIf (some (ok p)) = IsUnread p

-- A reader has at least one chunk.
abbrev SomeIf {ℓ} : {A : Type ℓ} → Option (List A) → Type 0
SomeIf none = Unit
SomeIf (some []) = ⊥
SomeIf (some (x ∷ xs)) = Unit

cons?-SomeIf {ℓ} : {A : Type ℓ} (x : A) (o : Option (List A)) → SomeIf (cons? x o)
cons?-SomeIf x none = tt
cons?-SomeIf x (some xs) = tt

if-SomeIf {ℓ} :
    {A : Type ℓ} (b : Bool) (x y : Option (List A))
    → SomeIf x
    → SomeIf y
    → SomeIf (if b then x else y)
if-SomeIf true x y p q = p
if-SomeIf false x y p q = q

chunks-SomeIf : (fuel : ℕ) (chunk offset end : ℤ) → SomeIf (chunks fuel chunk offset end)
unfolding chunks
chunks-SomeIf zero chunk offset end = tt
chunks-SomeIf (suc fuel) chunk offset end =
    let len = chunk_len chunk offset end in
    if-SomeIf (ltb_ℤ end (offset +ℤ len)) _ _ tt
      (cons?-SomeIf (offset, len) (chunks fuel chunk (offset +ℤ len) end))

fetchers-UnreadIf :
    (c : Configuration) (bucket : Bytes) (object : ObjectInfo) (n : ℤ) (o : Option (List (ℤ × ℤ)))
    → SomeIf o
    → UnreadIf (
        filled_with
          (ok (record { active = []; pending = []; connections = n }))
          (elim o [ none ↦ none | some l ↦ some (map (chunk_fetcher c bucket object) l) ]))
unfolding chunk_fetcher
fetchers-UnreadIf c bucket object n none h = tt
fetchers-UnreadIf c bucket object n (some []) h = absurd h
fetchers-UnreadIf c bucket object n (some (x ∷ xs)) h = record {
  first = chunk_fetcher c bucket object x;
  others = map (chunk_fetcher c bucket object) xs;
  none_active = refl;
  some_pending = refl;
  never_set = refl;
}

open_reader-UnreadIf :
    (fuel : ℕ) (multi_ok : Bool) (c : Configuration) (bucket : Bytes) (object : ObjectInfo)
    → UnreadIf (open_reader fuel multi_ok c bucket object)
unfolding open_reader setup_pipeline new_pipeline
open_reader-UnreadIf fuel false c bucket object = tt
open_reader-UnreadIf fuel true c bucket object =
    fetchers-UnreadIf c bucket object c.num_connections _
      (chunks-SomeIf fuel (chunk_sizes c).0 object.range.start object.range.end)

-- Destroying it reads the handle of its first pending fetcher, which was never set.
destroy_pipeline-IsUnread : (p : Pipeline) → IsUnread p → destroy_pipeline p ≡ fault
unfolding destroy_pipeline destroy_all destroy cleanup
destroy_pipeline-IsUnread p u = rw (u.none_active, u.some_pending, u.never_set) refl

module _ {World Json : Type 0} (texts : Texts) (client : Client World Json)
    (numbers : JsonNumbers Json) where
  -- An object that has been opened and not been read yet.
  abbrev FaultsIf : Option (Result (Option Object) × Api World) → Type 0
  FaultsIf (some (ok (some o), a)) =
      (a' : Api World) → close_object texts client numbers (some o) a' ≡ (fault, a')
  FaultsIf _ = Unit

  close_unread :
      (p : Pipeline) (a : Api World)
      → IsUnread p
      → close_object texts client numbers (some (as_read p)) a ≡ (fault, a)
  unfolding close_object get_reader destroy_object
  close_unread p a u = ap (λ r. (r >>= (λ released. ok (pos 0)), a)) (destroy_pipeline-IsUnread p u)

  given_reader-FaultsIf :
      (r : Option (Result Pipeline)) (a : Api World)
      → UnreadIf r
      → FaultsIf (given_reader texts client numbers r a)
  given_reader-FaultsIf none a u = tt
  given_reader-FaultsIf (some fault) a u = tt
  given_reader-FaultsIf (some (throw e)) a u = tt
  given_reader-FaultsIf (some (ok p)) a u = λ a'. close_unread p a' u

  reader_for-UnreadIf :
      (fuel : ℕ) (multi_ok : Bool) (c : Configuration) (bucket key : Bytes) (start end : ℤ)
      (r : Result HeadObjectResult)
      → UnreadIf (reader_for texts client numbers fuel multi_ok c bucket key start end r)
  reader_for-UnreadIf fuel multi_ok c bucket key start end fault = tt
  reader_for-UnreadIf fuel multi_ok c bucket key start end (throw e) = tt
  reader_for-UnreadIf fuel multi_ok c bucket key start end (ok head) =
      open_reader-UnreadIf fuel multi_ok c bucket (object_info key head start end)

  if-FaultsIf :
      (b : Bool) (x y : Option (Result (Option Object) × Api World))
      → FaultsIf x
      → FaultsIf y
      → FaultsIf (if b then x else y)
  if-FaultsIf true x y p q = p
  if-FaultsIf false x y p q = q

  get_object-FaultsIf :
      (fuel : ℕ) (multi_ok : Bool) (c : Option Configuration) (bucket key : Option Bytes)
      (start end : ℤ) (a : Api World)
      → FaultsIf (get_object texts client numbers fuel multi_ok c bucket key start end a)
  unfolding get_object
  get_object-FaultsIf fuel multi_ok none bucket key start end a = tt
  get_object-FaultsIf fuel multi_ok (some c) bucket key start end a =
      if-FaultsIf (given bucket && given key && not (ltb_ℤ end start)) _ _
        (given_reader-FaultsIf _ _
          (reader_for-UnreadIf fuel multi_ok c (or_empty bucket) (or_empty key) start end _))
        tt

  -- An object that `qingstorGetObject` opened can not be closed before it is read: the destructor
  -- of a fetcher that was never started reads a handle that no line has set.
  pub get_object-close_object :
      (fuel : ℕ) (multi_ok : Bool) (c : Option Configuration) (bucket key : Option Bytes)
      (start end : ℤ) (a a' a'' : Api World) (o : Object)
      → get_object texts client numbers fuel multi_ok c bucket key start end a
        ≡ some (ok (some o), a')
      → close_object texts client numbers (some o) a'' ≡ (fault, a'')
  get_object-close_object fuel multi_ok c bucket key start end a a' a'' o e =
      subst FaultsIf e (get_object-FaultsIf fuel multi_ok c bucket key start end a) a''
