-- ===== src/Interface/Reading.antt =====
-- `qingstorRead` (src/QingStor.cpp): what it may come to.
use qing_stor_c_sdk.Prelude.{
  ℕ, ◌≤◌, ◌≡◌, Bool, true, false, ◌&&◌, ◌⊎◌, inl, inr, List, [], Bytes, length, if◌then◌else◌,
  Option, none, some,
}
use qing_stor_c_sdk.Prelude.Int.{ℤ, pos, pos_part, ◌≤ℤ◌, ltb_ℤ}
use qing_stor_c_sdk.Errors.{Result, ok, throw, fault, Exception}
use qing_stor_c_sdk.Common.Signature.{Crypto}
use qing_stor_c_sdk.Common.Url.{UrlParser}
use qing_stor_c_sdk.Config.{Configuration}
use qing_stor_c_sdk.Fetcher.{Got}
use qing_stor_c_sdk.Pipeline.{Pipeline, Round, read, transfer_data, end_checked}
use qing_stor_c_sdk.Pipeline.Launch.{queue}
use qing_stor_c_sdk.Pipeline.Order.{Reads, Answered, Drained, read-Reads}
use qing_stor_c_sdk.Pipeline.Bounds.{Bounded, BoundedIf, read-bounded}
use qing_stor_c_sdk.Fetcher.Throws.{Goes}
use qing_stor_c_sdk.Pipeline.Throws.{GoesIf, read-Goes}
use qing_stor_c_sdk.Interface.{Api, Texts, is_some, refused, on_exception}
use qing_stor_c_sdk.Interface.Contexts.{failure}
use qing_stor_c_sdk.Interface.Handles.{Object, as_read, get_reader}
use qing_stor_c_sdk.Interface.Objects.{read_result, read_rounds, read_object}

module _ {World : Type 0} (texts : Texts) where
  -- How a read of at most `n` bytes from the pipeline `p` may end: bytes are delivered, at least one
  -- and at most `n`; or there is nothing more, and nothing is left of the queue; or the parameters
  -- are refused; or an exception is reported; or the behaviour is undefined. Every way but the last
  -- two leaves the rest of what the caller sees as it was.
  pub data ReadVerdict (n : ℕ) (p : Pipeline) (a : Api World)
      : Result (ℤ × Bytes) × (Option Object × Api World) → Type 0 where
    delivered :
        (bytes : Bytes) (q : Pipeline)
        → 1 ≤ length bytes
        → length bytes ≤ n
        → ReadVerdict n p a (ok (pos (length bytes), bytes), (some (as_read q), a))
    at_end :
        (q : Pipeline) → queue q ≡ [] → ReadVerdict n p a (ok (pos 0, []), (some (as_read q), a))
    refused_read : ReadVerdict n p a (ok (failure, []), (some (as_read p), refused texts a))
    failed_read :
        (e : Exception) (q : Pipeline)
        → ReadVerdict n p a (ok (failure, []), (some (as_read q), on_exception texts e a))
    undefined : (q : Pipeline) → ReadVerdict n p a (fault, (some (as_read q), a))

  abbrev pub ReadVerdictIf :
      ℕ → Pipeline → Api World → Option (Result (ℤ × Bytes) × (Option Object × Api World)) → Type 0
  ReadVerdictIf n p a none = Unit
  ReadVerdictIf n p a (some o) = ReadVerdict n p a o

module _ {World : Type 0} (texts : Texts) (crypto : Crypto) (scan : UrlParser) (max_write : ℕ) where
  -- What `transferData` makes of the outcome of `read`.
  read_result-ReadVerdict :
      (n : ℕ) (p : Pipeline) (a : Api World) (o : Result Got × Pipeline)
      → Answered p o
      → Bounded n o
      → Goes o.0
      → ReadVerdict texts n p a
          (read_result texts crypto scan max_write (end_checked crypto scan max_write o) a)
  read_result-ReadVerdict n p a (fault, q) s b g = undefined q
  read_result-ReadVerdict n p a (throw e, q) s b g = rw g (failed_read e q)
  read_result-ReadVerdict n p a (ok got, q) s b g = checked_got got.eof got.bytes s.1 b.0 b.1
    where
      checked_got :
          (eof : Bool) (bytes : Bytes)
          → Drained eof q
          → length bytes ≤ n
          → (eof ≡ true) ⊎ (1 ≤ length bytes)
          → ReadVerdict texts n p a (
              read_result texts crypto scan max_write
                (end_checked crypto scan max_write (ok (record { bytes = bytes; eof = eof }), q))
                a)
      checked_got true bytes d le some_byte = at_end q d
      checked_got false bytes d le (inl wrong) = absurd (cc)
      checked_got false bytes d le (inr some_byte) = delivered bytes q some_byte le

  read_rounds-ReadVerdictIf :
      (n : ℕ) (p : Pipeline) (a : Api World) (o : Option (Result Got × Pipeline))
      → Reads p o
      → BoundedIf n o
      → GoesIf crypto scan max_write o
      → ReadVerdictIf texts n p a (
          read_rounds texts crypto scan max_write
            (elim o [ none ↦ none | some x ↦ some (end_checked crypto scan max_write x) ])
            a)
  read_rounds-ReadVerdictIf n p a none s b g = tt
  read_rounds-ReadVerdictIf n p a (some o) s b g = read_result-ReadVerdict n p a o s b g

  if-ReadVerdictIf :
      (valid : Bool) (n : ℕ) (p : Pipeline) (a : Api World)
      (o : Option (Result (ℤ × Bytes) × (Option Object × Api World)))
      → ReadVerdictIf texts n p a o
      → ReadVerdictIf texts n p a
          (if valid then o else some (ok (failure, []), (some (as_read p), refused texts a)))
  if-ReadVerdictIf true n p a o h = h
  if-ReadVerdictIf false n p a o h = refused_read

  -- What `qingstorRead` does with an object that is read over at least one connection, if it does
  -- not wait for ever: it puts between one byte and `length` bytes into the caller's array, never
  -- more, and returns their number; or it returns 0, and then nothing of the range is left to read;
  -- or it returns -1, for parameters that it refuses or for an exception, whose class decides the
  -- error number; or its behaviour is undefined.
  pub read_object-ReadVerdict :
      (rs : List Round) (c : Option Configuration) (p : Pipeline) (has_buffer : Bool) (n : ℤ)
      (a : Api World)
      → pos 1 ≤ℤ p.connections
      → ReadVerdictIf texts
          (pos_part n)
          p
          a
          (read_object texts crypto scan max_write rs c (some (as_read p)) has_buffer n a)
  unfolding read_object get_reader transfer_data
  read_object-ReadVerdict rs c p has_buffer n a one =
      if-ReadVerdictIf (is_some c && has_buffer && ltb_ℤ (pos 0) n && true) (pos_part n) p a _ (
        read_rounds-ReadVerdictIf (pos_part n) p a (read crypto scan max_write rs (pos_part n) p)
          (read-Reads crypto scan max_write rs (pos_part n) p one)
          (read-bounded crypto scan max_write rs (pos_part n) p)
          (read-Goes crypto scan max_write rs (pos_part n) p))
