-- ===== src/Logger/Line.antt =====
-- The line that `printf` of src/Logger.cpp writes is whole.
use qing_stor_c_sdk.Prelude.{
  ℕ, suc, ◌+◌, ◌-◌, ◌^◌, ◌≤◌, ◌<◌, ◌≡◌, refl, ap, false, ◌||◌, [], ◌∷◌, ◌++◌, Bytes, codes, decimal,
  decimal-length, length, length-append, length-take, replicate, length-replicate, ltb,
  if◌then◌else◌, none, some, arith,
}
use qing_stor_c_sdk.Prelude.Slices.{take_all}
use qing_stor_c_sdk.Prelude.Int.{pos, ltb_ℤ}
use qing_stor_c_sdk.Errors.{ok}
use qing_stor_c_sdk.Logger.{
  LogSeverity, fatal, log_error, warning, info, debug1, debug2, debug3, level, severity_name,
  Logger, Clock, padded, init_process_id, date_text, time_text, prefix, buffered, printf,
}

-- A time of the calendar, up to the year 9999.
pub record InCalendar (t : Clock) : Type 0 where
  pub year : t.year < 10 ^ 4
  pub month : t.month < 10 ^ 2
  pub day : t.day < 10 ^ 2
  pub hour : t.hour < 10 ^ 2
  pub minute : t.minute < 10 ^ 2
  pub second : t.second < 10 ^ 2
  pub micros : t.micros < 10 ^ 6

length-padded : (k n : ℕ) → n < 10 ^ suc k → length (padded (suc k) n) ≤ suc k
length-padded k n lt =
    let d = decimal-length k n lt in
    omega (
      arith,
      d,
      length-append (replicate (suc k - length (decimal n)) b'0') (decimal n),
      length-replicate {A = ℕ} (suc k - length (decimal n)) b'0',
    )

-- Texts one after the other.
length_both : (xs ys : Bytes) (m n : ℕ) → length xs ≤ m → length ys ≤ n → length (xs ++ ys) ≤ m + n
length_both xs ys m n p q = omega (arith, length-append xs ys, p, q)

date-length : (t : Clock) → InCalendar t → length (date_text t) ≤ 11
date-length t c =
    let y = length-padded 3 t.year c.year in
    let m = length-padded 1 t.month c.month in
    let d = length-padded 1 t.day c.day in
    length_both (padded 4 t.year) _ 4 7 y (
      length_both (codes "-") _ 1 6 (omega arith) (
        length_both (padded 2 t.month) _ 2 4 m (
          length_both (codes "-") _ 1 3 (omega arith)
            (length_both (padded 2 t.day) (codes " ") 2 1 d (omega arith)))))

time-length : (t : Clock) → InCalendar t → length (time_text t) ≤ 15
time-length t c =
    let h = length-padded 1 t.hour c.hour in
    let m = length-padded 1 t.minute c.minute in
    let s = length-padded 1 t.second c.second in
    let u = length-padded 5 t.micros c.micros in
    length_both (padded 2 t.hour) _ 2 13 h (
      length_both (codes ":") _ 1 12 (omega arith) (
        length_both (padded 2 t.minute) _ 2 10 m (
          length_both (codes ":") _ 1 9 (omega arith) (
            length_both (padded 2 t.second) _ 2 7 s
              (length_both (codes ".") (padded 6 t.micros) 1 6 (omega arith) u)))))

name-length : (s : LogSeverity) → length (severity_name s) ≤ 7
name-length fatal = omega arith
name-length log_error = omega arith
name-length warning = omega arith
name-length info = omega arith
name-length debug1 = omega arith
name-length debug2 = omega arith
name-length debug3 = omega arith

process-length :
    (pid thread : ℕ) → pid < 10 ^ 10 → thread < 2 ^ 64 → length (init_process_id pid thread) ≤ 35
process-length pid thread p t =
    let d = decimal-length 9 pid p in
    let e = decimal-length 19 thread (omega (arith, t)) in
    let whole : length (codes "p" ++ (decimal pid ++ (codes ", th" ++ decimal thread))) ≤ 35 =
      length_both (codes "p") _ 1 34 (omega arith) (
        length_both (decimal pid) _ 10 24 d
          (length_both (codes ", th") (decimal thread) 4 20 (omega arith) e)) in
    omega (
      arith,
      whole,
      length-take 63 (codes "p" ++ (decimal pid ++ (codes ", th" ++ decimal thread))),
    )

prefix-length :
    (t : Clock) (process_id : Bytes) (s : LogSeverity)
    → InCalendar t
    → length process_id ≤ 35
    → length (prefix t process_id s) ≤ 73
prefix-length t process_id s c p = length_both (date_text t) _ 11 62 (date-length t c) (
    length_both (time_text t) _ 15 47 (time-length t c) (
      length_both (codes ", ") _ 2 45 (omega arith) (
        length_both process_id _ 35 10 p (
          length_both (codes ", ") _ 2 8 (omega arith)
            (length_both (severity_name s) (codes " ") 7 1 (name-length s) (omega arith))))))

buffered-whole :
    (front message : Bytes) → length front ≤ 99 → buffered front message ≡ ok (front ++ message)
buffered-whole front message le =
    let fits : ltb (length message + 100) (length front) ≡ false = ground (arith, le) in
    let all = take_all message (length message + 100 - length front - 1) (omega (arith, le)) in
    rw (fits, all)
      (ap (λ l. ok l)
        (take_all (front ++ message) (length message + 100 - 1)
          (omega (arith, le, length-append front message))))

-- "100 is enough for prefix": for a time of the calendar, a process number of at most ten digits and
-- a thread number of 64 bits, a message that is not more detailed than the logger's severity, with a
-- descriptor that is not negative, gives one line, the prefix, the whole message and a line feed;
-- and any other message gives none. Nothing is cut off, and nothing is put outside the buffer.
pub printf_lem :
    (s : LogSeverity) (t : Clock) (pid thread : ℕ) (message : Bytes) (l : Logger)
    → InCalendar t
    → pid < 10 ^ 10
    → thread < 2 ^ 64
    → printf s t (init_process_id pid thread) message l ≡ (
        if ltb (level l.severity) (level s) || ltb_ℤ l.fd (pos 0)
        then none
        else some (ok ((prefix t (init_process_id pid thread) s ++ message) ++ (10 ∷ []))))
unfolding printf
printf_lem s t pid thread message l c p q =
    let short = prefix-length t (init_process_id pid thread) s c (process-length pid thread p q) in
    rw (buffered-whole (prefix t (init_process_id pid thread) s) message (omega (arith, short)))
      refl
