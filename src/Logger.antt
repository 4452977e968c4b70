-- ===== src/Logger.antt =====
-- `Logger` (src/Logger.h and .cpp): which messages are written, and the line that is. The clock, the
-- process and the text that `vsnprintf` formats are arguments: the first `vsnprintf`, into an empty
-- buffer, only measures it. The lines of several threads do not mix, since each is one `dprintf`
-- under a lock.
pub mod Line
mod Tests
use qing_stor_c_sdk.Prelude.{
  ℕ, ◌+◌, ◌-◌, Bool, true, false, ◌||◌, List, [], ◌∷◌, ◌++◌, Bytes, codes, decimal, length, take,
  replicate, ltb, if◌then◌else◌, Option, none, some,
}
use qing_stor_c_sdk.Prelude.Int.{ℤ, pos, ltb_ℤ}
use qing_stor_c_sdk.Errors.{Result, ok, throw, fault}

pub data LogSeverity : Type 0 where
  fatal log_error warning info debug1 debug2 debug3 : LogSeverity

abbrev pub level : LogSeverity → ℕ
level fatal = 0
level log_error = 1
level warning = 2
level info = 3
level debug1 = 4
level debug2 = 5
level debug3 = 6

abbrev pub severity_name : LogSeverity → Bytes
severity_name fatal = codes "FATAL"
severity_name log_error = codes "ERROR"
severity_name warning = codes "WARNING"
severity_name info = codes "INFO"
severity_name debug1 = codes "DEBUG1"
severity_name debug2 = codes "DEBUG2"
severity_name debug3 = codes "DEBUG3"

pub record Logger : Type 0 where
  pub fd : ℤ
  pub severity : LogSeverity

-- Standard error, and `DEFAULT_LOG_LEVEL`.
abbrev pub new_logger : Logger
new_logger = record { fd = pos 2; severity = info }

abbrev pub set_output_fd : ℤ → Logger → Logger
set_output_fd f l = record l { fd = f }

abbrev pub set_log_severity : LogSeverity → Logger → Logger
set_log_severity s l = record l { severity = s }

-- The local time, as it is printed, with the month from 1, and the microseconds.
pub record Clock : Type 0 where
  pub year : ℕ
  pub month : ℕ
  pub day : ℕ
  pub hour : ℕ
  pub minute : ℕ
  pub second : ℕ
  pub micros : ℕ

-- `%0wd`
abbrev pub padded : ℕ → ℕ → Bytes
padded width n = let d = decimal n in replicate (width - length d) b'0' ++ d

-- `InitProcessId`: 63 bytes of the process and the thread.
abbrev pub init_process_id : ℕ → ℕ → Bytes
init_process_id pid thread =
    take 63 (codes "p" ++ (decimal pid ++ (codes ", th" ++ decimal thread)))

abbrev pub date_text : Clock → Bytes
date_text t =
    padded 4 t.year
    ++ (codes "-" ++ (padded 2 t.month ++ (codes "-" ++ (padded 2 t.day ++ codes " "))))

abbrev pub time_text : Clock → Bytes
time_text t =
    padded 2 t.hour
    ++ (codes ":"
        ++ (padded 2 t.minute
            ++ (codes ":" ++ (padded 2 t.second ++ (codes "." ++ padded 6 t.micros)))))

-- What stands before the message.
abbrev pub prefix : Clock → Bytes → LogSeverity → Bytes
prefix t process_id s =
    date_text t
    ++ (time_text t
        ++ (codes ", " ++ (process_id ++ (codes ", " ++ (severity_name s ++ codes " ")))))

-- The two prints into a buffer of 100 bytes more than the message has: what they leave in it, cut to
-- its size with a NUL. A prefix that is longer than the buffer puts the second print behind its end.
abbrev pub buffered : Bytes → Bytes → Result Bytes
buffered front message =
    let size = length message + 100 in
    if ltb size (length front)
    then fault
    else ok (take (size - 1) (front ++ take (size - length front - 1) message))

-- `printf`: the line that is written, if one is.
unfoldable pub printf : LogSeverity → Clock → Bytes → Bytes → Logger → Option (Result Bytes)
printf s t process_id message l =
    if ltb (level l.severity) (level s) || ltb_ℤ l.fd (pos 0)
    then none
    else some (elim (buffered (prefix t process_id s) message) [
      | fault ↦ fault
      | throw e ↦ throw e
      | ok text ↦ ok (text ++ (10 ∷ []))
    ])
