-- ===== src/Logger/Tests.antt =====
-- A line of src/Logger.cpp, and the theorem at it.
use qing_stor_c_sdk.Prelude.{◌≡◌, refl, ◌∷◌, [], ◌++◌, codes, none, some, arith}
use qing_stor_c_sdk.Errors.{ok}
use qing_stor_c_sdk.Logger.{
  Clock, new_logger, set_log_severity, warning, debug1, prefix, init_process_id, printf,
}
use qing_stor_c_sdk.Logger.Line.{InCalendar, printf_lem}

abbrev noon : Clock
noon = record { year = 2017; month = 3; day = 9; hour = 12; minute = 0; second = 5; micros = 42 }

noon-InCalendar : InCalendar noon
noon-InCalendar = record {
  year = omega arith;
  month = omega arith;
  day = omega arith;
  hour = omega arith;
  minute = omega arith;
  second = omega arith;
  micros = omega arith;
}

-- A line for debugging is not written at first.
printf_run : printf debug1 noon (init_process_id 12 34) (codes "slow") new_logger ≡ none
unfolding printf
printf_run = refl

printf_lem_example :
    printf warning noon (init_process_id 12 34) (codes "slow") (set_log_severity debug1 new_logger)
    ≡ some (ok ((prefix noon (init_process_id 12 34) warning ++ codes "slow") ++ (10 ∷ [])))
printf_lem_example =
    printf_lem warning noon 12 34 (codes "slow") (set_log_severity debug1 new_logger)
      noon-InCalendar (omega arith) (omega arith)
