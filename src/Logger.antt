-- ===== src/Logger.antt =====
-- tools/pg_cluster_backend/psc/pgstatlogger/pg_stat_logger.py: the queue of `PSCLogger`. What
-- `logging` writes is a list of records.
pub mod Order
use pg_cluster.Base.{
  Bool, Bytes, List, [], false, if◌then◌else◌, leb, true, ℕ, ◌%◌, ◌++◌, ◌==◌, ◌||◌, ◌∷◌,
}

-- The codes of `log`; any other text is neither stored nor written.
pub data Code : Type 0 where
  debug_code info_code warning_code error_code unknown_code : Code

-- An element of `log_queue`
abbrev pub Entry : Type 0
Entry = Code × Bytes

pub record PscLogger : Type 0 where
  pub log_level : ℕ
  pub log_queue : List Entry
  pub do_stop : Bool
  pub written : List Entry

-- `PSCLogger(...)` with a level of `logging`: DEBUG 10, INFO 20, WARNING 30, ERROR 40
unfoldable pub new_logger : ℕ → PscLogger
new_logger level = record { log_level = level; log_queue = []; do_stop = false; written = [] }

-- The tests of `log`
unfoldable pub is_logged : Code → ℕ → Bool
is_logged debug_code level = level == 10
is_logged info_code level = leb level 20
is_logged warning_code level = leb level 30
is_logged error_code level = leb level 40
is_logged unknown_code level = false

-- `log(msg, code)`
unfoldable pub log : Bytes → Code → PscLogger → PscLogger
log msg code s =
    if is_logged code s.log_level
    then record s { log_queue = s.log_queue ++ (code, msg) ∷ [] }
    else s

-- The tests of `logging` on a record: it is written from its level on.
unfoldable pub is_enabled : Code → ℕ → Bool
is_enabled debug_code level = leb level 10
is_enabled info_code level = leb level 20
is_enabled warning_code level = leb level 30
is_enabled error_code level = leb level 40
is_enabled unknown_code level = false

-- The loop of `flush_data`
unfoldable pub write_all : ℕ → List Entry → List Entry
write_all level [] = []
write_all level ((code, msg) ∷ queue) =
    let rest = write_all level queue in if is_enabled code level then (code, msg) ∷ rest else rest

-- `flush_data`
unfoldable pub flush_data : PscLogger → PscLogger
flush_data s = record s { log_queue = []; written = s.written ++ write_all s.log_level s.log_queue }

unfoldable pub stop : PscLogger → PscLogger
stop s = record s { do_stop = true }

-- The thread of the logger and the threads that use it, in any interleaving: the lock makes `log`
-- and `flush_data` single steps.
pub data Event : Type 0 where
  logs : Bytes → Code → Event
  wakes : ℕ → Event
  stops : Event

-- A round of `run` where `live_iteration` is known
unfoldable pub wake : ℕ → PscLogger → PscLogger
wake live_iteration s = if (live_iteration % 50 == 0) || s.do_stop then flush_data s else s

unfoldable pub on_event : Event → PscLogger → PscLogger
on_event (logs msg code) s = log msg code s
on_event (wakes n) s = wake n s
on_event stops s = stop s

unfoldable pub run_events : List Event → PscLogger → PscLogger
run_events [] s = s
run_events (e ∷ es) s = run_events es (on_event e s)

-- `run` to its end: the loop, and the last flush behind it
unfoldable pub run_logger : List Event → PscLogger → PscLogger
run_logger events s = flush_data (run_events events s)
