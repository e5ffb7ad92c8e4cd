-- ===== src/Log.antt =====
-- The log of shared/cpp/common/src/log.cpp: the name of the service, which is a static variable, and
-- what the process has written to its two streams. The timestamp of a line is an argument.
pub mod Lines
mod Tests
use habr_parser.Base.{List, [], ◌∷◌, ◌++◌, Bool, true, false, Bytes, utf8, written, if◌then◌else◌}

pub record Log : Type 0 where
  pub service_name : Bytes
  pub cout : Bytes
  pub cerr : Bytes

pub initial : Log
initial = record { service_name = utf8 "service"; cout = []; cerr = [] }

-- `SetServiceName`
pub set_service_name : Bytes → Log → Log
set_service_name name l = record l { service_name = name }

pub record LogLine : Type 0 where
  pub buffer : Bytes
  pub to_stderr : Bool

-- `LogLine::LogLine`
pub log_line : Bytes → Bytes → Bool → Log → LogLine
log_line now level to_stderr l = record {
  buffer = written (now ∷ utf8 " [" ∷ level ∷ utf8 "] [" ∷ l.service_name ∷ utf8 "] " ∷ []);
  to_stderr = to_stderr;
}

-- `operator<<`, on a value that is printed
pub put : Bytes → LogLine → LogLine
put value line = record line { buffer = line.buffer ++ value }

pub put_all : List Bytes → LogLine → LogLine
put_all [] line = line
put_all (value ∷ values) line = put_all values (put value line)

-- `LogLine::~LogLine`
pub close : LogLine → Log → Log
close line l =
    if line.to_stderr
    then record l { cerr = l.cerr ++ (line.buffer ++ utf8 "\n") }
    else record l { cout = l.cout ++ (line.buffer ++ utf8 "\n") }

pub data Severity : Type 0 where
  info warn error : Severity

abbrev pub level_of : Severity → Bytes
level_of Severity.info = utf8 "INFO"
level_of Severity.warn = utf8 "WARN"
level_of Severity.error = utf8 "ERROR"

-- `LogInfo`, `LogWarn` and `LogError`
pub open_line : Severity → Bytes → Log → LogLine
open_line Severity.info now l = log_line now (level_of Severity.info) false l
open_line Severity.warn now l = log_line now (level_of Severity.warn) true l
open_line Severity.error now l = log_line now (level_of Severity.error) true l

-- The whole of a statement such as `LogInfo() << a << b;`.
pub log : Severity → Bytes → List Bytes → Log → Log
log severity now values l = close (put_all values (open_line severity now l)) l
