-- ===== src/Server/Logger.antt =====
-- server/logger.go: the log file keeps the messages from a level on, and a fatal message panics.
pub mod Filter
use gca_backend.Base.{ℕ, List, [], ◌∷◌, ◌++◌, ltb, leb, ◌==◌, if◌then◌else◌}
use gca_backend.Base.Equality.{ℕ-Eq}
use gca_backend.Base.Bytes.{ascii}

-- The levels are numbered as in the source.
pub data LogLevel : Type 0 where
  debug info warn error fatal : LogLevel

abbrev pub rank : LogLevel → ℕ
rank debug = 0
rank info = 1
rank warn = 2
rank error = 3
rank fatal = 4

abbrev pub prefix : LogLevel → List ℕ
prefix debug = ascii "DEBUG"
prefix info = ascii "INFO"
prefix warn = ascii "WARN"
prefix error = ascii "ERROR"
prefix fatal = ascii "FATAL"

-- The file is opened to append. An error of a write is ignored, so a disk that is full loses messages.
pub record Logger : Type 0 where
  pub level : LogLevel
  pub file : List ℕ

-- `[time LEVEL] message` and a newline.
unfoldable pub log_line : List ℕ → LogLevel → List ℕ → List ℕ
log_line time level msg =
    ascii "[" ++ (time ++ (ascii " " ++ (prefix level ++ (ascii "] " ++ (msg ++ (10 ∷ []))))))

-- How a call ends.
pub data Logged : Type 0 where
  returned : Logger → Logged
  panicked : Logger → Logged

abbrev pub ending : LogLevel → Logger → Logged
ending fatal l = panicked l
ending _ l = returned l

-- The private `log`; the public methods call it with their level and the formatted message.
unfoldable pub log : Logger → List ℕ → LogLevel → List ℕ → Logged
log l time level msg =
    if leb (rank l.level) (rank level)
    then ending level (record l { file = l.file ++ log_line time level msg })
    else returned l
