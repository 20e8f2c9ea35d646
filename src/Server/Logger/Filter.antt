-- ===== src/Server/Logger/Filter.antt =====
-- server/logger.go: what the log file holds after any messages.
use gca_backend.Base.{
  ℕ, ◌≡◌, refl, ◌∙◌, ◌⊎◌, inl, inr, Bool, List, [], ◌∷◌, ◌++◌, arith, leb, append_assoc, append-nil,
  sym, ◌||◌, if◌then◌else◌,
}
use gca_backend.Server.Logger.{
  LogLevel, fatal, rank, Logger, log_line, Logged, returned, panicked, log,
}

-- A message with the time at which it is logged.
pub record Message : Type 0 where
  pub time : List ℕ
  pub level : LogLevel
  pub text : List ℕ

abbrev pub logger_of : Logged → Logger
logger_of (returned l) = l
logger_of (panicked l) = l

-- The calls until one of them panics.
unfoldable pub log_all : Logger → List Message → Logged
log_all l [] = returned l
log_all l (m ∷ ms) = elim (log l m.time m.level m.text) [
  | returned l' ↦ log_all l' ms
  | panicked l' ↦ panicked l'
]

abbrev pub is_fatal : LogLevel → Bool
is_fatal fatal = Bool.true
is_fatal _ = Bool.false

-- The lines of the messages from a level on, the first fatal one the last.
unfoldable pub kept_lines : LogLevel → List Message → List ℕ
kept_lines level [] = []
kept_lines level (m ∷ ms) =
    let rest = kept_lines level ms in
    if leb (rank level) (rank m.level)
    then (if is_fatal m.level
        then log_line m.time m.level m.text
        else log_line m.time m.level m.text ++ rest)
    else rest

log_cases :
    (l : Logger) (m : Message)
    → ((leb (rank l.level) (rank m.level) ≡ Bool.false)
        × (log l m.time m.level m.text ≡ returned l))
      ⊎ ((leb (rank l.level) (rank m.level) ≡ Bool.true)
          × (is_fatal m.level ≡ Bool.true)
          × (log l m.time m.level m.text
              ≡ panicked (record l { file = l.file ++ log_line m.time m.level m.text })))
      ⊎ ((leb (rank l.level) (rank m.level) ≡ Bool.true)
          × (is_fatal m.level ≡ Bool.false)
          × (log l m.time m.level m.text
              ≡ returned (record l { file = l.file ++ log_line m.time m.level m.text })))
unfolding log
log_cases l m = ground arith

abbrev pub has_fatal : List Message → Bool
has_fatal [] = Bool.false
has_fatal (m ∷ ms) = is_fatal m.level || has_fatal ms

abbrev pub is_panicked : Logged → Bool
is_panicked (returned l) = Bool.false
is_panicked (panicked l) = Bool.true

fatal_kept : (l m : LogLevel) → is_fatal m ≡ Bool.true → leb (rank l) (rank m) ≡ Bool.true
fatal_kept l m h = ground arith

-- After any calls the file has, behind what it had, one line for each message from the level of the
-- logger on, in their order, up to the first fatal one; and some call panics exactly if a message is fatal.
pub log_all_lem :
    (l : Logger) (ms : List Message)
    → ((logger_of (log_all l ms)).file ≡ l.file ++ kept_lines l.level ms)
      × (is_panicked (log_all l ms) ≡ has_fatal ms)
unfolding log_all kept_lines
log_all_lem l [] = (sym (append-nil l.file), refl)
log_all_lem l (m ∷ ms) = elim (log_cases l m) [
  | inl (low, e) ↦
      let (file, ends) = log_all_lem l ms in
      let calm : is_fatal m.level ≡ Bool.false = ground (arith, fatal_kept l.level m.level) in
      rw (log_all, e, low, calm) (file, ends)
  | inr (inl (high, deadly, e)) ↦ rw (log_all, e, high, deadly) (refl, refl)
  | inr (inr (high, calm, e)) ↦
      let l' = record l { file = l.file ++ log_line m.time m.level m.text } in
      let (file, ends) = log_all_lem l' ms in
      rw (log_all, e, high, calm)
        (file ∙ append_assoc l.file (log_line m.time m.level m.text) (kept_lines l.level ms), ends)
]
