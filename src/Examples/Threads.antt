-- ===== src/Examples/Threads.antt =====
-- The theorems on the lock checker and the logger, for two goroutines and three messages.
use gca_backend.Base.{ℕ, ◌≡◌, ◌⊎◌, ◌++◌, refl, true, false, List, [], ◌∷◌}
use gca_backend.Base.Map.{lookup, insert}
use gca_backend.Base.Result.{ok}
use gca_backend.Glow.SafeMu.{SafeMu, lock_entry, unlock}
use gca_backend.Glow.SafeMu.System.{
  System, update, outside, waiting, holding, call_lock, enter, Reach, start, next,
}
use gca_backend.Glow.SafeMu.Exclusion.{Reach-progress}
use gca_backend.Server.Logger.{Logger, debug, warn, fatal}
use gca_backend.Server.Logger.Filter.{
  Message, log_all, kept_lines, logger_of, is_panicked, has_fatal, log_all_lem,
}

abbrev first_in : SafeMu
first_in = record {
  counts = (1, 1) ∷ [];
  locks = (1, tt) ∷ [];
  inner_locked = false;
  locked = false;
}

abbrev second_in : SafeMu
second_in = record {
  counts = (1, 1) ∷ (2, 1) ∷ [];
  locks = (1, tt) ∷ (2, tt) ∷ [];
  inner_locked = false;
  locked = true;
}

-- Goroutine 1 holds the mutex, and goroutine 2 waits for it.
abbrev contended : System
contended = record {
  mu = second_in;
  place = update 2 (waiting 1) (update 1 (holding 1) (update 1 (waiting 1) (λ g. outside)));
}

contended-Reach : Reach contended
unfolding lock_entry lookup insert
contended-Reach =
    next
      (next (next start (call_lock 1 {mu = first_in} {n = 1} refl refl))
        (enter 1 {n = 1} refl refl))
      (call_lock 2 {mu = second_in} {n = 1} refl refl)

Reach-progress_example :
    ((g : ℕ)
      → contended.place g ≡ outside
      → (mu : SafeMu) × (n : ℕ) × (lock_entry g contended.mu ≡ ok (mu, n)))
    × ((g n : ℕ) → contended.place g ≡ holding n → (mu : SafeMu) × (unlock g contended.mu ≡ ok mu))
    × ((contended.mu.locked ≡ false) ⊎ ((g : ℕ) × (n : ℕ) × (contended.place g ≡ holding n)))
Reach-progress_example = Reach-progress contended-Reach

abbrev logger : Logger
logger = record { level = warn; file = 10 ∷ [] }

abbrev messages : List Message
messages =
    record { time = 49 ∷ []; level = debug; text = 97 ∷ [] }
    ∷ record { time = 50 ∷ []; level = fatal; text = 98 ∷ [] }
    ∷ []

log_all_lem_example :
    ((logger_of (log_all logger messages)).file ≡ logger.file ++ kept_lines logger.level messages)
    × (is_panicked (log_all logger messages) ≡ has_fatal messages)
log_all_lem_example = log_all_lem logger messages
