-- ===== src/Glow/SafeMu/System.antt =====
-- glow/safeMu.go: goroutines that lock and unlock one `SafeMu`, interleaved in any order.
use gca_backend.Base.{ℕ, ◌≡◌, false, [], ◌==◌, if◌then◌else◌}
use gca_backend.Base.Equality.{ℕ-Eq}
use gca_backend.Base.Result.{ok}
use gca_backend.Glow.SafeMu.{SafeMu, lock_entry, acquire, unlock}

-- Where a goroutine stands, with the number of its call of `Lock`.
pub data Place : Type 0 where
  outside : Place
  waiting : ℕ → Place
  holding : ℕ → Place

pub record System : Type 0 where
  pub mu : SafeMu
  pub place : ℕ → Place

abbrev pub update : ℕ → Place → (ℕ → Place) → ℕ → Place
update g p places h = if g == h then p else places h

abbrev pub unlocked : SafeMu
unlocked = record { counts = []; locks = []; inner_locked = false; locked = false }

abbrev pub start_system : System
start_system = record { mu = unlocked; place = λ g. outside }

-- Each goroutine locks when it holds nothing, and unlocks what it holds.
pub data Step (s : System) : System → Type 0 where
  call_lock :
      (g : ℕ) {mu : SafeMu} {n : ℕ}
      → s.place g ≡ outside
      → lock_entry g s.mu ≡ ok (mu, n)
      → Step s (record { mu = mu; place = update g (waiting n) s.place })
  enter :
      (g : ℕ) {n : ℕ}
      → s.place g ≡ waiting n
      → s.mu.locked ≡ false
      → Step s (record { mu = acquire s.mu; place = update g (holding n) s.place })
  call_unlock :
      (g : ℕ) {mu : SafeMu} {n : ℕ}
      → s.place g ≡ holding n
      → unlock g s.mu ≡ ok mu
      → Step s (record { mu = mu; place = update g outside s.place })

pub data Reach : System → Type 0 where
  start : Reach start_system
  next : {s t : System} → Reach s → Step s t → Reach t
