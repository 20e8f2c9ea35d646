-- ===== src/Glow/SafeMu/Exclusion.antt =====
-- glow/safeMu.go: what holds however the goroutines are interleaved.
use gca_backend.Base.{ℕ, ◌≡◌, ◌⊎◌, inl, inr, false, Bool-cases}
use gca_backend.Base.Equality.{ℕ-Eq}
use gca_backend.Base.Result.{ok}
use gca_backend.Glow.SafeMu.{SafeMu, lock_entry, unlock}
use gca_backend.Glow.SafeMu.Listed.{lock_entry_new, unlock_held, outside-unlisted, holding-listed}
use gca_backend.Glow.SafeMu.Sound.{Reach-IsSound}
use gca_backend.Glow.SafeMu.System.{outside, holding, System, Reach}

-- In every such state the checker is in nobody's way: no call of `Lock` or `Unlock` fails, and while a
-- goroutine waits, the mutex is free or some goroutine holds it and can unlock it.
pub Reach-progress :
    {s : System}
    → Reach s
    → ((g : ℕ) → s.place g ≡ outside → (mu : SafeMu) × (n : ℕ) × (lock_entry g s.mu ≡ ok (mu, n)))
      × ((g n : ℕ) → s.place g ≡ holding n → (mu : SafeMu) × (unlock g s.mu ≡ ok mu))
      × ((s.mu.locked ≡ false) ⊎ ((g : ℕ) × (n : ℕ) × (s.place g ≡ holding n)))
Reach-progress {s} r =
    let h = Reach-IsSound r in
    (
      λ g there. (_, _, lock_entry_new g s.mu (outside-unlisted s h g there)),
      λ g n there. (_, unlock_held g s.mu (holding-listed s h g n there) (h.taken g n there)),
      elim (Bool-cases s.mu.locked) [ inl locked ↦ inr (h.owner locked) | inr free ↦ inl free ],
    )
