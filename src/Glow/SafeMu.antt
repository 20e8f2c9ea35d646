-- ===== src/Glow/SafeMu.antt =====
-- glow/safeMu.go: a mutex that keeps which goroutines hold it or wait for it. The bodies of `Lock` and
-- `Unlock` up to the wait for the mutex run under the inner mutex of the lock map, so each is one step.
pub mod System
pub mod Listed
pub mod Sound
pub mod Exclusion
use gca_backend.Base.{
  ℕ, ◌+◌, Bool, true, false, ◌&&◌, ◌≡◌, refl, Option, none, some, ◌==◌, if◌then◌else◌,
}
use gca_backend.Base.Equality.{ℕ-Eq}
use gca_backend.Base.Map.{Map, lookup, insert, delete}
use gca_backend.Base.Result.{Result, ok, err, panic, ◌>>=◌}

-- `inner_locked` is the mutex of the lock map, `locked` the mutex itself. The maps of a `SafeMu` that was
-- never locked are empty.
pub record SafeMu : Type 0 where
  pub counts : Map ℕ ℕ
  pub locks : Map ℕ (Unit {0})
  pub inner_locked : Bool
  pub locked : Bool

abbrev pub exists : Option (Unit {0}) → Bool
exists none = false
exists (some _) = true

abbrev pub count_of : Option ℕ → ℕ
count_of none = 0
count_of (some n) = n

abbrev inner_lock : SafeMu → SafeMu
inner_lock sm = record sm { inner_locked = true }

-- `sync.Mutex.Unlock` of a mutex that is not locked is a fatal error.
abbrev inner_unlock : SafeMu → Result SafeMu
inner_unlock sm = if sm.inner_locked then ok (record sm { inner_locked = false }) else panic

abbrev register : ℕ → SafeMu → SafeMu
register id sm = record sm {
  locks = insert id tt sm.locks;
  counts = insert id (1 + count_of (lookup id sm.counts)) sm.counts;
}

-- `Lock` up to `sm.mu.Lock()`, by goroutine `id`, with the number of the call. A goroutine that is in
-- the map is reported, and the inner mutex is unlocked before the report and again at the end. What other goroutines do
-- between the two is left out.
unfoldable pub lock_entry : ℕ → SafeMu → Result (SafeMu × ℕ)
lock_entry id sm = do
  let begun = inner_lock sm
  reported ← (if exists (lookup id begun.locks) then inner_unlock begun else ok begun)
  let registered = register id reported
  last ← inner_unlock registered
  ok (last, count_of (lookup id registered.counts))

-- `sm.mu.Lock()` returns.
abbrev pub acquire : SafeMu → SafeMu
acquire sm = record sm { locked = true }

unfoldable pub unlock : ℕ → SafeMu → Result SafeMu
unlock id sm = do
  let begun = inner_lock sm
  left ← inner_unlock (
      if exists (lookup id begun.locks)
      then record begun { locks = delete id begun.locks }
      else begun)
  if left.locked then ok (record left { locked = false }) else panic

-- The test of `detectDeadlock` for the call of this number: it is reported, and tested again later.
unfoldable pub is_stuck : ℕ → ℕ → SafeMu → Bool
is_stuck id count sm = exists (lookup id sm.locks) && count_of (lookup id sm.counts) == count

-- A goroutine that locks while it is in the map crashes the program instead of being reported.
pub lock_entry_double :
    (id : ℕ) (sm : SafeMu) → exists (lookup id sm.locks) ≡ true → lock_entry id sm ≡ panic
unfolding lock_entry
lock_entry_double id sm there = rw there refl
