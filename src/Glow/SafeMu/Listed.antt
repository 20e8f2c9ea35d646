-- ===== src/Glow/SafeMu/Listed.antt =====
-- glow/safeMu.go: what the lock map has for each goroutine, and what a call does to it.
use gca_backend.Base.{
  ℕ, ◌+◌, ◌≡◌, refl, sym, ap, ◌∙◌, inl, inr, true, false, Option, none, some, arith, Bool-cases,
  subst, ==_iff, ◌==◌,
}
use gca_backend.Base.Equality.{ℕ-Eq}
use gca_backend.Base.Map.{lookup, insert, delete, lookup-insert, lookup-delete}
use gca_backend.Base.Result.{ok}
use gca_backend.Glow.SafeMu.{SafeMu, count_of, lock_entry, unlock}
use gca_backend.Glow.SafeMu.System.{Place, outside, waiting, holding, System, update, start_system}

-- The number of the call that a goroutine is in.
abbrev pub call_of : Place → Option ℕ
call_of outside = none
call_of (waiting n) = some n
call_of (holding n) = some n

-- What the lock map has for a goroutine.
abbrev pub Listed : Option ℕ → Option (Unit {0}) → Option ℕ → Type 0
Listed none lock count = lock ≡ none
Listed (some n) lock count = (lock ≡ some tt) × (count ≡ some n)

pub record IsSound (s : System) : Type 0 where
  pub closed : s.mu.inner_locked ≡ false
  pub listed : (g : ℕ) → Listed (call_of (s.place g)) (lookup g s.mu.locks) (lookup g s.mu.counts)
  pub taken : (g n : ℕ) → s.place g ≡ holding n → s.mu.locked ≡ true
  pub owner : s.mu.locked ≡ true → (g : ℕ) × (n : ℕ) × (s.place g ≡ holding n)
  pub alone : (g h m n : ℕ) → s.place g ≡ holding m → s.place h ≡ holding n → g ≡ h

pub IsSound-start : IsSound start_system
unfolding lookup
IsSound-start = record {
  closed = refl;
  listed = λ g. refl;
  taken = λ g n h. absurd (ground arith);
  owner = λ h. absurd (ground arith);
  alone = λ g h m n p. absurd (ground arith);
}

-- `Lock` of a goroutine that is not in the map.
pub lock_entry_new :
    (g : ℕ) (sm : SafeMu)
    → lookup g sm.locks ≡ none
    → lock_entry g sm
      ≡ ok (
        record sm {
          locks = insert g tt sm.locks;
          counts = insert g (1 + count_of (lookup g sm.counts)) sm.counts;
          inner_locked = false;
        },
        1 + count_of (lookup g sm.counts),
      )
unfolding lock_entry
lock_entry_new g sm absent =
    ground (arith, lookup-insert g g (1 + count_of (lookup g sm.counts)) sm.counts)

pub unlock_held :
    (g : ℕ) (sm : SafeMu)
    → lookup g sm.locks ≡ some tt
    → sm.locked ≡ true
    → unlock g sm
      ≡ ok (record sm { locks = delete g sm.locks; inner_locked = false; locked = false })
unfolding unlock
unlock_held g sm present locked = ground arith

-- A goroutine that stands outside, and one that holds the mutex.
pub outside-unlisted :
    (s : System) → IsSound s → (g : ℕ) → s.place g ≡ outside → lookup g s.mu.locks ≡ none
outside-unlisted s h g there =
    subst (λ p. Listed (call_of p) (lookup g s.mu.locks) (lookup g s.mu.counts)) there (h.listed g)

pub holding-listed :
    (s : System) → IsSound s → (g n : ℕ) → s.place g ≡ holding n → lookup g s.mu.locks ≡ some tt
holding-listed s h g n there =
    (subst (λ p. Listed (call_of p) (lookup g s.mu.locks) (lookup g s.mu.counts)) there
      (h.listed g)).0

pub Listed-lock :
    (s : System) (g n h : ℕ)
    → Listed (call_of (s.place h)) (lookup h s.mu.locks) (lookup h s.mu.counts)
    → Listed
        (call_of (update g (waiting n) s.place h))
        (lookup h (insert g tt s.mu.locks))
        (lookup h (insert g n s.mu.counts))
Listed-lock s g n h before = elim (Bool-cases (g == h)) [
  | inl same ↦ rw same (
    lookup-insert g h tt s.mu.locks ∙ rw same refl,
    lookup-insert g h n s.mu.counts ∙ rw same refl,
  )
  | inr other ↦
      rw (other, lookup-insert g h tt s.mu.locks, lookup-insert g h n s.mu.counts, other) before
]

pub Listed-unlock :
    (s : System) (g h : ℕ)
    → Listed (call_of (s.place h)) (lookup h s.mu.locks) (lookup h s.mu.counts)
    → Listed
        (call_of (update g outside s.place h))
        (lookup h (delete g s.mu.locks))
        (lookup h s.mu.counts)
Listed-unlock s g h before = elim (Bool-cases (g == h)) [
  | inl same ↦ rw same (lookup-delete g h s.mu.locks ∙ rw same refl)
  | inr other ↦ rw (other, lookup-delete g h s.mu.locks, other) before
]

pub Listed-enter :
    (s : System) (g n h : ℕ)
    → s.place g ≡ waiting n
    → Listed (call_of (s.place h)) (lookup h s.mu.locks) (lookup h s.mu.counts)
    → Listed (call_of (update g (holding n) s.place h)) (lookup h s.mu.locks) (lookup h s.mu.counts)
Listed-enter s g n h there before = elim (Bool-cases (g == h)) [
  | inl same ↦
      let here : s.place h ≡ waiting n = ap s.place (sym ((==_iff g h).0 same)) ∙ there in
      rw same
        (subst (λ p. Listed (call_of p) (lookup h s.mu.locks) (lookup h s.mu.counts)) here before)
  | inr other ↦ rw other before
]
