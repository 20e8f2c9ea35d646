-- ===== src/Glow/SafeMu/Sound.antt =====
-- glow/safeMu.go: the invariant of the mutex and its lock map.
use gca_backend.Base.{
  ℕ, ◌+◌, ◌≡◌, refl, sym, ap, ◌∙◌, inl, inr, false, arith, Bool-cases, subst, ==_iff, ◌==◌,
}
use gca_backend.Base.Equality.{ℕ-Eq}
use gca_backend.Base.Map.{lookup, insert, delete}
use gca_backend.Glow.SafeMu.{count_of, acquire}
use gca_backend.Glow.SafeMu.System.{
  Place, outside, waiting, holding, System, update, Step, call_lock, enter, call_unlock, Reach,
  start, next,
}
use gca_backend.Glow.SafeMu.Listed.{
  IsSound, IsSound-start, lock_entry_new, unlock_held, outside-unlisted, holding-listed,
  Listed-lock, Listed-unlock, Listed-enter,
}

-- A goroutine that waits is not one that holds the mutex.
waits_holding :
    (places : ℕ → Place) (g h m n : ℕ)
    → update g (waiting m) places h ≡ holding n
    → places h ≡ holding n
waits_holding places g h m n e = ground arith

-- Before a goroutine enters, nobody holds the mutex; so afterwards it is the only one.
enters_holding :
    (s : System)
    → IsSound s
    → s.mu.locked ≡ false
    → (g h m n : ℕ) → update g (holding m) s.place h ≡ holding n
    → g ≡ h
enters_holding s sound free g h m n e = elim (Bool-cases (g == h)) [
  | inl same ↦ (==_iff g h).0 same
  | inr other ↦
      let before : s.place h ≡ holding n = ground arith in
      absurd (ground (arith, sound.taken h n before))
]

-- When the only holder leaves, nobody holds the mutex.
leaves_holding :
    (s : System)
    → IsSound s
    → (g h m n : ℕ) → s.place g ≡ holding m
    → update g outside s.place h ≡ holding n
    → ⊥
leaves_holding s sound g h m n there e = elim (Bool-cases (g == h)) [
  | inl same ↦ ground arith
  | inr other ↦
      let before : s.place h ≡ holding n = ground arith in
      ground (arith, sound.alone g h m n there before)
]

call_lock-IsSound :
    (s : System) (g n : ℕ)
    → s.place g ≡ outside
    → IsSound s
    → IsSound (record {
      mu = record s.mu {
        locks = insert g tt s.mu.locks;
        counts = insert g n s.mu.counts;
        inner_locked = false;
      };
      place = update g (waiting n) s.place;
    })
call_lock-IsSound s g n there h = record {
  closed = refl;
  listed = λ k. Listed-lock s g n k (h.listed k);
  taken = λ k m e. h.taken k m (waits_holding s.place g k n m e);
  owner = λ locked.
      let (k, m, held) = h.owner locked in
      (
        k,
        m,
        elim (Bool-cases (g == k)) [
          | inl same ↦ let here = ap s.place ((==_iff g k).0 same) in absurd (ground arith)
          | inr other ↦ rw other held
        ],
      );
  alone = λ k l m m' e e'.
      h.alone k l m m' (waits_holding s.place g k n m e) (waits_holding s.place g l n m' e');
}

enter-IsSound :
    (s : System) (g n : ℕ)
    → s.place g ≡ waiting n
    → s.mu.locked ≡ false
    → IsSound s
    → IsSound (record { mu = acquire s.mu; place = update g (holding n) s.place })
enter-IsSound s g n there free h = record {
  closed = h.closed;
  listed = λ k. Listed-enter s g n k there (h.listed k);
  taken = λ k m e. refl;
  owner = λ locked. (g, n, ground arith);
  alone = λ k l m m' e e'.
      sym (enters_holding s h free g k n m e) ∙ enters_holding s h free g l n m' e';
}

call_unlock-IsSound :
    (s : System) (g n : ℕ)
    → s.place g ≡ holding n
    → IsSound s
    → IsSound (record {
      mu = record s.mu { locks = delete g s.mu.locks; inner_locked = false; locked = false };
      place = update g outside s.place;
    })
call_unlock-IsSound s g n there h = record {
  closed = refl;
  listed = λ k. Listed-unlock s g k (h.listed k);
  taken = λ k m e. absurd (leaves_holding s h g k n m there e);
  owner = λ locked. absurd (ground arith);
  alone = λ k l m m' e e'. absurd (leaves_holding s h g k n m there e);
}

Step-IsSound : {s t : System} → Step s t → IsSound s → IsSound t
Step-IsSound {s} (call_lock g {mu} {n} there e) h =
    let value = lock_entry_new g s.mu (outside-unlisted s h g there) in
    let number : 1 + count_of (lookup g s.mu.counts) ≡ n = ground arith in
    let same : record s.mu {
      locks = insert g tt s.mu.locks;
      counts = insert g n s.mu.counts;
      inner_locked = false;
    }
        ≡ mu =
      ground arith in
    subst (λ m. IsSound (record { mu = m; place = update g (waiting n) s.place })) same
      (call_lock-IsSound s g n there h)
Step-IsSound {s} (enter g {n} there free) h = enter-IsSound s g n there free h
Step-IsSound {s} (call_unlock g {mu} {n} there e) h =
    let value = unlock_held g s.mu (holding-listed s h g n there) (h.taken g n there) in
    let same : record s.mu { locks = delete g s.mu.locks; inner_locked = false; locked = false }
        ≡ mu =
      ground arith in
    subst (λ m. IsSound (record { mu = m; place = update g outside s.place })) same
      (call_unlock-IsSound s g n there h)

pub Reach-IsSound : {s : System} → Reach s → IsSound s
Reach-IsSound start = IsSound-start
Reach-IsSound (next r step) = Step-IsSound step (Reach-IsSound r)
