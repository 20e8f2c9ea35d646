-- ===== src/Admin/ShortIds.antt =====
-- bin/gca-admin/main.go: no two pieces of equipment get the same short ID.
use gca_backend.Base.{
  ℕ, ◌+◌, ◌^◌, ◌≤◌, ◌<◌, ◌≡◌, refl, ap, ◌∙◌, inl, inr, Option, none, some, List, [], ◌∷◌, arith,
  length,
}
use gca_backend.Base.Equality.{ℕ-Eq, bytes-Eq}
use gca_backend.Base.Map.{lookup}
use gca_backend.Base.Bytes.{put_uint}
use gca_backend.Glow.Signatures.{EthCrypto}
use gca_backend.Admin.{GcaData}
use gca_backend.Admin.Commands.{Call, run}
use gca_backend.Admin.Effects.{id_of}
use gca_backend.Admin.Spending.{run-Effect}

abbrev pub add_id : Option ℕ → List ℕ → List ℕ
add_id none ids = ids
add_id (some id) ids = id ∷ ids

-- The state after the calls, with the short IDs that were posted, in order.
unfoldable pub run_all : EthCrypto → List Call → GcaData → GcaData × List ℕ
run_all eth [] s = (s, [])
run_all eth (call ∷ calls) s =
    let (s', outcome) = run eth call s in
    let (last, ids) = run_all eth calls s' in (last, add_id (id_of outcome) ids)

-- From `n` on, each is more than the one before.
abbrev pub IsIncreasing : ℕ → List ℕ → Type 0
IsIncreasing n [] = Unit {0}
IsIncreasing n (id ∷ ids) = (n ≤ id) × IsIncreasing (id + 1) ids

IsIncreasing-le : (m n : ℕ) (ids : List ℕ) → m ≤ n → IsIncreasing n ids → IsIncreasing m ids
IsIncreasing-le m n [] h k = tt
IsIncreasing-le m n (id ∷ ids) h k = (omega (arith, k.0), k.1)

-- Whatever commands a GCA runs from a short ID file that holds `n`, failing ones among them: the short
-- IDs that it posts to the servers are `n` or more and strictly increase, so no two devices get the same one; and
-- the directories of the devices below `n` stay as they are. The counter must not reach 2 ^ 32.
pub run_all-IsIncreasing :
    (eth : EthCrypto) (calls : List Call) (s : GcaData) (n : ℕ)
    → n + length calls < 2 ^ 32
    → s.latest_short_id ≡ some (put_uint 4 n)
    → IsIncreasing n (run_all eth calls s).1
      × ((id : ℕ) → id < n → lookup id (run_all eth calls s).0.clients ≡ lookup id s.clients)
unfolding run_all
run_all-IsIncreasing eth [] s n fits there = (tt, λ id below. refl)
run_all-IsIncreasing eth (call ∷ calls) s n fits there =
    elim (run-Effect eth call s n (omega arith) there) [
      | inl (u, nothing) ↦
          let (up, kept) =
            run_all-IsIncreasing eth calls (run eth call s).0 n (omega arith)
              (u.same_short_id ∙ there) in
          rw nothing (up, λ id below. kept id below ∙ ap (lookup id) u.same_clients)
      | inr spent ↦
          let (up, kept) =
            run_all-IsIncreasing eth calls (run eth call s).0 (n + 1) (omega arith)
              spent.next_short_id in
          (
            elim spent.posted_id [
              | inl nothing ↦ rw nothing (IsIncreasing-le n (n + 1) _ (omega arith) up)
              | inr with_id ↦ rw with_id (omega arith, up)
            ],
            λ id below. kept id (omega arith) ∙ spent.kept id below,
          )
    ]
