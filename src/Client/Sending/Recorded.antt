-- ===== src/Client/Sending/Recorded.antt =====
-- client/reports.go and client/history.go: what a device sends is in its history.
use gca_backend.Base.{
  ℕ, ◌+◌, ◌%◌, ◌^◌, ◌≤◌, ◌<◌, ◌≡◌, ap, ◌⊎◌, inl, inr, Bool, true, false, List, [], ◌∷◌, arith,
  length, All, Bool-cases, ltb, ◌==◌, if◌then◌else◌, ==_iff,
}
use gca_backend.Base.Equality.{ℕ-Eq}
use gca_backend.Base.Result.{ok, Result-cases}
use gca_backend.Client.State.{Client}
use gca_backend.Client.Reports.{EnergyRecord}
use gca_backend.Client.History.{write_at, write_reading, static_load_reading, static_save_reading}
use gca_backend.Client.History.Readings.{
  IsInFile, place_of, byte_offset_lem, length-written, save_cases,
  static_load_reading-static_save_reading,
}
use gca_backend.Client.Energy.Range.{IsSmall}
use gca_backend.Client.Sending.{reading_of, later, save_first, send_round, add_sent}

-- The history of the device holds the reading of the record, in its 32 bits; a reading of 0 is as none.
pub record IsRecorded (c : Client) (er : EnergyRecord) : Type 0 where
  pub begun : c.static_history_offset ≤ er.timeslot
  pub near : er.timeslot + 1 < 2 ^ 30
  pub recorded : (reading_of er ≡ 0) ⊎ (static_load_reading c er.timeslot ≡ reading_of er)

-- The file holds whole numbers.
abbrev pub IsAligned : Client → Type 0
IsAligned c = length c.static_history_file % 4 ≡ 0

-- What a saved reading changes.
record Saved (c c' : Client) (er : EnergyRecord) : Type 0 where
  aligned : IsAligned c'
  recorded : IsRecorded c' er
  kept : (other : EnergyRecord) → IsRecorded c other → IsRecorded c' other

save_offset :
    (c c' : Client) (timeslot reading : ℕ)
    → static_save_reading c timeslot reading ≡ ok c'
    → (c.static_history_offset ≤ timeslot)
      × (c'.static_history_offset ≡ c.static_history_offset)
      × ((static_load_reading c timeslot ≡ reading) ⊎ (static_load_reading c timeslot ≡ 0))
unfolding static_save_reading write_reading
save_offset c c' timeslot reading e = (ground arith, ground arith, ground arith)

save-IsAligned :
    (c c' : Client) (timeslot reading : ℕ)
    → IsAligned c
    → IsInFile c timeslot
    → static_save_reading c timeslot reading ≡ ok c'
    → IsAligned c'
save-IsAligned c c' timeslot reading aligned inside e = elim (save_cases c c' timeslot reading e) [
  | inl (same, found) ↦ ground (arith, ap (λ (x : Client). length x.static_history_file) same)
  | inr written ↦ omega (
    arith,
    ap (λ (x : Client). length x.static_history_file) written,
    ap (λ (k : ℕ). length (write_at reading k c.static_history_file))
        (byte_offset_lem c timeslot inside),
    length-written c.static_history_file (place_of c timeslot) reading aligned,
  )
]

saved :
    (c c' : Client) (er : EnergyRecord)
    → IsAligned c
    → IsSmall er
    → static_save_reading c er.timeslot (reading_of er) ≡ ok c'
    → Saved c c' er
saved c c' er aligned small e =
    let (begun, same_offset, before) = save_offset c c' er.timeslot (reading_of er) e in
    let inside : IsInFile c er.timeslot = record { begun = begun; near = omega arith } in
    let value = λ (other : EnergyRecord) (h : IsInFile c other.timeslot).
      static_load_reading-static_save_reading c c' er.timeslot other.timeslot (reading_of er)
        aligned inside h (omega arith) e in
    record {
      aligned = save-IsAligned c c' er.timeslot (reading_of er) aligned inside e;
      recorded = record {
        begun = omega arith;
        near = small;
        recorded = inr (ground (arith, value er inside));
      };
      kept = λ other h. record {
        begun = omega (arith, h.begun);
        near = h.near;
        recorded =
            kept_value c c' er other h before
              (value other (record { begun = h.begun; near = omega (arith, h.near) }));
      };
    }
  where
    kept_value :
        (c c' : Client) (er other : EnergyRecord)
        → IsRecorded c other
        → (static_load_reading c er.timeslot ≡ reading_of er)
          ⊎ (static_load_reading c er.timeslot ≡ 0)
        → static_load_reading c' other.timeslot ≡ (
            if other.timeslot == er.timeslot
            then reading_of er
            else static_load_reading c other.timeslot)
        → (reading_of other ≡ 0) ⊎ (static_load_reading c' other.timeslot ≡ reading_of other)
    kept_value c c' er other h before value = elim h.recorded [
      | inl nothing ↦ inl nothing
      | inr there ↦ elim (Bool-cases (other.timeslot == er.timeslot)) [
        | inr apart ↦ inr (ground arith)
        | inl same ↦
            let here = ap (static_load_reading c) ((==_iff other.timeslot er.timeslot).0 same) in
            elim before [ inl equal ↦ inr (ground arith) | inr blank ↦ inl (ground arith) ]
      ]
    ]

-- What a number of saves keeps.
pub record Keeps (c c' : Client) : Type 0 where
  pub aligned : IsAligned c'
  pub kept : (other : EnergyRecord) → IsRecorded c other → IsRecorded c' other

Keeps-refl : (c : Client) → IsAligned c → Keeps c c
Keeps-refl c aligned = record { aligned = aligned; kept = λ other h. h }

Saved-Keeps : {c c' c'' : Client} {er : EnergyRecord} → Saved c c' er → Keeps c' c'' → Keeps c c''
Saved-Keeps s k = record { aligned = k.aligned; kept = λ other h. k.kept other (s.kept other h) }

pub save_first-Keeps :
    (c : Client) (latest : ℕ) (records : List EnergyRecord)
    → IsAligned c
    → All IsSmall records
    → Keeps c (save_first c latest records).0
unfolding save_first
save_first-Keeps c latest [] aligned small = Keeps-refl c aligned
save_first-Keeps c latest (er ∷ records) aligned (small, rest) =
    elim (Result-cases (static_save_reading c er.timeslot (reading_of er))) [
      | inl (c', e) ↦
          let s = saved c c' er aligned small e in
          rw (save_first, e)
            (Saved-Keeps s (save_first-Keeps c' (later latest er.timeslot) records s.aligned rest))
      | inr (inl (e', e)) ↦ rw (save_first, e) (save_first-Keeps c latest records aligned rest)
      | inr (inr e) ↦ rw (save_first, e) (save_first-Keeps c latest records aligned rest)
    ]

All-add_sent :
    (c : Client) (test : Bool) (er : EnergyRecord) (sent : List EnergyRecord)
    → IsRecorded c er
    → All (IsRecorded c) sent
    → All (IsRecorded c) (add_sent test er sent)
All-add_sent c true er sent h k = (h, k)
All-add_sent c false er sent h k = k

pub send_round-Keeps :
    (c : Client) (latest : ℕ) (records : List EnergyRecord)
    → IsAligned c
    → All IsSmall records
    → Keeps c (send_round c latest records).0
      × All (IsRecorded (send_round c latest records).0) (send_round c latest records).1
unfolding send_round
send_round-Keeps c latest [] aligned small = (Keeps-refl c aligned, tt)
send_round-Keeps c latest (er ∷ records) aligned (small, rest) =
    elim (Result-cases (static_save_reading c er.timeslot (reading_of er))) [
      | inl (c', e) ↦
          let s = saved c c' er aligned small e in
          let (k, sent) = send_round-Keeps c' latest records s.aligned rest in
          rw (send_round, e)
            (
              Saved-Keeps s k,
              All-add_sent _ (ltb latest er.timeslot) er _ (k.kept er s.recorded) sent,
            )
      | inr (inl (e', e)) ↦ rw (send_round, e) (send_round-Keeps c latest records aligned rest)
      | inr (inr e) ↦ rw (send_round, e) (send_round-Keeps c latest records aligned rest)
    ]
