-- ===== src/Client/Sending/Agreement.antt =====
-- client/reports.go: a device sends at most one reading for a timeslot.
use gca_backend.Base.{◌≡◌, ◌⊎◌, All}
use gca_backend.Base.Equality.{ℕ-Eq}
use gca_backend.Base.Result.{Result}
use gca_backend.Client.State.{Client}
use gca_backend.Client.Reports.{EnergyRecord}
use gca_backend.Client.Sending.Recorded.{IsRecorded, IsAligned}
use gca_backend.Client.Sending.{Sender, reading_of}

-- What a run of the thread keeps: every record that was sent is in the history.
record IsLoop (s : Sender) : Type 0 where
  aligned : IsAligned s.client
  recorded : All (IsRecorded s.client) s.sent

-- Records for one timeslot have the same reading, in the 32 bits that the history keeps, or one has none.
abbrev pub Agree : EnergyRecord → EnergyRecord → Type 0
Agree a b =
    a.timeslot ≡ b.timeslot
    → (reading_of a ≡ 0) ⊎ (reading_of b ≡ 0) ⊎ (reading_of a ≡ reading_of b)
