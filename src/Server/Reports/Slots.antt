-- ===== src/Server/Reports/Slots.antt =====
-- server/report_listener_udp.go: what one timeslot of one device holds after any reports.
use gca_backend.Base.{
  ℕ, ◌≤◌, ◌<◌, ◌≡◌, refl, ◌↔◌, ◌≢◌, ◌⊎◌, inl, inr, true, List, [], ◌∷◌, arith, ltb, ◌==◌,
  if◌then◌else◌, All, Bool-cases, ap, sym, subst, ◌∙◌,
}
use gca_backend.Base.Equality.{bytes_eq_iff}
use gca_backend.Glow.Report.{EquipmentReport}
use gca_backend.Server.Reports.{blank_report, report_eq, next_slot}

pub report_eq_iff : (a b : EquipmentReport) → (report_eq a b ≡ true) ↔ (a ≡ b)
unfolding report_eq
report_eq_iff a b = (
  λ h. ground (arith, bytes_eq_iff a.signature b.signature),
  λ e. ground (arith, bytes_eq_iff a.signature b.signature),
)

-- The abstract contents of a timeslot.
pub data Slot : Type 0 where
  empty : Slot
  accepted : EquipmentReport → Slot
  banned : Slot

-- Power 0 stands for no report and power 1 for a ban.
abbrev pub view : EquipmentReport → Slot
view r = if r.power_output == 0 then empty else if r.power_output == 1 then banned else accepted r

-- One report for the timeslot: bans stay, duplicates are ignored.
unfoldable pub step_slot : ℕ → EquipmentReport → EquipmentReport → EquipmentReport
step_slot limit current report =
    if current.power_output == 1
    then current
    else if report_eq current report
    then current
    else next_slot limit current report

unfoldable pub fill_slot : ℕ → EquipmentReport → List EquipmentReport → EquipmentReport
fill_slot limit current [] = current
fill_slot limit current (r ∷ rs) = fill_slot limit (step_slot limit current r) rs

-- Reports with a sentinel power are dropped before.
abbrev pub IsReal : EquipmentReport → Type 0
IsReal r = 2 ≤ r.power_output

fill_slot-banned :
    (limit : ℕ) (current : EquipmentReport) (rs : List EquipmentReport)
    → current.power_output ≡ 1
    → view (fill_slot limit current rs) ≡ banned
unfolding fill_slot step_slot
fill_slot-banned limit current [] h = ground arith
fill_slot-banned limit current (r ∷ rs) h = ground (arith, fill_slot-banned limit current rs h)

-- Over a slot that holds `r0`: it stays while the same report comes, and is banned by another.
abbrev pub AllSame : EquipmentReport → List EquipmentReport → Type 0
AllSame r0 [] = Unit {0}
AllSame r0 (r ∷ rs) = (r ≡ r0) × AllSame r0 rs

pub fill_slot-full :
    (limit : ℕ) (r0 : EquipmentReport) (rs : List EquipmentReport)
    → IsReal r0
    → ((view (fill_slot limit r0 rs) ≡ accepted r0) × AllSame r0 rs)
      ⊎ ((view (fill_slot limit r0 rs) ≡ banned) × (¬ AllSame r0 rs))
unfolding fill_slot step_slot next_slot
fill_slot-full limit r0 [] h = inl (ground arith, tt)
fill_slot-full limit r0 (r ∷ rs) h = elim (Bool-cases (report_eq r0 r)) [
  | inl same ↦ elim (fill_slot-full limit r0 rs h) [
    | inl (v, a) ↦ inl (ground (arith, v), (sym ((report_eq_iff r0 r).0 same), a))
    | inr (v, a) ↦ inr (ground (arith, v), λ p. a p.1)
  ]
  | inr other ↦ inr (
    ground (arith, fill_slot-banned limit (record r0 { power_output = 1 }) rs refl),
    λ p. ground (arith, (report_eq_iff r0 r).1 (sym p.0)),
  )
]

first_over :
    (limit : ℕ) (r : EquipmentReport) (rs : List EquipmentReport)
    → IsReal r
    → limit < r.power_output
    → view (fill_slot limit blank_report (r ∷ rs)) ≡ banned
unfolding fill_slot step_slot next_slot report_eq
first_over limit r rs real over =
    ground (arith, fill_slot-banned limit (record r { power_output = 1 }) rs refl)

first_fits :
    (limit : ℕ) (r : EquipmentReport) (rs : List EquipmentReport)
    → IsReal r
    → r.power_output ≤ limit
    → view (fill_slot limit blank_report (r ∷ rs)) ≡ view (fill_slot limit r rs)
unfolding fill_slot step_slot next_slot report_eq
first_fits limit r rs real fits = ground arith

-- When a timeslot that was blank receives the reports `rs`, all with a real power: it stays empty
-- exactly when there are none, and it holds a report `r` exactly when there are some, all of them are
-- `r`, and `r` respects the limit. So it is banned in every other case, and the order of arrival and
-- the number of copies do not matter.
pub fill_slot_verdict :
    (limit : ℕ) (rs : List EquipmentReport)
    → All IsReal rs
    → ((view (fill_slot limit blank_report rs) ≡ empty) ↔ (rs ≡ []))
      × ((r : EquipmentReport)
          → (view (fill_slot limit blank_report rs) ≡ accepted r)
            ↔ ((rs ≢ []) × AllSame r rs × (r.power_output ≤ limit)))
fill_slot_verdict limit [] h = (
  (λ _. refl, λ _. unfold fill_slot in refl),
  λ r. (λ e. unfold fill_slot in cc e, λ p. absurd (p.0 refl)),
)
fill_slot_verdict limit (r0 ∷ rs) h = elim (Bool-cases (ltb limit r0.power_output)) [
  | inl over ↦
      let b = first_over limit r0 rs h.0 (ground arith) in
      ((λ e. cc b, λ e. cc), λ r. (λ e. cc b, λ p. ground (arith, p.1.0, p.2)))
  | inr fits ↦
      let k = first_fits limit r0 rs h.0 (ground arith) in
      elim (fill_slot-full limit r0 rs h.0) [
        | inl (v, same) ↦ (
          (λ e. cc (k, v), λ e. cc),
          λ r. (
            λ e.
                let q : r0 ≡ r = cc (k, v) in
                (λ n. cc, (q, subst (λ x. AllSame x rs) q same), ground arith),
            λ p. k ∙ v ∙ ap accepted p.1.0,
          ),
        )
        | inr (v, differ) ↦ (
          (λ e. cc (k, v), λ e. cc),
          λ r. (λ e. cc (k, v), λ p. absurd (differ (subst (λ x. AllSame x rs) (sym p.1.0) p.1.1))),
        )
      ]
]
