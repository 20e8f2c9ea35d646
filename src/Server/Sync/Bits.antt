-- ===== src/Server/Sync/Bits.antt =====
-- server/sync_listener_tcp.go and client/reports.go: the two sides of the bitfield agree.
use gca_backend.Base.{
  ℕ, zero, suc, ◌+◌, ◌*◌, ◌/◌, ◌%◌, ◌^◌, ◌≤◌, ◌<◌, ◌≡◌, refl, sym, ap, ◌∙◌, some, arith, length,
  get_elem?, ltb, if◌then◌else◌,
}
use native.Mathlib.Nat.{pow-succ', div-div-eq-div-mul}
use gca_backend.Glow.Report.{EquipmentReport}
use gca_backend.Server.State.{Array}
use gca_backend.Server.Sync.{bits, bitfield_from}

abbrev pub bit_of : EquipmentReport → ℕ
bit_of r = if ltb 0 r.power_output then 1 else 0

pub length-bitfield_from :
    (n i : ℕ) (reports : Array EquipmentReport) → length (bitfield_from n i reports) ≡ n
unfolding bitfield_from
length-bitfield_from zero i reports = refl
length-bitfield_from (suc n) i reports = ap suc (length-bitfield_from n (i + 8) reports)

byte_at :
    (n k i : ℕ) (reports : Array EquipmentReport)
    → k < n
    → get_elem? (bitfield_from n i reports) k ≡ some (bits 8 (i + 8 * k) reports)
unfolding bitfield_from
byte_at zero k i reports h = absurd (omega arith)
byte_at (suc n) zero i reports h = let here : i + 8 * 0 ≡ i = omega arith in rw here refl
byte_at (suc n) (suc k) i reports h =
    let there : i + 8 * suc k ≡ i + 8 + 8 * k = omega arith in
    rw there (byte_at n k (i + 8) reports (omega arith))

bit_small : (r : EquipmentReport) → bit_of r ≤ 1
bit_small r = ground arith

halves : (b m j : ℕ) → b ≤ 1 → (b + 2 * m) / 2 ^ suc j ≡ m / 2 ^ j
halves b m j h =
    let half : (b + 2 * m) / 2 ≡ m = omega arith in
    ap (λ (k : ℕ). (b + 2 * m) / k) (pow-succ' 2 j)
    ∙ sym (div-div-eq-div-mul (b + 2 * m) 2 (2 ^ j))
    ∙ ap (λ (k : ℕ). k / 2 ^ j) half

bits_at :
    (n i j : ℕ) (reports : Array EquipmentReport)
    → j < n
    → bits n i reports / 2 ^ j % 2 ≡ bit_of (reports (i + j))
unfolding bits
bits_at zero i j reports h = absurd (omega arith)
bits_at (suc n) i zero reports h =
    let here : i + 0 ≡ i = omega arith in let small = bit_small (reports i) in rw here (omega arith)
bits_at (suc n) i (suc j) reports h =
    let there : i + suc j ≡ i + 1 + j = omega arith in
    rw (there, halves (bit_of (reports i)) (bits n (i + 1) reports) j (bit_small (reports i)))
      (bits_at n (i + 1) j reports (omega arith))

pub bitfield_byte :
    (reports : Array EquipmentReport) (i : ℕ)
    → i < 4032
    → (byte : ℕ) × (get_elem? (bitfield_from 504 0 reports) (i / 8) ≡ some byte)
bitfield_byte reports i h =
    (bits 8 (0 + 8 * (i / 8)) reports, byte_at 504 (i / 8) 0 reports (omega arith))

-- A bit of the bitfield that the server sends is set for exactly those of the 4032 slots whose report
-- has a power output that is not zero.
pub bitfield_bit :
    (reports : Array EquipmentReport) (i byte : ℕ)
    → i < 4032
    → get_elem? (bitfield_from 504 0 reports) (i / 8) ≡ some byte
    → byte / 2 ^ (i % 8) % 2 ≡ (if ltb 0 (reports i).power_output then 1 else 0)
bitfield_bit reports i byte h e =
    let found = byte_at 504 (i / 8) 0 reports (omega arith) in
    let same : byte ≡ bits 8 (0 + 8 * (i / 8)) reports = ground arith in
    let place : 0 + 8 * (i / 8) + i % 8 ≡ i = omega arith in
    ap (λ (k : ℕ). k / 2 ^ (i % 8) % 2) same
    ∙ bits_at 8 (0 + 8 * (i / 8)) (i % 8) reports (omega arith)
    ∙ ap (λ (k : ℕ). bit_of (reports k)) place
