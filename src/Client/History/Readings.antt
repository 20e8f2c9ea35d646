-- ===== src/Client/History/Readings.antt =====
-- client/history.go: a reading is kept, and no other reading changes.
pub mod Slices
use gca_backend.Base.{
  ℕ, zero, suc, ◌+◌, ◌-◌, ◌*◌, ◌%◌, ◌^◌, ◌≤◌, ◌<◌, ◌≡◌, ◌⊎◌, inl, inr, refl, ap, sym, ◌∙◌, false,
  List, [], ◌∷◌, ◌++◌, arith, length, take, drop, replicate, ltb, ◌==◌, if◌then◌else◌,
  length-append, length-take, length-drop, length-replicate, drop-append, take_all, Bool-cases,
}
use gca_backend.Base.Equality.{ℕ-Eq}
use gca_backend.Base.Bytes.{
  put_uint, uint, slice, length-put_uint, uint-put_uint, slice_mid, drop-drop,
}
use gca_backend.Base.Result.{ok}
use gca_backend.Client.State.{Client}
use gca_backend.Client.History.{
  write_at, byte_offset, read_at, static_load_reading, write_reading, static_save_reading,
}
use gca_backend.Client.History.Readings.Slices.{
  slice_front, slice_behind, slice-drop, slice-take, slice-replicate,
}

module _ (file : List ℕ) (j n : ℕ) (whole : length file % 4 ≡ 0) where
  front : List ℕ
  front = take (4 * j) file ++ replicate (4 * j - length file) 0

  back : List ℕ
  back = put_uint 4 n ++ drop (4 * j + 4) file

  written_parts : write_at n (4 * j) file ≡ front ++ back
  unfolding write_at front back
  written_parts = refl

  length-front : length front ≡ 4 * j
  unfolding front
  length-front = omega (
    arith,
    length-append (take (4 * j) file) (replicate (4 * j - length file) 0),
    length-take (4 * j) file,
    length-replicate {A = ℕ} (4 * j - length file) 0,
  )

  length-back : length back ≡ 4 + (length file - (4 * j + 4))
  unfolding back
  length-back = omega (
    arith,
    length-append (put_uint 4 n) (drop (4 * j + 4) file),
    length-put_uint 4 n,
    length-drop (4 * j + 4) file,
  )

  pub length-written : length (write_at n (4 * j) file) ≡ 4 * j + 4 + (length file - (4 * j + 4))
  length-written =
      omega (arith, ap length written_parts, length-append front back, length-front, length-back)

  slice_here : slice (4 * j) (4 * j + 4) (write_at n (4 * j) file) ≡ put_uint 4 n
  slice_here =
      ap (slice (4 * j) (4 * j + 4)) written_parts
      ∙ (unfold back in
          slice_mid (4 * j) (4 * j + 4) front (put_uint 4 n) (drop (4 * j + 4) file) length-front
            (omega (arith, length-put_uint 4 n)))

  back_after :
      (a b : ℕ)
      → length (put_uint 4 n) ≤ a
      → a ≤ b
      → slice a b back
        ≡ slice (a - length (put_uint 4 n)) (b - length (put_uint 4 n)) (drop (4 * j + 4) file)
  unfolding back
  back_after a b h k = slice_behind a b (put_uint 4 n) (drop (4 * j + 4) file) h k

  slice_after :
      (k : ℕ)
      → j < k
      → slice (4 * k) (4 * k + 4) (write_at n (4 * j) file) ≡ slice (4 * k) (4 * k + 4) file
  slice_after k h =
      let a = 4 * k - length front in
      let b = 4 * k + 4 - length front in
      let size = length-put_uint 4 n in
      let ea : 4 * j + 4 + (a - length (put_uint 4 n)) ≡ 4 * k = omega (arith, length-front) in
      let eb : 4 * j + 4 + (b - length (put_uint 4 n)) ≡ 4 * k + 4 = omega (arith, length-front) in
      ap (slice (4 * k) (4 * k + 4)) written_parts
      ∙ slice_behind (4 * k) (4 * k + 4) front back (omega (arith, length-front)) (omega arith)
      ∙ back_after a b (omega (arith, length-front)) (omega arith)
      ∙ slice-drop (a - length (put_uint 4 n)) (b - length (put_uint 4 n)) (4 * j + 4) file
          (omega arith)
      ∙ ap (λ (x : ℕ). slice x (4 * j + 4 + (b - length (put_uint 4 n))) file) ea
      ∙ ap (λ (x : ℕ). slice (4 * k) x file) eb

  slice_before :
      (k : ℕ)
      → k < j
      → slice (4 * k) (4 * k + 4) (write_at n (4 * j) file) ≡ slice (4 * k) (4 * k + 4) front
  slice_before k h =
      ap (slice (4 * k) (4 * k + 4)) written_parts
      ∙ slice_front (4 * k) (4 * k + 4) front back (omega arith) (omega (arith, length-front))

  slice_kept :
      (k : ℕ)
      → k < j
      → 4 * k + 4 ≤ length file
      → slice (4 * k) (4 * k + 4) front ≡ slice (4 * k) (4 * k + 4) file
  unfolding front
  slice_kept k h inside =
      slice_front (4 * k) (4 * k + 4) (take (4 * j) file) (replicate (4 * j - length file) 0)
        (omega arith) (omega (arith, length-take (4 * j) file))
      ∙ slice-take (4 * k) (4 * k + 4) (4 * j) file (omega arith) (omega arith)

  slice_gap : (k : ℕ) → k < j → length file ≤ 4 * k → uint (slice (4 * k) (4 * k + 4) front) ≡ 0
  unfolding front uint
  slice_gap k h outside =
      let size = ap length (take_all (4 * j) file (omega arith)) in
      let four : 4 * k + 4 - length (take (4 * j) file) - (4 * k - length (take (4 * j) file)) ≡ 4 =
        omega arith in
      ap uint (
        slice_behind (4 * k) (4 * k + 4) (take (4 * j) file) (replicate (4 * j - length file) 0)
          (omega arith) (omega arith)
        ∙ slice-replicate _ _ (4 * j - length file) 0 (omega arith) (omega arith)
        ∙ ap (λ (x : ℕ). replicate x 0) four)

  -- A number that is written in its place of the file is read back, and every other place keeps its number.
  pub read_at-write_at :
      (k : ℕ)
      → n < 2 ^ 32
      → read_at (4 * k) (write_at n (4 * j) file) ≡ (if k == j then n else read_at (4 * k) file)
  unfolding read_at
  read_at-write_at k h = elim (order k j) [
    | inl before ↦ elim (inside_or_out k) [
      | inl inside ↦
          ground (arith, length-written, slice_before k before ∙ slice_kept k before inside)
      | inr outside ↦
          ground
            (arith, length-written, ap uint (slice_before k before) ∙ slice_gap k before outside)
    ]
    | inr (inl here) ↦
        let size = length-written in
        let value = ap uint slice_here ∙ uint-put_uint 4 n h in rw here (ground (arith, value))
    | inr (inr after) ↦ ground (arith, length-written, slice_after k after)
  ]
    where
      order : (k j : ℕ) → (k < j) ⊎ (k ≡ j) ⊎ (j < k)
      order k j = ground arith

      inside_or_out : (k : ℕ) → (4 * k + 4 ≤ length file) ⊎ (length file ≤ 4 * k)
      inside_or_out k = ground (arith, whole)

-- The place of a timeslot in the file, counted in readings, where the arithmetic does not wrap around.
abbrev pub place_of : Client → ℕ → ℕ
place_of c timeslot = 1 + (timeslot - c.static_history_offset)

-- The timeslot is in the file, less than 2 ^ 30 - 1 timeslots behind its offset.
pub record IsInFile (c : Client) (timeslot : ℕ) : Type 0 where
  pub begun : c.static_history_offset ≤ timeslot
  pub near : timeslot + 1 < c.static_history_offset + 2 ^ 30

pub byte_offset_lem :
    (c : Client) (timeslot : ℕ)
    → IsInFile c timeslot
    → byte_offset c.static_history_offset timeslot ≡ 4 * place_of c timeslot
byte_offset_lem c timeslot h = omega (arith, h.begun, h.near)

load_lem :
    (c : Client) (timeslot : ℕ)
    → IsInFile c timeslot
    → static_load_reading c timeslot ≡ read_at (4 * place_of c timeslot) c.static_history_file
unfolding static_load_reading
load_lem c timeslot h =
    let begun = h.begun in
    let same : ltb timeslot c.static_history_offset ≡ false = ground arith in
    rw (same, byte_offset_lem c timeslot h) refl

-- A save that succeeds found the reading there already, or found nothing and wrote it.
pub save_cases :
    (c c' : Client) (timeslot reading : ℕ)
    → static_save_reading c timeslot reading ≡ ok c'
    → ((c' ≡ c) × (static_load_reading c timeslot ≡ reading))
      ⊎ (c' ≡ record c {
        static_history_file =
            write_at reading (byte_offset c.static_history_offset timeslot) c.static_history_file;
      })
unfolding static_save_reading write_reading
save_cases c c' timeslot reading e = elim (Bool-cases (ltb timeslot c.static_history_offset)) [
  | inl early ↦ absurd (ground arith)
  | inr begun ↦ elim (Bool-cases (static_load_reading c timeslot == reading)) [
    | inl same ↦ inl (ground arith, ground arith)
    | inr other ↦ inr (ground arith)
  ]
]

load-written :
    (c : Client) (timeslot other reading : ℕ)
    → length c.static_history_file % 4 ≡ 0
    → IsInFile c timeslot
    → IsInFile c other
    → reading < 2 ^ 32
    → static_load_reading
        (record c {
          static_history_file =
              write_at reading (byte_offset c.static_history_offset timeslot) c.static_history_file;
        })
        other
      ≡ (if other == timeslot then reading else static_load_reading c other)
load-written c timeslot other reading whole h h' small =
    let place = byte_offset_lem c timeslot h in
    let file' =
      write_at reading (byte_offset c.static_history_offset timeslot) c.static_history_file in
    let inside : IsInFile (record c { static_history_file = file' }) other = record {
      begun = h'.begun;
      near = h'.near;
    } in
    let read = load_lem (record c { static_history_file = file' }) other inside in
    let written =
      ap (λ (k : ℕ). read_at (4 * place_of c other) (write_at reading k c.static_history_file))
        place in
    let value =
      read_at-write_at c.static_history_file (place_of c timeslot) reading whole (place_of c other)
        small in
    let before = load_lem c other h' in
    let begun = h.begun in
    let begun' = h'.begun in
    let test : (place_of c other == place_of c timeslot) ≡ (other == timeslot) = ground arith in
    read
    ∙ written
    ∙ value
    ∙ ap (λ b. if b then reading else read_at (4 * place_of c other) c.static_history_file) test
    ∙ ap (λ (k : ℕ). if other == timeslot then reading else k) (sym before)

-- A reading that `staticSaveReading` accepts is what `staticLoadReading` then gives for its timeslot, and
-- the reading of no other timeslot changes.
pub static_load_reading-static_save_reading :
    (c c' : Client) (timeslot other reading : ℕ)
    → length c.static_history_file % 4 ≡ 0
    → IsInFile c timeslot
    → IsInFile c other
    → reading < 2 ^ 32
    → static_save_reading c timeslot reading ≡ ok c'
    → static_load_reading c' other
      ≡ (if other == timeslot then reading else static_load_reading c other)
static_load_reading-static_save_reading c c' timeslot other reading whole h h' small e =
    elim (save_cases c c' timeslot reading e) [
      | inl (same, found) ↦ ground (arith, ap (λ x. static_load_reading x other) same, found)
      | inr written ↦
          ap (λ x. static_load_reading x other) written
          ∙ load-written c timeslot other reading whole h h' small
    ]
