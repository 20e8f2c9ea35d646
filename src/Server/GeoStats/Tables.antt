-- ===== src/Server/GeoStats/Tables.antt =====
-- server/api_geo_stats.go: appending to the values of an hour, and merging the tables of a file.
use gca_backend.Base.{
  ℕ, ◌≡◌, sym, ap, subst, ◌∙◌, ◌&&◌, none, some, List, [], ◌∷◌, ◌++◌, arith, inl, inr, Bool-cases,
  Option-cases, append-nil, if◌then◌else◌,
}
use gca_backend.Base.Equality.{bytes-Eq, bytes_eq, bytes_eq_iff, beq_refl}
use gca_backend.Base.Map.{lookup, insert, lookup-insert}
use gca_backend.Base.Unique.{Unique, Unique-insert}
use gca_backend.Server.GeoStats.{Hours, Days, or_empty, values, append_values, add_hours, add_days}

pub append_values-values :
    (day hour d h new : List ℕ) (days : Days)
    → values d h (append_values day hour new days)
      ≡ (if bytes_eq day d && bytes_eq hour h then values d h days ++ new else values d h days)
unfolding values append_values
append_values-values day hour d h new days =
    let hours = or_empty (lookup day days) in
    ground (
      arith,
      bytes_eq_iff day d,
      bytes_eq_iff hour h,
      lookup-insert day d (insert hour (or_empty (lookup hour hours) ++ new) hours) days,
      lookup-insert hour h (or_empty (lookup hour hours) ++ new) hours,
    )

-- No day and no hour stands twice.
pub record IsTidy (days : Days) : Type 0 where
  pub days_unique : Unique days
  pub hours_unique : (d : List ℕ) (hours : Hours) → lookup d days ≡ some hours → Unique hours

hours-Unique : (days : Days) (d : List ℕ) → IsTidy days → Unique (or_empty (lookup d days))
hours-Unique days d t = elim (Option-cases (lookup d days)) [
  | inl missing ↦ rw missing tt
  | inr (hours, found) ↦ rw found (t.hours_unique d hours found)
]

pub append_values-IsTidy :
    (day hour new : List ℕ) (days : Days) → IsTidy days → IsTidy (append_values day hour new days)
unfolding append_values
append_values-IsTidy day hour new days t =
    let hours = or_empty (lookup day days) in
    let longer = insert hour (or_empty (lookup hour hours) ++ new) hours in
    record {
      days_unique = Unique-insert day longer days t.days_unique;
      hours_unique = λ d found there. elim (Bool-cases (bytes_eq day d)) [
        | inl same ↦
            let made : longer ≡ found = ground (arith, lookup-insert day d longer days, same) in
            subst Unique made (
              Unique-insert hour (or_empty (lookup hour hours) ++ new) hours
                (hours-Unique days day t))
        | inr other ↦
            t.hours_unique d found (ground (arith, lookup-insert day d longer days, other))
      ];
    }

add_hours-values :
    (day d h : List ℕ) (hours : Hours) (days : Days)
    → Unique hours
    → values d h (add_hours day hours days)
      ≡ (if bytes_eq day d then values d h days ++ or_empty (lookup h hours) else values d h days)
unfolding add_hours lookup
add_hours-values day d h [] days u = ground (arith, append-nil (values d h days))
add_hours-values day d h ((hour, new) ∷ hours) days (absent, u) =
    let later = add_hours-values day d h hours (append_values day hour new days) u in
    let now = append_values-values day hour d h new days in
    elim (Bool-cases (bytes_eq hour h)) [
      | inl same ↦
          let gone : lookup h hours ≡ none =
            ap (λ k. lookup k hours) (sym ((bytes_eq_iff hour h).0 same)) ∙ absent in
          ground (arith, later, now, same, gone, append-nil (values d h days ++ new))
      | inr other ↦ ground (arith, later, now, other)
    ]

IsTidy-tail : (day : List ℕ) (hours : Hours) (m : Days) → IsTidy ((day, hours) ∷ m) → IsTidy m
unfolding lookup
IsTidy-tail day hours m t = record {
  days_unique = t.days_unique.1;
  hours_unique = λ d found there. t.hours_unique d found (elim (Bool-cases (bytes_eq day d)) [
    | inl same ↦
        absurd (
          ground
            (arith, ap (λ k. lookup k m) ((bytes_eq_iff day d).0 same), t.days_unique.0, there))
    | inr other ↦ ground (arith, other, there)
  ]);
}

-- Merging a file puts its values behind those that were there.
pub add_days-values :
    (d h : List ℕ) (m days : Days)
    → IsTidy m
    → values d h (add_days m days) ≡ values d h days ++ values d h m
unfolding add_days values lookup
add_days-values d h [] days t = sym (append-nil (values d h days))
add_days-values d h ((day, hours) ∷ m) days t =
    let later = add_days-values d h m (add_hours day hours days) (IsTidy-tail day hours m t) in
    let now =
      add_hours-values day d h hours days
        (t.hours_unique day hours (ground (arith, beq_refl day))) in
    elim (Bool-cases (bytes_eq day d)) [
      | inl same ↦
          let gone : lookup d m ≡ none =
            ap (λ k. lookup k m) (sym ((bytes_eq_iff day d).0 same)) ∙ t.days_unique.0 in
          ground (
            arith,
            later,
            now,
            same,
            gone,
            append-nil (values d h days ++ or_empty (lookup h hours)),
          )
      | inr other ↦ ground (arith, later, now, other)
    ]
