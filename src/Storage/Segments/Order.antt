-- ===== src/Storage/Segments/Order.antt =====
-- The order of the lists that the queries give.
use lite_nvr.Storage.Segments.Rows.{sum_rows-append, SameRows}
use lite_nvr.Storage.Segments.{newer, sum_rows, order_by, Table, list, RecordSegment, place_row}
use lite_nvr.Common.{
  Bool, arith, All, All-append, refl, sym, ap, inl, inr, ◌∷◌, [], ◌++◌, ◌≤◌, ◌≡◌, false, Bool-cases,
  true, subst, reverse,
}
use mathlib.Core.List.{reverse-cons}

abbrev pub Descending : Table → Type 0
Descending [] = Unit
Descending (s ∷ t) = All (λ r. r.start_time ≤ s.start_time) t × Descending t

abbrev pub Ascending : Table → Type 0
Ascending [] = Unit
Ascending (s ∷ t) = All (λ r. s.start_time ≤ r.start_time) t × Ascending t

pub All-weaken :
    {P Q : RecordSegment → Type 0} (t : Table)
    → ((s : RecordSegment) → P s → Q s)
    → All P t
    → All Q t
All-weaken [] k h = tt
All-weaken (s ∷ t) k h = (k s h.0, All-weaken t k h.1)

pub All-place :
    (P : RecordSegment → Type 0) (before : RecordSegment → RecordSegment → Bool) (s : RecordSegment)
    (t : Table)
    → P s
    → All P t
    → All P (place_row before s t)
unfolding place_row
All-place P before s [] p h = (p, tt)
All-place P before s (r ∷ t) p h = elim (Bool-cases (before s r)) [
  | inl e ↦ rw e (p, (h.0, h.1))
  | inr e ↦ rw e (h.0, All-place P before s t p h.1)
]

newer_le : (a b : RecordSegment) → newer a b ≡ true → b.start_time ≤ a.start_time
newer_le a b h = ground arith

newer_ge : (a b : RecordSegment) → newer a b ≡ false → a.start_time ≤ b.start_time
newer_ge a b h = ground arith

place-Descending : (s : RecordSegment) (t : Table) → Descending t → Descending (place_row newer s t)
unfolding place_row
place-Descending s [] d = (tt, tt)
place-Descending s (r ∷ t) d = elim (Bool-cases (newer s r)) [
  | inl e ↦
      let le = newer_le s r e in rw e ((le, All-weaken t (λ x h. omega (arith, le, h)) d.0), d)
  | inr e ↦ rw e (
    All-place (λ x. x.start_time ≤ r.start_time) newer s t (newer_ge s r e) d.0,
    place-Descending s t d.1,
  )
]

pub list-Descending : (t : Table) → Descending (list t)
unfolding list order_by
list-Descending [] = tt
list-Descending (s ∷ t) = place-Descending s (list t) (list-Descending t)

append_one-Ascending :
    (t : Table) (s : RecordSegment)
    → Ascending t
    → All (λ r. r.start_time ≤ s.start_time) t
    → Ascending (t ++ (s ∷ []))
append_one-Ascending [] s a h = (tt, tt)
append_one-Ascending (r ∷ t) s a h = (
  All-append (λ x. r.start_time ≤ x.start_time) t (s ∷ []) a.0 (h.0, tt),
  append_one-Ascending t s a.1 h.1,
)

All-reverse : (P : RecordSegment → Type 0) (t : Table) → All P t → All P (reverse t)
All-reverse P [] h = tt
All-reverse P (s ∷ t) h =
    subst (All P) (sym (reverse-cons s t))
      (All-append P (reverse t) (s ∷ []) (All-reverse P t h.1) (h.0, tt))

pub reverse-Ascending : (t : Table) → Descending t → Ascending (reverse t)
reverse-Ascending [] d = tt
reverse-Ascending (s ∷ t) d = subst Ascending (sym (reverse-cons s t)) (
    append_one-Ascending (reverse t) s (reverse-Ascending t d.1)
      (All-reverse (λ r. r.start_time ≤ s.start_time) t d.0))

pub reverse-SameRows : (t : Table) → SameRows t (reverse t)
reverse-SameRows [] f = refl
reverse-SameRows (s ∷ t) f = omega (
  arith,
  ap (sum_rows f) (reverse-cons s t),
  sum_rows-append f (reverse t) (s ∷ []),
  reverse-SameRows t f,
)
