-- ===== src/Storage/Segments/Rows.antt =====
-- Tables with the same rows, the order aside: every sum over the rows is the same.
use lite_nvr.Storage.Segments.{
  sum_rows, place_row, RecordSegment, order_by, rows_where, Table, delete,
}
use lite_nvr.Common.{
  ◌&&◌, arith, Bool-cases, Bool, ℕ, String, if◌then◌else◌, ◌==◌, string_eq, ==_refl, ◌∙◌, refl, sym,
  ap, inl, inr, not, ◌∷◌, [], ◌++◌, ◌+◌, ◌≤◌, ◌≡◌,
}

abbrev pub SameRows : Table → Table → Type 0
SameRows t u = (f : RecordSegment → ℕ) → sum_rows f t ≡ sum_rows f u

abbrev pub has_id : String → RecordSegment → ℕ
has_id id s = if s.id == id then 1 else 0

-- The primary key.
abbrev pub UniqueIds : Table → Type 0
UniqueIds t = (id : String) → sum_rows (has_id id) t ≤ 1

pub sum_rows-where :
    (p : RecordSegment → Bool) (f : RecordSegment → ℕ) (t : Table)
    → sum_rows f (rows_where p t) ≡ sum_rows (λ s. if p s then f s else 0) t
unfolding rows_where
sum_rows-where p f [] = refl
sum_rows-where p f (s ∷ t) = elim (Bool-cases (p s)) [
  | inl e ↦ rw e (omega (arith, sum_rows-where p f t))
  | inr e ↦ rw e (omega (arith, sum_rows-where p f t))
]

pub where-where :
    (p q : RecordSegment → Bool) (t : Table)
    → rows_where p (rows_where q t) ≡ rows_where (λ s. q s && p s) t
unfolding rows_where
where-where p q [] = refl
where-where p q (s ∷ t) = elim (Bool-cases (q s)) [
  | inl e ↦ rw e (ap (λ (r : Table). if p s then s ∷ r else r) (where-where p q t))
  | inr e ↦ rw e (where-where p q t)
]

pub where-SameRows :
    (p : RecordSegment → Bool) (t u : Table)
    → SameRows t u
    → SameRows (rows_where p t) (rows_where p u)
where-SameRows p t u h f =
    sum_rows-where p f t ∙ h (λ s. if p s then f s else 0) ∙ sym (sum_rows-where p f u)

sum_rows-place :
    (before : RecordSegment → RecordSegment → Bool) (s : RecordSegment) (t : Table)
    (f : RecordSegment → ℕ)
    → sum_rows f (place_row before s t) ≡ f s + sum_rows f t
unfolding place_row
sum_rows-place before s [] f = refl
sum_rows-place before s (r ∷ t) f = elim (Bool-cases (before s r)) [
  | inl e ↦ rw e refl
  | inr e ↦ rw e (omega (arith, sum_rows-place before s t f))
]

pub order_by-SameRows :
    (before : RecordSegment → RecordSegment → Bool) (t : Table) → SameRows (order_by before t) t
unfolding order_by
order_by-SameRows before [] f = refl
order_by-SameRows before (s ∷ t) f =
    omega (arith, sum_rows-place before s (order_by before t) f, order_by-SameRows before t f)

pub sum_rows-append :
    (f : RecordSegment → ℕ) (t u : Table) → sum_rows f (t ++ u) ≡ sum_rows f t + sum_rows f u
sum_rows-append f [] u = omega arith
sum_rows-append f (s ∷ t) u = omega (arith, sum_rows-append f t u)

-- Deleting the first of some rows with unique ids leaves the others.
pub delete_first : (s : RecordSegment) (t : Table) → UniqueIds (s ∷ t) → delete s.id (s ∷ t) ≡ t
unfolding delete rows_where
delete_first s t u =
    let absent : sum_rows (has_id s.id) t ≡ 0 =
      omega (arith, u s.id, ap {B = ℕ} (λ b. if b then 1 else 0) (==_refl s.id)) in
    rw (==_refl s.id) (others t absent)
  where
    others : (r : Table) → sum_rows (has_id s.id) r ≡ 0 → rows_where (λ x. not (x.id == s.id)) r ≡ r
    others [] h = refl
    others (x ∷ r) h = elim (Bool-cases (x.id == s.id)) [
      | inl e ↦ absurd (omega (arith, h, ap {B = ℕ} (λ b. if b then 1 else 0) e))
      | inr e ↦ rw e (ap (λ l. x ∷ l) (others r (omega (arith, h))))
    ]

pub sum_rows-le :
    (f g : RecordSegment → ℕ) (t : Table)
    → ((s : RecordSegment) → f s ≤ g s)
    → sum_rows f t ≤ sum_rows g t
sum_rows-le f g [] h = omega arith
sum_rows-le f g (s ∷ t) h = omega (arith, h s, sum_rows-le f g t h)

pub delete-UniqueIds : (id : String) (t : Table) → UniqueIds t → UniqueIds (delete id t)
unfolding delete
delete-UniqueIds id t u j =
    let some_rows : RecordSegment → ℕ = λ s. if not (s.id == id) then has_id j s else 0 in
    let fewer : (s : RecordSegment) → some_rows s ≤ has_id j s = λ s.
      elim (Bool-cases (s.id == id)) [ inl e ↦ rw e (omega arith) | inr e ↦ rw e (omega arith) ] in
    omega (
      arith,
      sum_rows-where (λ s. not (s.id == id)) (has_id j) t,
      sum_rows-le some_rows (has_id j) t fewer,
      u j,
    )
