-- ===== src/Storage/Cleanup/Age.antt =====
-- The age rule removes the segments before the cutoff's date, and nothing else.
use lite_nvr.Storage.Cleanup.Size.{on_of_lt, removed-SameRows, tail-UniqueIds}
use lite_nvr.Storage.Segments.Rows.{
  has_id, order_by-SameRows, sum_rows-where, sum_rows-append, UniqueIds, SameRows,
}
use lite_nvr.Storage.Cleanup.{remove_segment, CleanupConfig, Pass, age_rule, remove_all}
use lite_nvr.Storage.Segments.{
  rows_where, sum_rows, list_older_than_days, Table, day, created_before, RecordSegment,
}
use lite_nvr.Common.{
  ◌-◌, ◌/◌, ℕ, Bool, String, if◌then◌else◌, Bool-cases, inl, inr, sym, ◌∙◌, string_eq, ◌+◌, ◌*◌,
  ◌<◌, ◌≤◌, ◌≡◌, ◌++◌, [], ◌∷◌, not, true, false, ap, leb, arith, subst, ltb,
}

split_where :
    (p : RecordSegment → Bool) (t : Table)
    → SameRows t (rows_where p t ++ rows_where (λ s. not (p s)) t)
split_where p t f =
    parts t
    ∙ sym (
        sum_rows-append f (rows_where p t) (rows_where (λ s. not (p s)) t)
        ∙ ap2 (sum_rows-where p f t) (sum_rows-where (λ s. not (p s)) f t))
  where
    ap2 : {a b c d : ℕ} → a ≡ b → c ≡ d → a + c ≡ b + d
    ap2 e h = omega (arith, e, h)

    parts :
        (t : Table)
        → sum_rows f t
          ≡ sum_rows (λ s. if p s then f s else 0) t
            + sum_rows (λ s. if not (p s) then f s else 0) t
    parts [] = omega arith
    parts (s ∷ t) = elim (Bool-cases (p s)) [
      | inl e ↦ rw e (omega (arith, parts t))
      | inr e ↦ rw e (omega (arith, parts t))
    ]

lt_of_ltb : (a b : ℕ) → ltb a b ≡ true → a < b
lt_of_ltb a b h = ground arith

ltb_of_lt : (a b : ℕ) → a < b → ltb a b ≡ true
ltb_of_lt a b h = ground arith

-- What the date comparison means for a segment: those it selects are older than the limit, and it
-- selects all that are older by a day more.
cutoff_older :
    (now days : ℕ) (s : RecordSegment)
    → created_before now days s ≡ true
    → s.create_time + days * day < now
unfolding created_before
cutoff_older now days s h =
    omega (arith, lt_of_ltb (s.create_time / day) ((now - days * day) / day) h)

cutoff_day_more :
    (now days : ℕ) (s : RecordSegment)
    → s.create_time + (days + 1) * day ≤ now
    → created_before now days s ≡ true
unfolding created_before
cutoff_day_more now days s h =
    ltb_of_lt (s.create_time / day) ((now - days * day) / day) (omega (arith, h))

module _ (delete_fails : String → Bool) (reliable : (id : String) → delete_fails id ≡ false) where
  remove_all-SameRows :
      (ss kept : Table) (p : Pass)
      → UniqueIds (ss ++ kept)
      → SameRows p.rows (ss ++ kept)
      → SameRows (remove_all delete_fails ss p).rows kept
  unfolding remove_all
  remove_all-SameRows [] kept p u h = h
  remove_all-SameRows (s ∷ ss) kept p u h =
      remove_all-SameRows ss kept (remove_segment delete_fails s p)
        (tail-UniqueIds delete_fails reliable s (ss ++ kept) u)
        (removed-SameRows delete_fails reliable s (ss ++ kept) p u h)

  -- With an age limit, on segments with distinct ids and when no deletion fails, the rule leaves
  -- exactly the segments that the date comparison does not select. It selects only segments older
  -- than the limit, and each that is older by a day more.
  pub age_rule_lem :
      (c : CleanupConfig) (now : ℕ) (p : Pass)
      → UniqueIds p.rows
      → 0 < c.max_age_days
      → SameRows
          (age_rule delete_fails c now p).rows
          (rows_where (λ s. not (created_before now c.max_age_days s)) p.rows)
        × ((s : RecordSegment)
            → created_before now c.max_age_days s ≡ true
            → s.create_time + c.max_age_days * day < now)
        × ((s : RecordSegment)
            → s.create_time + (c.max_age_days + 1) * day ≤ now
            → created_before now c.max_age_days s ≡ true)
  unfolding age_rule list_older_than_days
  age_rule_lem c now p u h =
      let old = created_before now c.max_age_days in
      let kept = rows_where (λ s. not (old s)) p.rows in
      let found = list_older_than_days now c.max_age_days p.rows in
      let same : SameRows p.rows (found ++ kept) = λ f.
        split_where old p.rows f
        ∙ sum_rows-append f (rows_where old p.rows) kept
        ∙ ap (λ n. n + sum_rows f kept)
            (sym
              (order_by-SameRows (λ a b. leb a.start_time b.start_time) (rows_where old p.rows) f))
        ∙ sym (sum_rows-append f found kept) in
      let unique : UniqueIds (found ++ kept) = λ id. omega (arith, u id, same (has_id id)) in
      (
        subst (λ b. SameRows (if b then remove_all delete_fails found p else p).rows kept)
            (sym (on_of_lt c.max_age_days h)) (remove_all-SameRows found kept p unique same),
        cutoff_older now c.max_age_days,
        cutoff_day_more now c.max_age_days,
      )
