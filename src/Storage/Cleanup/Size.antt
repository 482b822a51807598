-- ===== src/Storage/Cleanup/Size.antt =====
-- The size rule ends under the cap and removes no more of the oldest segments than it must.
use lite_nvr.Storage.Segments.Order.{
  list-Descending, reverse-Ascending, Ascending, reverse-SameRows,
}
use lite_nvr.Common.{reverse, subst}
use lite_nvr.Common.{ltb, reverse, ◌-◌, suc, zero}
use lite_nvr.Storage.Segments.Rows.{
  delete-UniqueIds, has_id, order_by-SameRows, delete_first, where-SameRows, SameRows, UniqueIds,
}
use lite_nvr.Storage.Cleanup.{
  age_rule, run_once, remove_all, cap_of, CleanupConfig, size_rule, Pass, remove_segment, prune,
}
use lite_nvr.Storage.Segments.{
  list_older_than_days, order_by, newer, list, total_size, delete, sum_rows, Table, RecordSegment,
}
use lite_nvr.Common.{
  Bool, ℕ, String, nat_eq, if◌then◌else◌, ◌==◌, string_eq, ◌∙◌, sym, ap, inl, inr, not, ◌∷◌, [],
  ◌+◌, ◌≤◌, ◌<◌, ◌≡◌, drop, length, leb, false, Bool-cases, arith, true,
}

abbrev size : RecordSegment → ℕ
size s = s.file_size

le_of_leb : (a b : ℕ) → leb a b ≡ true → a ≤ b
le_of_leb a b h = ground arith

lt_of_leb : (a b : ℕ) → leb a b ≡ false → b < a
lt_of_leb a b h = ground arith

le_of_ltb : (a b : ℕ) → ltb a b ≡ false → b ≤ a
le_of_ltb a b h = ground arith

pub on_of_lt : (a : ℕ) → 0 < a → ltb 0 a ≡ true
on_of_lt a h = ground arith

listed-SameRows : (t : Table) → SameRows t (reverse (list t))
unfolding list
listed-SameRows t f = sym (order_by-SameRows newer t f) ∙ reverse-SameRows (order_by newer t) f

module _ (delete_fails : String → Bool) (reliable : (id : String) → delete_fails id ≡ false) where
  -- How many of the segments `ss` a pass has removed: the fewest that bring the rest under the cap.
  abbrev pub Pruned : ℕ → Table → Pass → Pass → Type 0
  Pruned cap ss p q =
      (n : ℕ) × SameRows q.rows (drop n ss)
      × (n ≤ length ss)
      × (sum_rows size (drop n ss) ≤ cap)
      × ((m : ℕ) → m < n → cap < sum_rows size (drop m ss))
      × (q.removed ≡ p.removed + n)

  pub removed-SameRows :
      (s : RecordSegment) (ss : Table) (p : Pass)
      → UniqueIds (s ∷ ss)
      → SameRows p.rows (s ∷ ss)
      → SameRows (remove_segment delete_fails s p).rows ss
  unfolding remove_segment delete
  removed-SameRows s ss p u h f =
      ap (λ b. sum_rows f (if b then p.rows else delete s.id p.rows)) (reliable s.id)
      ∙ where-SameRows (λ x. not (x.id == s.id)) p.rows (s ∷ ss) h f
      ∙ ap (sum_rows f) (delete_first s ss u)

  pub tail-UniqueIds : (s : RecordSegment) (ss : Table) → UniqueIds (s ∷ ss) → UniqueIds ss
  tail-UniqueIds s ss u id = omega (arith, u id)

  least_suc :
      (cap n : ℕ) (s : RecordSegment) (ss : Table)
      → cap < sum_rows size (s ∷ ss)
      → ((m : ℕ) → m < n → cap < sum_rows size (drop m ss))
      → (m : ℕ) → m < suc n
      → cap < sum_rows size (drop m (s ∷ ss))
  least_suc cap n s ss over rest zero l = over
  least_suc cap n s ss over rest (suc m) l = rest m (omega (arith, l))

  prune_lem :
      (cap total : ℕ) (ss : Table) (p : Pass)
      → UniqueIds ss
      → SameRows p.rows ss
      → total ≡ sum_rows size ss
      → Pruned cap ss p (prune delete_fails cap total ss p)
  unfolding prune remove_segment
  prune_lem cap total [] p u h e =
      (0, h, omega arith, omega arith, (λ m l. absurd (omega (arith, l))), omega arith)
  prune_lem cap total (s ∷ ss) p u h e = elim (Bool-cases (leb total cap)) [
    | inl l ↦ rw l (
      0,
      h,
      omega arith,
      omega (arith, le_of_leb total cap l, e),
      (λ m k. absurd (omega (arith, k))),
      omega arith,
    )
    | inr l ↦
        let p' = remove_segment delete_fails s p in
        let (n, same, n_le, under, least, count) =
          prune_lem cap (total - s.file_size) ss p' (tail-UniqueIds s ss u)
            (removed-SameRows s ss p u h) (omega (arith, e)) in
        let over : cap < sum_rows size (s ∷ ss) = omega (arith, lt_of_leb total cap l, e) in
        rw l (
          suc n,
          same,
          omega (arith, n_le),
          under,
          least_suc cap n s ss over least,
          omega (arith, count),
        )
  ]

  pub size_rule_lem :
      (c : CleanupConfig) (p : Pass)
      → UniqueIds p.rows
      → 0 < c.max_total_gb
      → Pruned (cap_of delete_fails c) (reverse (list p.rows)) p (size_rule delete_fails c p)
  unfolding size_rule total_size list
  size_rule_lem c p u h =
      let cap = cap_of delete_fails c in
      let ss = reverse (list p.rows) in
      let same = listed-SameRows p.rows in
      let total = sum_rows size p.rows in
      elim (Bool-cases (ltb cap total)) [
        | inl l ↦
            rw (on_of_lt c.max_total_gb h, l)
              (prune_lem cap total ss p (λ id. omega (arith, u id, same (has_id id))) same
                (same size))
        | inr l ↦
            rw (on_of_lt c.max_total_gb h, l)
              (
                0,
                same,
                omega arith,
                omega (arith, le_of_ltb cap total l, same size),
                (λ m k. absurd (omega (arith, k))),
                omega arith,
              )
      ]

  aged-UniqueIds :
      (ss : Table) (p : Pass) → UniqueIds p.rows → UniqueIds (remove_all delete_fails ss p).rows
  unfolding remove_all remove_segment
  aged-UniqueIds [] p u = u
  aged-UniqueIds (s ∷ ss) p u =
      let p' = remove_segment delete_fails s p in
      aged-UniqueIds ss p' (
        subst (λ b. UniqueIds (if b then p.rows else delete s.id p.rows)) (sym (reliable s.id))
          (delete-UniqueIds s.id p.rows u))

  age_rule-UniqueIds :
      (c : CleanupConfig) (now : ℕ) (p : Pass)
      → UniqueIds p.rows
      → UniqueIds (age_rule delete_fails c now p).rows
  unfolding age_rule
  age_rule-UniqueIds c now p u =
      elim (ltb 0 c.max_age_days)
        as (λ b.
          UniqueIds
            (if b
              then remove_all delete_fails (list_older_than_days now c.max_age_days p.rows) p
              else p).rows) [
                | true ↦ aged-UniqueIds (list_older_than_days now c.max_age_days p.rows) p u
                | false ↦ u
              ]

  abbrev pub started : Table → Pass
  started t = record { rows = t; files = []; removed = 0; freed = 0 }

  -- With the pass and its size rule on, on segments with distinct ids and when no deletion fails, the
  -- pass goes on from what the age rule has left, in the order of the start times, and takes from the
  -- front as many segments as it must and no more: the rest is under the cap, and one segment fewer
  -- removed would have left it over.
  pub run_once_lem :
      (c : CleanupConfig) (now : ℕ) (t : Table)
      → UniqueIds t
      → c.enabled ≡ true
      → 0 < c.max_total_gb
      → let p = age_rule delete_fails c now (started t) in
        let ss = reverse (list p.rows) in
        Ascending ss
        × SameRows p.rows ss
        × Pruned (cap_of delete_fails c) ss p (run_once delete_fails c now t)
  unfolding run_once
  run_once_lem c now t u on size_on =
      let p = age_rule delete_fails c now (started t) in
      (
        reverse-Ascending (list p.rows) (list-Descending p.rows),
        listed-SameRows p.rows,
        subst
            (λ b.
              Pruned (cap_of delete_fails c) (reverse (list p.rows)) p
                (if b then size_rule delete_fails c p else started t))
            (sym on) (size_rule_lem c p (age_rule-UniqueIds c now (started t) u) size_on),
      )
