-- ===== src/Playback/Delete/Exact.antt =====
-- playback.rs: exactly the named segments and their files go.
use lite_nvr.Common.{
  Bool, true, false, Option, none, some, List, [], ◌∷◌, String, ◌≡◌, ◌+◌, ◌≤◌, length, ◌&&◌, ◌||◌,
  not, if◌then◌else◌, ◌==◌, string_eq, refl, sym, ap, ◌∙◌, Bool-cases, inl, inr, arith, get_elem?,
  subst,
}
use mathlib.Core.Path.{fun_ext}
use lite_nvr.Storage.Segments.{RecordSegment, Table, get, delete, rows_where, sum_rows}
use lite_nvr.Storage.Segments.Rows.{where-where, UniqueIds, has_id, delete-UniqueIds}
use lite_nvr.Playback.Delete.{
  Archive, keep_files, removes, remove_segment_file, delete_row, delete_segment, delete_segments,
}

abbrev pub mem : List String → String → Bool
mem [] id = false
mem (x ∷ xs) id = id == x || mem xs id

abbrev pub any_row : (RecordSegment → Bool) → Table → Bool
any_row f [] = false
any_row f (s ∷ t) = f s || any_row f t

keep-keep :
    (p q : String → Bool) (fs : List String)
    → keep_files p (keep_files q fs) ≡ keep_files (λ f. q f && p f) fs
unfolding keep_files
keep-keep p q [] = refl
keep-keep p q (f ∷ fs) = elim (Bool-cases (q f)) [
  | inl e ↦ rw e (ap (λ (r : List String). if p f then f ∷ r else r) (keep-keep p q fs))
  | inr e ↦ rw e (keep-keep p q fs)
]

keep_all : (fs : List String) → keep_files (λ f. true) fs ≡ fs
unfolding keep_files
keep_all [] = refl
keep_all (f ∷ fs) = ap (λ l. f ∷ l) (keep_all fs)

any-where :
    (f q : RecordSegment → Bool) (t : Table)
    → any_row f (rows_where q t) ≡ any_row (λ s. q s && f s) t
unfolding rows_where
any-where f q [] = refl
any-where f q (s ∷ t) = elim (Bool-cases (q s)) [
  | inl e ↦ rw e (ap (λ b. f s || b) (any-where f q t))
  | inr e ↦ rw e (any-where f q t)
]

length-where-not :
    (q : RecordSegment → Bool) (t : Table)
    → length (rows_where q t) + length (rows_where (λ s. not (q s)) t) ≡ length t
unfolding rows_where
length-where-not q [] = omega arith
length-where-not q (s ∷ t) = elim (Bool-cases (q s)) [
  | inl e ↦ rw e (omega (arith, length-where-not q t))
  | inr e ↦ rw e (omega (arith, length-where-not q t))
]

length-where-id :
    (id : String) (t : Table) → length (rows_where (λ s. s.id == id) t) ≡ sum_rows (has_id id) t
unfolding rows_where
length-where-id id [] = refl
length-where-id id (s ∷ t) = elim (Bool-cases (s.id == id)) [
  | inl e ↦ rw e (omega (arith, length-where-id id t))
  | inr e ↦ rw e (omega (arith, length-where-id id t))
]

one_of_three :
    (q m g a b : Bool) → ((q && g) || a) || ((not q && (m && g)) || b) ≡ ((q || m) && g) || (a || b)
one_of_three true m true a b = refl
one_of_three true m false a b = refl
one_of_three false true true true b = refl
one_of_three false true true false b = refl
one_of_three false true false a b = refl
one_of_three false false g a b = refl

any_split :
    (q m g : RecordSegment → Bool) (t : Table)
    → any_row (λ s. q s && g s) t || any_row (λ s. not (q s) && (m s && g s)) t
      ≡ any_row (λ s. (q s || m s) && g s) t
any_split q m g [] = refl
any_split q m g (s ∷ t) =
    one_of_three (q s) (m s) (g s) _ _ ∙ ap (λ b. ((q s || m s) && g s) || b) (any_split q m g t)

row_of : Option RecordSegment → Table
row_of none = []
row_of (some s) = s ∷ []

first_only : (l : Table) → length l ≤ 1 → l ≡ row_of (get_elem? l 0)
unfolding row_of
first_only [] h = refl
first_only (s ∷ []) h = refl
first_only (s ∷ r ∷ l) h = absurd (omega (arith, h))

get-rows :
    (id : String) (t : Table) → UniqueIds t → rows_where (λ s. s.id == id) t ≡ row_of (get id t)
unfolding get
get-rows id t u = first_only _ (omega (arith, length-where-id id t, u id))

-- Nothing is selected, so nothing else is.
none_left :
    (q : RecordSegment → Bool) (t : Table) → rows_where q t ≡ [] → rows_where (λ s. not (q s)) t ≡ t
unfolding rows_where
none_left q [] h = refl
none_left q (s ∷ t) h = elim (Bool-cases (q s)) [
  | inl e ↦ absurd (no (rw e at h))
  | inr e ↦ rw e (ap (λ (r : Table). s ∷ r) (none_left q t (rw e at h)))
]
  where
    no : (s ∷ rows_where q t) ≡ [] → ⊥
    no h = cc

module _ (removable : String → Bool) where
  -- What is left when the segments that `p` selects go, with their files.
  abbrev pub Without : (RecordSegment → Bool) → Archive → Archive → Type 0
  Without p a b =
      (b.table ≡ rows_where (λ s. not (p s)) a.table)
      × (b.files
          ≡ keep_files (λ path. not (any_row (λ s. p s && removes removable s path) a.table))
              a.files)

  delete_row-Without :
      (o : Option RecordSegment) (id : String) (a : Archive)
      → rows_where (λ s. s.id == id) a.table ≡ row_of o
      → Without (λ s. s.id == id) a (delete_row removable o id a).0
        × ((delete_row removable o id a).1 ≡ length (rows_where (λ s. s.id == id) a.table))
  unfolding delete_row delete remove_segment_file row_of
  delete_row-Without none id a h = (
    (
      sym (none_left (λ s. s.id == id) a.table h),
      sym (ap (λ (f : String → Bool). keep_files f a.files) (fun_ext nothing) ∙ keep_all a.files),
    ),
    sym (ap length h),
  )
    where
      nothing :
          (path : String)
          → not (any_row (λ s. s.id == id && removes removable s path) a.table) ≡ true
      nothing path = ap not (
          sym (any-where (λ s. removes removable s path) (λ s. s.id == id) a.table)
          ∙ ap (any_row (λ s. removes removable s path)) h)
  delete_row-Without (some s) id a h = (
    (refl, ap (λ (f : String → Bool). keep_files f a.files) (fun_ext its_file)),
    sym (ap length h),
  )
    where
      its_file :
          (path : String)
          → not (removes removable s path)
            ≡ not (any_row (λ s. s.id == id && removes removable s path) a.table)
      its_file path = ap not (
          or_false _
          ∙ sym (ap (any_row (λ s. removes removable s path)) h)
          ∙ any-where (λ s. removes removable s path) (λ s. s.id == id) a.table)
        where
          or_false : (b : Bool) → b ≡ (b || false)
          or_false true = refl
          or_false false = refl

  both_gone :
      (q m : RecordSegment → Bool) (a b c : Archive)
      → Without q a b
      → Without m b c
      → Without (λ s. q s || m s) a c
  both_gone q m a b c h k = (
    k.0
        ∙ ap (rows_where (λ s. not (m s))) h.0
        ∙ where-where (λ s. not (m s)) (λ s. not (q s)) a.table
        ∙ ap (λ (p : RecordSegment → Bool). rows_where p a.table)
            (fun_ext (λ s. neither (q s) (m s))),
    k.1
        ∙ (λ i.
            keep_files (λ path. not (any_row (λ s. m s && removes removable s path) (h.0 i)))
              (h.1 i))
        ∙ keep-keep _ _ a.files
        ∙ ap (λ (p : String → Bool). keep_files p a.files) (fun_ext of_path),
  )
    where
      neither : (x y : Bool) → (not x && not y) ≡ not (x || y)
      neither true y = refl
      neither false y = refl

      of_path :
          (path : String)
          → (not (any_row (λ s. q s && removes removable s path) a.table)
              && not (
                  any_row
                    (λ s. m s && removes removable s path)
                    (rows_where (λ s. not (q s)) a.table)))
            ≡ not (any_row (λ s. (q s || m s) && removes removable s path) a.table)
      of_path path =
          neither (any_row (λ s. q s && removes removable s path) a.table) _
          ∙ ap (λ b. not (any_row (λ s. q s && removes removable s path) a.table || b))
              (any-where (λ s. m s && removes removable s path) (λ s. not (q s)) a.table)
          ∙ ap not (any_split q m (λ s. removes removable s path) a.table)

  -- Of segments with distinct ids, exactly those go that are named, however often they are, and with them
  -- their files that the file system lets go, and no other file. The count is that of the segments
  -- that went.
  pub delete_segments_lem :
      (ids : List String) (a : Archive)
      → UniqueIds a.table
      → let r = delete_segments removable ids a in
        Without (λ s. mem ids s.id) a r.0 × (r.1 + length r.0.table ≡ length a.table)
  unfolding delete_segments delete_segment delete rows_where
  delete_segments_lem [] a u = (
    (
      sym (all_rows a.table),
      sym (ap (λ (f : String → Bool). keep_files f a.files) (fun_ext nothing) ∙ keep_all a.files),
    ),
    omega arith,
  )
    where
      all_rows : (t : Table) → rows_where (λ s. true) t ≡ t
      all_rows t = none_left (λ s. false) t (empty t)
        where
          empty : (t : Table) → rows_where (λ s. false) t ≡ []
          empty [] = refl
          empty (s ∷ t) = empty t

      nothing :
          (path : String) → not (any_row (λ s. false && removes removable s path) a.table) ≡ true
      nothing path = ap not (no_row a.table)
        where
          no_row : (t : Table) → any_row (λ s. false) t ≡ false
          no_row [] = refl
          no_row (s ∷ t) = no_row t
  delete_segments_lem (id ∷ ids) a u =
      let step = delete_row-Without (get id a.table) id a (get-rows id a.table u) in
      let b = (delete_segment removable id a).0 in
      let rest =
        delete_segments_lem ids b
          (subst UniqueIds (sym step.0.0) (delete-UniqueIds id a.table u)) in
      (
        both_gone (λ s. s.id == id) (λ s. mem ids s.id) a b _ step.0 rest.0,
        omega
            (arith, step.1, rest.1, ap length step.0.0, length-where-not (λ s. s.id == id) a.table),
      )
