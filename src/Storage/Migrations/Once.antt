-- ===== src/Storage/Migrations/Once.antt =====
-- migrations.rs: each version runs once, in order, and a second start runs nothing.
use lite_nvr.Common.{
  ℕ, Bool, true, false, Option, some, List, [], ◌∷◌, ◌++◌, append_assoc, append-nil, String, ◌≡◌,
  ◌&&◌, ◌||◌, map, All, refl, sym, ◌∙◌, subst, Bool-cases, inl, inr, arith,
}
use lite_nvr.Common.Int.{ℤ, pos, negsuc, leb_ℤ, ◌==ℤ◌, ◌≤ℤ◌}
use lite_nvr.Storage.Migrations.{
  apply_loaded, Migration, Db, load_migrations, place, sort_by_version, is_migration_applied,
  apply_all, migrate,
}

abbrev Rows : Type 0
Rows = List (ℤ × List ℕ)

-- The primary key: no version stands in two rows.
abbrev pub Once : List (ℤ × List ℕ) → Type 0
Once [] = Unit {0}
Once (r ∷ rows) = (is_migration_applied r.0 rows ≡ false) × Once rows

abbrev pub InOrder : List Migration → Type 0
InOrder [] = Unit {0}
InOrder (m ∷ ms) = All (λ (n : Migration). m.version ≤ℤ n.version) ms × InOrder ms

abbrev pub row_of : Migration → ℤ × List ℕ
row_of m = (m.version, m.description)

applied-append :
    (v : ℤ) (a b : Rows)
    → is_migration_applied v (a ++ b) ≡ (is_migration_applied v a || is_migration_applied v b)
unfolding is_migration_applied
applied-append v [] b = refl
applied-append v ((w, d) ∷ a) b = or_or _ _ _ (w ==ℤ v) (applied-append v a b)
  where
    or_or : (x y z c : Bool) → x ≡ (y || z) → (c || x) ≡ ((c || y) || z)
    or_or x y z true h = refl
    or_or x y z false h = h

same_way : (a b : ℤ) → (a ==ℤ b) ≡ (b ==ℤ a)
same_way a b = and_comm (leb_ℤ a b) (leb_ℤ b a)
  where
    and_comm : (x y : Bool) → (x && y) ≡ (y && x)
    and_comm true true = refl
    and_comm true false = refl
    and_comm false true = refl
    and_comm false false = refl

itself : (v : ℤ) → (v ==ℤ v) ≡ true
itself (pos a) = ground arith
itself (negsuc a) = ground arith

Once-add :
    (v : ℤ) (d : List ℕ) (rows : Rows)
    → is_migration_applied v rows ≡ false
    → Once rows
    → Once (rows ++ ((v, d) ∷ []))
unfolding is_migration_applied
Once-add v d [] new once = (refl, tt)
Once-add v d ((w, c) ∷ rows) new once =
    let (apart, rest) = neither (w ==ℤ v) _ new in
    (
      applied-append w rows ((v, d) ∷ []) ∙ both once.0 (same_way v w ∙ apart),
      Once-add v d rows rest once.1,
    )
  where
    neither : (x y : Bool) → (x || y) ≡ false → (x ≡ false) × (y ≡ false)
    neither true y h = cc
    neither false y h = (refl, h)

    both : {x y : Bool} → x ≡ false → y ≡ false → (x || (y || false)) ≡ false
    both h k = rw (h, k) refl

place-All :
    (P : Migration → Type 0) (m : Migration) (ms : List Migration)
    → P m
    → All P ms
    → All P (place m ms)
unfolding place
place-All P m [] p h = (p, tt)
place-All P m (n ∷ ms) p h = elim (Bool-cases (leb_ℤ m.version n.version)) [
  | inl e ↦ rw e (p, (h.0, h.1))
  | inr e ↦ rw e (h.0, place-All P m ms p h.1)
]

weaken :
    {P Q : Migration → Type 0} (ms : List Migration)
    → ((m : Migration) → P m → Q m)
    → All P ms
    → All Q ms
weaken [] k h = tt
weaken (m ∷ ms) k h = (k m h.0, weaken ms k h.1)

place-InOrder : (m : Migration) (ms : List Migration) → InOrder ms → InOrder (place m ms)
unfolding place
place-InOrder m [] d = (tt, tt)
place-InOrder m (n ∷ ms) d = elim (Bool-cases (leb_ℤ m.version n.version)) [
  | inl e ↦
      let le : m.version ≤ℤ n.version = ground (arith, e) in
      rw e ((le, weaken ms (λ x h. omega (arith, le, h)) d.0), d)
  | inr e ↦
      rw e (
        place-All (λ x. n.version ≤ℤ x.version) m ms (ground (arith, e)) d.0,
        place-InOrder m ms d.1,
      )
]

sort-InOrder : (ms : List Migration) → InOrder (sort_by_version ms)
unfolding sort_by_version
sort-InOrder [] = tt
sort-InOrder (m ∷ ms) = place-InOrder m (sort_by_version ms) (sort-InOrder ms)

-- What a run of some migrations, in this order, does to the database.
pub record Ran (ms : List Migration) (db db' : Db) (finished : Bool) : Type 1 where
  pub added : List Migration
  pub rows : db'.rows ≡ db.rows ++ map row_of added
  pub batches : db'.batches ≡ db.batches ++ map (λ (m : Migration). m.sql) added
  pub among : (P : Migration → Type 0) → All P ms → All P added
  pub ordered : InOrder ms → InOrder added
  pub once : Once db.rows → Once db'.rows
  pub complete :
      finished ≡ true → All (λ (m : Migration). is_migration_applied m.version db'.rows ≡ true) ms

-- A version that stands in the rows stands there after more rows.
still :
    (v : ℤ) (a b : Rows) → is_migration_applied v a ≡ true → is_migration_applied v (a ++ b) ≡ true
still v a b h = applied-append v a b ∙ rw h refl

now_there : (v : ℤ) (d : List ℕ) (a : Rows) → is_migration_applied v (a ++ ((v, d) ∷ [])) ≡ true
unfolding is_migration_applied
now_there v d [] = rw (itself v) refl
now_there v d ((w, c) ∷ a) = or_true (w ==ℤ v) (now_there v d a)
  where
    or_true : {x : Bool} (c : Bool) → x ≡ true → (c || x) ≡ true
    or_true true h = refl
    or_true false h = h

-- A start of the program, as a function on the database, when these are the migrations.
unfoldable pub Migrates : List Migration → Db → (Db → Db × Bool) → Type 0
Migrates ms db start =
    ((added : List Migration) × ((start db).0.rows ≡ db.rows ++ map row_of added)
      × ((start db).0.batches ≡ db.batches ++ map (λ (m : Migration). m.sql) added)
      × InOrder added)
    × (Once db.rows → Once (start db).0.rows)
    × ((start db).1 ≡ true
        → All (λ (m : Migration). is_migration_applied m.version (start db).0.rows ≡ true)
            (sort_by_version ms)
          × (start (start db).0 ≡ ((start db).0, true)))

module _ (works : List String → String → Bool) where
  skipped :
      (m : Migration) (ms : List Migration) (db db' : Db) (finished : Bool)
      → is_migration_applied m.version db.rows ≡ true
      → Ran ms db db' finished
      → Ran (m ∷ ms) db db' finished
  skipped m ms db db' finished old r = record {
    added = r.added;
    rows = r.rows;
    batches = r.batches;
    among = λ P h. r.among P h.1;
    ordered = λ d. r.ordered d.1;
    once = r.once;
    complete = λ f. (rw r.rows (still m.version db.rows (map row_of r.added) old), r.complete f);
  }

  -- The database with one more migration.
  abbrev with_one : Migration → Db → Db
  with_one m db = record {
    rows = db.rows ++ ((m.version, m.description) ∷ []);
    batches = db.batches ++ (m.sql ∷ []);
  }

  one_more :
      (m : Migration) (ms : List Migration) (db db' : Db) (finished : Bool)
      → is_migration_applied m.version db.rows ≡ false
      → Ran ms (with_one m db) db' finished
      → Ran (m ∷ ms) db db' finished
  one_more m ms db db' finished new r = record {
    added = m ∷ r.added;
    rows = r.rows ∙ append_assoc db.rows (row_of m ∷ []) (map row_of r.added);
    batches =
        r.batches ∙ append_assoc db.batches (m.sql ∷ []) (map (λ (x : Migration). x.sql) r.added);
    among = λ P h. (h.0, r.among P h.1);
    ordered = λ d. (r.among (λ n. m.version ≤ℤ n.version) d.0, r.ordered d.1);
    once = λ h. r.once (Once-add m.version m.description db.rows new h);
    complete = λ f. (
      rw r.rows (
          still m.version (db.rows ++ (row_of m ∷ [])) (map row_of r.added)
            (now_there m.version m.description db.rows)),
      r.complete f,
    );
  }

  no_rows-Ran : (ms : List Migration) (db : Db) → Ran ms db db false
  no_rows-Ran ms db = record {
    added = [];
    rows = sym (append-nil db.rows);
    batches = sym (append-nil db.batches);
    among = λ P h. tt;
    ordered = λ d. tt;
    once = λ h. h;
    complete = λ f. absurd (no f);
  }
    where
      no : false ≡ true → ⊥
      no f = cc

  apply_all-Ran :
      (ms : List Migration) (db : Db)
      → Ran ms db (apply_all works ms db).0 (apply_all works ms db).1
  unfolding apply_all
  apply_all-Ran [] db = record {
    added = [];
    rows = sym (append-nil db.rows);
    batches = sym (append-nil db.batches);
    among = λ P h. tt;
    ordered = λ d. tt;
    once = λ h. h;
    complete = λ f. tt;
  }
  apply_all-Ran (m ∷ ms) db = elim (Bool-cases (is_migration_applied m.version db.rows)) [
    | inl old ↦ rw old (skipped m ms db _ _ old (apply_all-Ran ms db))
    | inr new ↦ elim (Bool-cases (works db.batches m.sql)) [
      | inl fine ↦ rw (new, fine) (one_more m ms db _ _ new (apply_all-Ran ms (with_one m db)))
      | inr fails ↦ rw (new, fails) (no_rows-Ran (m ∷ ms) db)
    ]
  ]

  all_applied :
      (ms : List Migration) (db : Db)
      → All (λ (m : Migration). is_migration_applied m.version db.rows ≡ true) ms
      → apply_all works ms db ≡ (db, true)
  unfolding apply_all
  all_applied [] db h = refl
  all_applied (m ∷ ms) db h = rw h.0 (all_applied ms db h.1)

  -- From files that can be loaded: what a start runs, it runs in the order of the versions, each version with
  -- one row and one batch, in the same order; no version comes to stand in two rows. If it finishes, all
  -- versions of the files stand in the table, and a second start finishes and changes nothing.
  pub migrate_lem :
      (files : List (List ℕ × String)) (ms : List Migration) (db : Db)
      → load_migrations files ≡ some ms
      → Migrates ms db (migrate works files)
  unfolding migrate apply_loaded Migrates
  migrate_lem files ms db loads =
      let r = apply_all-Ran (sort_by_version ms) db in
      subst (λ (o : Option (List Migration)). Migrates ms db (apply_loaded works o)) (sym loads)
        (
          (r.added, r.rows, r.batches, r.ordered (sort-InOrder ms)),
          r.once,
          λ f. (r.complete f, all_applied (sort_by_version ms) _ (r.complete f)),
        )
