-- ===== src/Gb/Catalog/Chunks.antt =====
-- manscdp.rs: what the chunks of an answer make.
use lite_nvr.Gb.Catalog.{
  not_sent, new, finish, send_twice, Catalog, catalog_query, collect, CatalogAccumulator, push,
  is_complete,
}
use lite_nvr.Gb.Server.{CatalogItem, CatalogResponse}
use lite_nvr.Common.{
  ltb, ◌||◌, Bool, subst, ◌%◌, leb, ◌^◌, length, ◌≤◌, ◌<◌, ◌++◌, ℕ, List, refl, sym, ap, ◌∙◌, some,
  true, false, [], ◌∷◌, ok, err, nat_eq, if◌then◌else◌, ◌==◌, ◌≡◌, ◌⊎◌, inl, inr, Bool-cases, arith,
  append_assoc, append-nil, length-append,
}

unfoldable pub all_items : List CatalogResponse → List CatalogItem
all_items [] = []
all_items (c ∷ cs) = c.items ++ all_items cs

-- Each chunk carries the query's number and the number of all items.
unfoldable pub Announce : ℕ → ℕ → List CatalogResponse → Type 0
Announce sn n [] = Unit {0}
Announce sn n (c ∷ cs) = (c.sn ≡ sn) × ((c.sum_num ≡ n) × Announce sn n cs)

-- What a fitting chunk makes of the accumulator.
push_sn : (acc : CatalogAccumulator) (c : CatalogResponse) → (push acc c).1.sn ≡ acc.sn
unfolding push
push_sn acc c = elim (Bool-cases (c.sn == acc.sn)) [ inl e ↦ rw e refl | inr e ↦ rw e refl ]

push_items :
    (acc : CatalogAccumulator) (c : CatalogResponse)
    → c.sn ≡ acc.sn
    → (push acc c).1.items ≡ acc.items ++ c.items
unfolding push
push_items acc c h = rw ((nat_eq.hits_iff c.sn acc.sn).1 h) refl

push_sum :
    (acc : CatalogAccumulator) (c : CatalogResponse) (n : ℕ)
    → c.sn ≡ acc.sn
    → c.sum_num ≡ n
    → acc.sum_num ≤ n
    → (push acc c).1.sum_num ≡ n
unfolding push
push_sum acc c n h is_n le = rw ((nat_eq.hits_iff c.sn acc.sn).1 h) (ground (arith, is_n, le))

small_count : (a : ℕ) → a < 2 ^ 32 → a % 2 ^ 32 ≡ a
small_count a small = omega (arith, small)

complete-leb :
    (acc : CatalogAccumulator) (n : ℕ)
    → acc.sum_num ≡ n
    → 0 < n
    → length acc.items < 2 ^ 32
    → is_complete acc ≡ leb n (length acc.items)
unfolding is_complete
complete-leb acc n is_n positive small =
    let len = small_count (length acc.items) small in ground (arith, is_n, positive, len)

-- What is gathered from the accumulator on: the items of the chunks up to one, before which there
-- were too few, and with which either there are enough or nothing more has arrived.
abbrev Gathered : ℕ → List CatalogItem → List CatalogResponse → CatalogAccumulator → Type 0
Gathered n had chunks r =
    (before : List CatalogResponse) × (last : CatalogResponse) × (after : List CatalogResponse)
    × (before ++ (last ∷ after) ≡ chunks)
    × (r.items ≡ had ++ (all_items before ++ last.items))
    × ((before ≡ []) ⊎ (length (had ++ all_items before) < n))
    × ((after ≡ []) ⊎ (n ≤ length r.items))
    × (r.sum_num ≡ n)

-- The catalog that the chunks make when `n` items are to come.
abbrev pub Answers : ℕ → List CatalogResponse → Catalog → Type 0
Answers n chunks catalog =
    (before : List CatalogResponse) × (last : CatalogResponse) × (after : List CatalogResponse)
    × (before ++ (last ∷ after) ≡ chunks)
    × (catalog.items ≡ all_items before ++ last.items)
    × (length (all_items before) < n)
    × ((after ≡ []) ⊎ (n ≤ length catalog.items))
    × (catalog.sum_num ≡ n)
    × (catalog.incomplete ≡ ltb (length catalog.items) n)

all_items-append :
    (xs ys : List CatalogResponse) → all_items (xs ++ ys) ≡ all_items xs ++ all_items ys
unfolding all_items
all_items-append [] ys = refl
all_items-append (x ∷ xs) ys =
    ap (λ l. x.items ++ l) (all_items-append xs ys)
    ∙ sym (append_assoc x.items (all_items xs) (all_items ys))

le_of_leb : (a b : ℕ) → leb a b ≡ true → a ≤ b
le_of_leb a b h = ground arith

lt_of_leb : (a b : ℕ) → leb a b ≡ false → b < a
lt_of_leb a b h = ground arith

-- What the chunk `c` puts before what is gathered of the chunks after it.
later-Gathered :
    (n : ℕ) (had : List CatalogItem) (c : CatalogResponse) (cs : List CatalogResponse)
    (r : CatalogAccumulator)
    → length (had ++ c.items) < n
    → Gathered n (had ++ c.items) cs r
    → Gathered n had (c ∷ cs) r
unfolding all_items
later-Gathered n had c cs r few (before, last, after, parts, items, short, stop, sum) = (
  c ∷ before,
  last,
  after,
  ap (λ l. c ∷ l) parts,
  items
      ∙ (append_assoc had c.items (all_items before ++ last.items)
          ∙ ap (λ l. had ++ l) (sym (append_assoc c.items (all_items before) last.items))),
  inr (at short),
  stop,
  sum,
)
  where
    at :
        ((before ≡ []) ⊎ (length ((had ++ c.items) ++ all_items before) < n))
        → length (had ++ (c.items ++ all_items before)) < n
    at (inl e) =
        subst (λ (b : List CatalogResponse). length (had ++ (c.items ++ all_items b)) < n) (sym e)
          (subst (λ l. length (had ++ l) < n) (sym (append-nil c.items)) few)
    at (inr h) = subst (λ l. length l < n) (append_assoc had c.items (all_items before)) h

collect-Gathered :
    (acc : CatalogAccumulator) (c : CatalogResponse) (cs : List CatalogResponse) (sn n : ℕ)
    → acc.sn ≡ sn
    → acc.sum_num ≤ n
    → 0 < n
    → Announce sn n (c ∷ cs)
    → length (acc.items ++ all_items (c ∷ cs)) < 2 ^ 32
    → Gathered n acc.items (c ∷ cs) (collect acc (c ∷ cs))
unfolding collect Announce all_items
collect-Gathered acc c [] sn n is_sn le positive says small =
    let fits = says.0 ∙ sym is_sn in
    let acc' = (push acc c).1 in
    let sum = push_sum acc c n fits says.1.0 le in
    let whole : Gathered n acc.items (c ∷ []) acc' =
      ([], c, [], refl, push_items acc c fits, inl refl, inl refl, sum) in
    elim (is_complete acc')
      as (λ b. Gathered n acc.items (c ∷ []) (if b then acc' else collect acc' [])) [
        | true ↦ whole
        | false ↦ whole
      ]
collect-Gathered acc c (c' ∷ cs) sn n is_sn le positive says small =
    let fits = says.0 ∙ sym is_sn in
    let acc' = (push acc c).1 in
    let sum = push_sum acc c n fits says.1.0 le in
    let items = push_items acc c fits in
    let total =
      ap (λ l. l ++ all_items (c' ∷ cs)) items
      ∙ append_assoc acc.items c.items (all_items (c' ∷ cs)) in
    let bound = subst (λ l. length l < 2 ^ 32) (sym total) small in
    let len = length-append acc'.items (all_items (c' ∷ cs)) in
    let enough = complete-leb acc' n sum positive (omega (arith, bound, len)) in
    let rest =
      collect-Gathered acc' c' cs sn n (push_sn acc c ∙ is_sn) (omega (arith, sum)) positive
        says.1.1 bound in
    elim (Bool-cases (is_complete acc')) [
      | inl e ↦
          rw e ([], c, c' ∷ cs, refl, items, inl refl, inr (le_of_leb n _ (sym enough ∙ e)), sum)
      | inr e ↦ rw e (
          later-Gathered n acc.items c (c' ∷ cs) (collect acc' (c' ∷ cs))
            (subst (λ l. length l < n) items (lt_of_leb n _ (sym enough ∙ e)))
            (subst (λ l. Gathered n l (c' ∷ cs) (collect acc' (c' ∷ cs))) items rest))
    ]

-- When a query is sent, and at least one chunk arrives in time, and the chunks carry the query's
-- number and one positive number of items that are to come: the catalog holds that number and the
-- items of the chunks up to one, in order. Before that chunk there were too few items; with it there
-- are enough, or no further chunk has arrived. It is marked incomplete exactly if the items that it
-- holds are fewer.
pub catalog_query_lem :
    (sn n : ℕ) (c : CatalogResponse) (cs : List CatalogResponse) (first second : Bool)
    → (first || second) ≡ true
    → 0 < n
    → Announce sn n (c ∷ cs)
    → length (all_items (c ∷ cs)) < 2 ^ 32
    → (catalog : Catalog) × (catalog_query (some sn) first second (c ∷ cs) ≡ ok catalog)
      × Answers n (c ∷ cs) catalog
unfolding catalog_query finish all_items
catalog_query_lem sn n c cs first second reached positive says small =
    let g = collect-Gathered (new sn) c cs sn n refl (omega arith) positive says small in
    let r = collect (new sn) (c ∷ cs) in (finish r, sent first second reached, answered r g)
  where
    sent :
        (first second : Bool)
        → (first || second) ≡ true
        → (if (send_twice first second).1
            then ok (finish (collect (new sn) (c ∷ cs)))
            else err not_sent)
          ≡ ok (finish (collect (new sn) (c ∷ cs)))
    sent true second h = refl
    sent false true h = refl
    sent false false h = absurd (no h)
      where
        no : false ≡ true → ⊥
        no h = cc

    marked :
        (r : CatalogAccumulator)
        → length r.items < 2 ^ 32
        → r.sum_num ≡ n
        → (finish r).incomplete ≡ ltb (length r.items) n
    marked r fits same =
        let count = small_count (length r.items) fits in ground (arith, count, same, positive)

    answered : (r : CatalogAccumulator) → Gathered n [] (c ∷ cs) r → Answers n (c ∷ cs) (finish r)
    answered r (before, last, after, parts, items, short, stop, sum) = (
      before,
      last,
      after,
      parts,
      items,
      few short,
      stop,
      sum,
      marked r (fits (sym (ap all_items parts) ∙ all_items-append before (last ∷ after))) sum,
    )
      where
        few : ((before ≡ []) ⊎ (length (all_items before) < n)) → length (all_items before) < n
        few (inl e) =
            subst (λ (b : List CatalogResponse). length (all_items b) < n) (sym e) positive
        few (inr h) = h

        fits :
            all_items (c ∷ cs) ≡ all_items before ++ (last.items ++ all_items after)
            → length r.items < 2 ^ 32
        fits e =
            let whole = ap (λ l. length l) e in
            let held = ap (λ l. length l) items in
            let a = length-append (all_items before) last.items in
            let b = length-append (all_items before) (last.items ++ all_items after) in
            let d = length-append last.items (all_items after) in
            omega (arith, small, whole, held, a, b, d)
