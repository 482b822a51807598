-- ===== src/Compositor/Layout/Tiles.antt =====
-- layout.rs: the tiles of a grid lie on the canvas, and none on another.
use native.Mathlib.Nat.{
  lt_of_mul-lt-mul_right, div-add-mod', mod-lt, lt-div-mul-add, div-mul-le_self, div-lt_iff_lt-mul,
  mul-le-mul_right,
}
use lite_nvr.Common.{
  ltb, ℕ, zero, suc, List, [], ◌∷◌, String, ◌≡◌, ◌⊎◌, inl, inr, ◌+◌, ◌-◌, ◌*◌, ◌/◌, ◌%◌, ◌^◌, ◌≤◌,
  ◌<◌, max, length, leb, All, map, refl, ap, arith, Bool-cases, nat_eq,
}
use lite_nvr.Compositor.Layout.{
  even, Region, new, side_from, ceil_sqrt, div_ceil, tile, tiles, grid,
}

-- The region lies on a canvas of that size, and its four numbers are even.
pub record Inside (width height : ℕ) (r : Region) : Type 0 where
  pub across : r.x + r.w ≤ width
  pub down : r.y + r.h ≤ height
  pub even_x : r.x % 2 ≡ 0
  pub even_y : r.y % 2 ≡ 0
  pub even_w : r.w % 2 ≡ 0
  pub even_h : r.h % 2 ≡ 0

-- One of the two lies beside or above the other.
abbrev pub Apart : Region → Region → Type 0
Apart r s = (r.x + r.w ≤ s.x) ⊎ (s.x + s.w ≤ r.x) ⊎ (r.y + r.h ≤ s.y) ⊎ (s.y + s.h ≤ r.y)

abbrev pub AllApart : List Region → Type 0
AllApart [] = Unit {0}
AllApart (r ∷ rs) = All (Apart r) rs × AllApart rs

side_pos : (fuel c n : ℕ) → 1 ≤ c → 1 ≤ side_from fuel c n
unfolding side_from
side_pos zero c n h = h
side_pos (suc fuel) c n h = elim (Bool-cases (leb n (c * c))) [
  | inl e ↦ rw e h
  | inr e ↦ rw e (side_pos fuel (c + 1) n (omega (arith, h)))
]

even_twice : (v : ℕ) → even v ≡ v / 2 * 2
unfolding even
even_twice v = refl

even_times : (k v : ℕ) → even (k * even v) ≡ k * even v
unfolding even
even_times k v = let e : k * (v / 2 * 2) ≡ k * (v / 2) * 2 = grind arith in rw e (omega arith)

within : (k whole : ℕ) → k * 2 ≤ whole → k * 2 ≤ even whole
unfolding even
within k whole h = omega (arith, h)

-- One of `parts` strips of an even width, cut from `whole`.
strip :
    (a parts whole : ℕ)
    → a < parts
    → (even (a * even (whole / parts)) + even (whole / parts) ≤ even whole)
      × (even (a * even (whole / parts)) % 2 ≡ 0)
      × (even (whole / parts) % 2 ≡ 0)
unfolding even
strip a parts whole h =
    let q = whole / parts in
    let m : ℕ = q / 2 in
    let next : (a + 1) * m ≤ parts * m = mul-le-mul_right m (omega (arith, h)) in
    let half : m * 2 * parts ≤ q * parts = mul-le-mul_right parts (omega arith) in
    let cut : q * parts ≤ whole = div-mul-le_self whole parts in
    let e : (a + 1) * m ≡ a * m + m = grind arith in
    let f : m * 2 * parts ≡ parts * m * 2 = grind arith in
    let g : a * (m * 2) ≡ a * m * 2 = grind arith in
    rw g (omega (arith, next, half, cut, e, f), omega arith, omega arith)

strips_apart : (a b v : ℕ) → a < b → even (a * even v) + even v ≤ even (b * even v)
strips_apart a b v h =
    let next : (a + 1) * even v ≤ b * even v = mul-le-mul_right (even v) (omega (arith, h)) in
    let e : (a + 1) * even v ≡ a * even v + even v = grind arith in
    rw (even_times a v, even_times b v) (omega (arith, next, e))

rows_enough : (n cols i : ℕ) → 1 ≤ cols → i < n → i / cols < div_ceil n cols
unfolding div_ceil
rows_enough n cols i h l =
    (div-lt_iff_lt-mul (omega (arith, h))).1
      (omega (arith, lt-div-mul-add {a = n + cols - 1} {b = cols} (omega (arith, h)), h, l))

order_cases : (a b : ℕ) → (a < b) ⊎ (b < a) ⊎ (a ≡ b)
order_cases a b = elim (Bool-cases (ltb a b)) [
  | inl e ↦ inl (ground (arith, e))
  | inr e ↦ elim (Bool-cases (ltb b a)) [
    | inl f ↦ inr (inl (ground (arith, f)))
    | inr f ↦ inr (inr (ground (arith, e, f)))
  ]
]

-- In one column a later tile is in a later row.
later_row : (i j cols : ℕ) → i < j → i % cols ≡ j % cols → i / cols < j / cols
later_row i j cols h e =
    lt_of_mul-lt-mul_right cols (omega (arith, div-add-mod' i cols, div-add-mod' j cols, h, e))

-- The tiles of a grid of `cols` columns and `rows` rows.
module _ (width height cols rows : ℕ) where
  cell : ℕ → String → Region
  cell i id = tile cols (even (width / cols)) (even (height / rows)) i id

  cells : ℕ → List String → List Region
  cells i ids = tiles cols (even (width / cols)) (even (height / rows)) i ids

  cell-Inside :
      (i : ℕ) (id : String)
      → 1 ≤ cols
      → i / cols < rows
      → Inside (even width) (even height) (cell i id)
  unfolding cell tile
  cell-Inside i id h l =
      let column = strip (i % cols) cols width (mod-lt i (omega (arith, h))) in
      let row = strip (i / cols) rows height l in
      record {
        across = column.0;
        down = row.0;
        even_x = column.1;
        even_y = row.1;
        even_w = column.2;
        even_h = row.2;
      }

  cells-Apart : (i j : ℕ) (id id' : String) → i < j → Apart (cell i id) (cell j id')
  unfolding cell tile
  cells-Apart i j id id' h = elim (order_cases (i % cols) (j % cols)) [
    | inl left ↦ inl (strips_apart (i % cols) (j % cols) (width / cols) left)
    | inr (inl right) ↦ inr (inl (strips_apart (j % cols) (i % cols) (width / cols) right))
    | inr (inr column) ↦ inr (
        inr
          (inl (strips_apart (i / cols) (j / cols) (height / rows) (later_row i j cols h column))))
  ]

  cells-All :
      (i k : ℕ) (id : String) (ids : List String) → i < k → All (Apart (cell i id)) (cells k ids)
  unfolding cells tiles cell
  cells-All i k id [] h = tt
  cells-All i k id (id' ∷ ids) h =
      (cells-Apart i k id id' h, cells-All i (k + 1) id ids (omega (arith, h)))

  cells-AllApart : (i : ℕ) (ids : List String) → AllApart (cells i ids)
  unfolding cells tiles cell
  cells-AllApart i [] = tt
  cells-AllApart i (id ∷ ids) =
      (cells-All i (i + 1) id ids (omega arith), cells-AllApart (i + 1) ids)

  cells-Inside :
      (n i : ℕ) (ids : List String)
      → 1 ≤ cols
      → rows ≡ div_ceil n cols
      → i + length ids ≤ n
      → All (Inside (even width) (even height)) (cells i ids)
  unfolding cells tiles cell
  cells-Inside n i [] h e l = tt
  cells-Inside n i (id ∷ ids) h e l = (
    cell-Inside i id h (rw e (rows_enough n cols i h (omega (arith, l)))),
    cells-Inside n (i + 1) ids h e (omega (arith, l)),
  )

  cells-ids : (i : ℕ) (ids : List String) → map (λ (r : Region). r.source_id) (cells i ids) ≡ ids
  unfolding cells tiles tile
  cells-ids i [] = refl
  cells-ids i (id ∷ ids) = ap (λ l. id ∷ l) (cells-ids (i + 1) ids)

-- The grid of any canvas and any list of fewer than 2^32 sources has a region for each source, in their
-- order; each lies on the canvas, with four even numbers as YUV420P wants, and no two overlap.
pub grid_lem :
    (width height : ℕ) (source_ids : List String)
    → length source_ids < 2 ^ 32
    → let l = grid width height source_ids in
      (map (λ (r : Region). r.source_id) l.regions ≡ source_ids)
      × All (Inside l.width l.height) l.regions
      × AllApart l.regions
unfolding grid new cells ceil_sqrt
grid_lem width height source_ids small =
    let n = max (length source_ids) 1 % 2 ^ 32 in
    let cols = ceil_sqrt n in
    let rows = div_ceil n cols in
    (
      cells-ids width height cols rows 0 source_ids,
      cells-Inside width height cols rows n 0 source_ids (side_pos n 1 n (omega arith)) refl
          (omega (arith, small)),
      cells-AllApart width height cols rows 0 source_ids,
    )
