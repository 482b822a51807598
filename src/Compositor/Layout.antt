-- ===== src/Compositor/Layout.antt =====
-- crates/nvr-compositor/src/layout.rs. The numbers are u32; none of the products exceeds the canvas.
pub mod Tiles
pub mod Side
mod Runs
use lite_nvr.Common.{
  ℕ, zero, suc, List, [], ◌∷◌, String, ◌+◌, ◌-◌, ◌*◌, ◌/◌, ◌%◌, ◌^◌, max, length, leb,
  if◌then◌else◌,
}

-- `v & !1`.
unfoldable pub even : ℕ → ℕ
even v = v / 2 * 2

pub record Region : Type 0 where
  pub source_id : String
  pub x : ℕ
  pub y : ℕ
  pub w : ℕ
  pub h : ℕ

pub record Layout : Type 0 where
  pub width : ℕ
  pub height : ℕ
  pub regions : List Region

unfoldable pub new : ℕ → ℕ → List Region → Layout
unfolding even
new width height regions = record { width = even width; height = even height; regions = regions }

-- The least number from c on whose square is at least n. Below 2^32 this is what the square root in
-- floating point gives, rounded up.
unfoldable pub side_from : ℕ → ℕ → ℕ → ℕ
side_from zero c n = c
side_from (suc fuel) c n = let rest = side_from fuel (c + 1) n in if leb n (c * c) then c else rest

unfoldable pub ceil_sqrt : ℕ → ℕ
unfolding side_from
ceil_sqrt n = side_from n 1 n

unfoldable pub div_ceil : ℕ → ℕ → ℕ
div_ceil n d = (n + d - 1) / d

unfoldable pub tile : ℕ → ℕ → ℕ → ℕ → String → Region
unfolding even
tile cols cw ch i id = record {
  source_id = id;
  x = even (i % cols * cw);
  y = even (i / cols * ch);
  w = cw;
  h = ch;
}

-- The tiles from the index i on.
unfoldable pub tiles : ℕ → ℕ → ℕ → ℕ → List String → List Region
unfolding tile
tiles cols cw ch i [] = []
tiles cols cw ch i (id ∷ ids) = tile cols cw ch i id ∷ tiles cols cw ch (i + 1) ids

unfoldable pub grid : ℕ → ℕ → List String → Layout
unfolding new tiles ceil_sqrt div_ceil even
grid width height source_ids =
    let n = max (length source_ids) 1 % 2 ^ 32 in
    let cols = ceil_sqrt n in
    let rows = div_ceil n cols in
    new width height (tiles cols (even (width / cols)) (even (height / rows)) 0 source_ids)
