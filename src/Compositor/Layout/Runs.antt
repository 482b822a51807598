-- ===== src/Compositor/Layout/Runs.antt =====
-- Five cameras on a full-HD canvas.
use lite_nvr.Common.{String, List, [], ◌∷◌, ◌≡◌, map, All, refl, arith}
use lite_nvr.Compositor.Layout.{Region, grid}
use lite_nvr.Compositor.Layout.Tiles.{grid_lem, Inside, AllApart}

abbrev five : List String
five = "a" ∷ "b" ∷ "c" ∷ "d" ∷ "e" ∷ []

grid_lem_example :
    let l = grid 1_920 1_080 five in
    (map (λ (r : Region). r.source_id) l.regions ≡ five)
    × All (Inside l.width l.height) l.regions
    × AllApart l.regions
grid_lem_example = grid_lem 1_920 1_080 five (omega arith)

-- Three columns, and two rows of half the height.
two_rows :
    map (λ (r : Region). r.h) (grid 1_920 1_080 five).regions ≡ (540 ∷ 540 ∷ 540 ∷ 540 ∷ 540 ∷ [])
unfolding grid
two_rows = refl
