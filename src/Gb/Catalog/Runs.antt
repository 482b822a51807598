-- ===== src/Gb/Catalog/Runs.antt =====
-- A device that answers a query in two chunks, one that answers in part, and one that is silent.
use lite_nvr.Gb.Catalog.{catalog_query, Catalog}
use lite_nvr.Gb.Server.{CatalogItem, CatalogResponse}
use lite_nvr.Gb.Catalog.Chunks.{catalog_query_lem, Announce, Answers, all_items}
use lite_nvr.Common.{arith, ◌^◌, String, ◌<◌, refl, some, true, false, [], ◌∷◌, ok, ◌≡◌, length}

abbrev channel : String → CatalogItem
channel id = record { device_id = id; name = id; status = "ON" }

abbrev first_chunk : CatalogResponse
first_chunk = record {
  sn = 7;
  device_id = "nvr";
  sum_num = 3;
  items = channel "a" ∷ channel "b" ∷ [];
}

abbrev last_chunk : CatalogResponse
last_chunk = record { sn = 7; device_id = "nvr"; sum_num = 3; items = channel "c" ∷ [] }

run_whole :
    catalog_query (some 7) true false (first_chunk ∷ last_chunk ∷ [])
    ≡ ok (record {
      sum_num = 3;
      items = channel "a" ∷ channel "b" ∷ channel "c" ∷ [];
      incomplete = false;
    })
unfolding catalog_query
run_whole = refl

run_part :
    catalog_query (some 7) true false (first_chunk ∷ [])
    ≡ ok (record { sum_num = 3; items = channel "a" ∷ channel "b" ∷ []; incomplete = true })
unfolding catalog_query
run_part = refl

-- Nothing arrived in time: an empty catalog that is not marked.
run_silent :
    catalog_query (some 7) true false []
    ≡ ok (record { sum_num = 0; items = []; incomplete = false })
unfolding catalog_query
run_silent = refl

announced : Announce 7 3 (first_chunk ∷ last_chunk ∷ [])
unfolding Announce
announced = (refl, (refl, (refl, (refl, tt))))

few : length (all_items (first_chunk ∷ last_chunk ∷ [])) < 2 ^ 32
unfolding all_items
few = omega arith

catalog_query_lem_example :
    (catalog : Catalog) × (catalog_query (some 7) true false (first_chunk ∷ last_chunk ∷ [])
      ≡ ok catalog)
    × Answers 3 (first_chunk ∷ last_chunk ∷ []) catalog
catalog_query_lem_example =
    catalog_query_lem 7 3 first_chunk (last_chunk ∷ []) true false refl (omega arith) announced few
