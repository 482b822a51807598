-- ===== src/Storage/Migrations/Runs.antt =====
-- The files of nvr-db/migrations, in another order, and one that is no migration.
use lite_nvr.Common.{ℕ, Bool, true, some, List, [], ◌∷◌, ◌≡◌, String, refl}
use lite_nvr.Common.Int.{pos}
use lite_nvr.Common.Text.{codes}
use lite_nvr.Storage.Migrations.{Migration, Db, load_migrations, migrate}
use lite_nvr.Storage.Migrations.Once.{migrate_lem, Migrates}

abbrev shipped : List (List ℕ × String)
shipped =
    (codes "20260702_transport.sql", "t")
    ∷ (codes "README.md", "r")
    ∷ (codes "20260317_record_segment.sql", "s")
    ∷ (codes "20260210_init.sql", "i")
    ∷ []

abbrev parsed : List Migration
parsed =
    record { version = pos 20_260_702; description = codes "transport"; sql = "t" }
    ∷ record { version = pos 20_260_317; description = codes "record segment"; sql = "s" }
    ∷ record { version = pos 20_260_210; description = codes "init"; sql = "i" }
    ∷ []

parses : load_migrations shipped ≡ some parsed
unfolding load_migrations
parses = refl

abbrev empty : Db
empty = record { rows = []; batches = [] }

abbrev fine : List String → String → Bool
fine before sql = true

runs_in_order : (migrate fine shipped empty).0.batches ≡ ("i" ∷ "s" ∷ "t" ∷ [])
unfolding migrate
runs_in_order = refl

migrate_lem_example : Migrates parsed empty (migrate fine shipped)
migrate_lem_example = migrate_lem fine shipped parsed empty parses
