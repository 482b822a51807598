-- ===== src/Storage/Cleanup/Runs.antt =====
-- A retention pass at concrete values.
use lite_nvr.Common.{◌≡◌, arith}
use lite_nvr.Common.{◌≡◌, Bool-cases, inl, inr, sym, ◌∙◌, ◌==◌, string_eq}
use lite_nvr.Storage.Segments.Order.{Ascending}
use lite_nvr.Storage.Cleanup.Size.{run_once_lem, Pruned, started}
use lite_nvr.Storage.Segments.Rows.{SameRows, UniqueIds}
use lite_nvr.Storage.Segments.{list, Table, RecordSegment}
use lite_nvr.Storage.Cleanup.{run_once, cap_of, CleanupConfig, age_rule}
use lite_nvr.Common.{arith, refl, Bool, true, false, ℕ, String, ◌∷◌, [], reverse}
use lite_nvr.Common.Int.{pos}

abbrev segment : String → ℕ → ℕ → RecordSegment
segment id start_time file_size = record {
  id = id;
  record_type = pos 0;
  start_time = start_time;
  duration = 0;
  file_size = file_size;
  file_name = id;
  file_path = id;
  folder = "";
  app = "live";
  stream = "front";
  vhost = "";
  video_codec = "h264";
  video_width = pos 1920;
  video_height = pos 1080;
  video_fps = 0;
  video_bit_rate = pos 0;
  audio_codec = "";
  audio_sample_rate = pos 0;
  audio_channels = pos 0;
  audio_bit_rate = pos 0;
  reserve_text1 = "";
  reserve_text2 = "";
  reserve_text3 = "";
  reserve_int1 = pos 0;
  reserve_int2 = pos 0;
  create_time = start_time;
  update_time = start_time;
}

-- Three segments of half a GiB each, against one GiB.
abbrev disk : Table
disk = segment "b" 20 536_870_912 ∷ segment "a" 10 536_870_912 ∷ segment "c" 30 536_870_912 ∷ []

abbrev policy : CleanupConfig
policy = record { enabled = true; max_age_days = 0; max_total_gb = 1; interval_minutes = 60 }

abbrev never : String → Bool
never id = false

ids_apart : (i j id : String) → (i == j) ≡ false → (i == id) ≡ true → (j == id) ≡ false
ids_apart i j id n h = elim (Bool-cases (j == id)) [
  | inr e ↦ e
  | inl e ↦
      let same = (string_eq.hits_iff i id).0 h ∙ sym ((string_eq.hits_iff j id).0 e) in
      e ∙ sym ((string_eq.hits_iff i j).1 same) ∙ n
]

disk-UniqueIds : UniqueIds disk
disk-UniqueIds id =
    ground (arith, ids_apart "a" "b" id refl, ids_apart "a" "c" id refl, ids_apart "b" "c" id refl)

run_once_lem_example :
    let p = age_rule never policy 100 (started never (λ id. refl) disk) in
    let ss = reverse (list p.rows) in
    Ascending ss
    × SameRows p.rows ss
    × Pruned never (λ id. refl) (cap_of never policy) ss p (run_once never policy 100 disk)
run_once_lem_example =
    run_once_lem never (λ id. refl) policy 100 disk disk-UniqueIds refl (omega arith)
