-- ===== src/Storage/Transport/Runs.antt =====
-- Sweeps at concrete values.
use lite_nvr.Storage.Transport.Attempts.{sweep_all_lem, is_done, tally, idle}
use lite_nvr.Storage.Segments.Rows.{UniqueIds}
use lite_nvr.Storage.Segments.{RecordSegment}
use lite_nvr.Common.Int.{pos}
use lite_nvr.Common.{◌+◌, arith, none, true}
use lite_nvr.Common.Dict.{lookup}
use lite_nvr.Storage.Transport.{attempts_of, sweep_all, pair_eq, Round}
use lite_nvr.Common.{◌≤◌, ◌≡◌, ◌∷◌, []}

abbrev clip : RecordSegment
clip = record {
  id = "a";
  record_type = pos 0;
  start_time = 10;
  duration = 0;
  file_size = 1;
  file_name = "a";
  file_path = "a";
  folder = "";
  app = "live";
  stream = "front";
  vhost = "";
  video_codec = "h264";
  video_width = pos 1920;
  video_height = pos 1080;
  video_fps = 0;
  video_bit_rate = pos 0;
  audio_codec = "";
  audio_sample_rate = pos 0;
  audio_channels = pos 0;
  audio_bit_rate = pos 0;
  reserve_text1 = "";
  reserve_text2 = "";
  reserve_text3 = "";
  reserve_int1 = pos 0;
  reserve_int2 = pos 0;
  create_time = 10;
  update_time = 10;
}

abbrev ftp : Round
ftp = record {
  target_id = "ftp";
  segments = clip ∷ [];
  remote_key_for = λ s. s.file_name;
  upload = λ s key. none;
  records = λ s. true;
  fresh_id = λ s. "job";
  now = 100;
}

clip-UniqueIds : UniqueIds (clip ∷ [])
clip-UniqueIds id = ground arith

sweep_all_lem_example :
    let st = sweep_all (ftp ∷ []) idle in
    let st' = sweep_all (ftp ∷ ftp ∷ []) st in
    (tally "a" "ftp" st.uploads
      ≡ attempts_of (lookup ("a", "ftp") st.jobs) + tally "a" "ftp" st.unrecorded)
    × (attempts_of (lookup ("a", "ftp") st.jobs) ≤ 5)
    × (is_done (lookup ("a", "ftp") st.jobs) ≡ true
        → (tally "a" "ftp" st'.uploads ≡ tally "a" "ftp" st.uploads)
          × (lookup ("a", "ftp") st'.jobs ≡ lookup ("a", "ftp") st.jobs))
sweep_all_lem_example =
    sweep_all_lem (ftp ∷ []) (ftp ∷ ftp ∷ []) "a" "ftp" (clip-UniqueIds, tt)
      (clip-UniqueIds, (clip-UniqueIds, tt))
