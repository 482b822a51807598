-- ===== src/Bus/Choice/Runs.antt =====
-- Configurations that copy a stream, and that do not.
use lite_nvr.Common.Text.{folds_to}
use lite_nvr.Bus.Choice.Plans.{encode_needed_iff, Fits}
use lite_nvr.Bus.Choice.{plan_entry, build_mux_plan, encode_needed}
use lite_nvr.Common.{refl, none, some, true, false, [], ◌∷◌, ok, nat_eq, string_eq, ◌≡◌, ◌↔◌}
use lite_nvr.Bus.Types.{
  new_output, default_encode, with_audio, EncodeConfig, AvStream, h264, aac, video, audio, yuv420p,
  file, video_type,
}

abbrev picture : AvStream
picture = record {
  index = 0;
  codec = h264;
  medium = video;
  width = 640;
  height = 480;
  pixel_format = yuv420p;
  sample_rate = 0;
  channels = 0;
}

abbrev sound : AvStream
sound = record picture {
  index = 1;
  codec = aac;
  medium = audio;
  width = 0;
  height = 0;
  sample_rate = 48_000;
  channels = 2;
}

abbrev narrow : EncodeConfig
narrow = record default_encode { width = some 320 }

abbrev capital : EncodeConfig
capital = record default_encode { codec = "AVC"; width = some 640; bitrate = some 1_000 }

run_narrow : encode_needed picture narrow ≡ true
unfolding encode_needed folds_to
run_narrow = refl

run_avc : encode_needed picture capital ≡ false
unfolding encode_needed folds_to
run_avc = refl

run_plan :
    build_mux_plan (picture ∷ sound ∷ []) 0 (with_audio (new_output "x" video_type (file "x.mp4")))
    ≡ ok (plan_entry picture none ∷ plan_entry sound none ∷ [])
unfolding build_mux_plan
run_plan = refl

encode_needed_iff_example : (encode_needed picture capital ≡ false) ↔ Fits picture capital
encode_needed_iff_example = encode_needed_iff picture capital
