-- ===== src/Gb/Ptz/Runs.antt =====
-- Commands at concrete values, and what the encoder gives on the examples of ptz.rs.
use lite_nvr.Gb.Ptz.Decode.{decode-encode_ptz_cmd, decode_ptz_cmd}
use lite_nvr.Common.{length, ◌≡◌, true, false, some, arith}
use lite_nvr.Gb.Ptz.{PtzCommand, move, encode_ptz_cmd}

abbrev tilt_right : PtzCommand
tilt_right = move (record {
  up = true;
  down = false;
  left = false;
  right = true;
  zoom_in = false;
  zoom_out = false;
  pan_speed = 100;
  tilt_speed = 80;
  zoom_speed = 5;
})

decode-encode_ptz_cmd_example :
    (decode_ptz_cmd (encode_ptz_cmd tilt_right 1) ≡ some (1, tilt_right))
    × (length (encode_ptz_cmd tilt_right 1) ≡ 16)
decode-encode_ptz_cmd_example =
    decode-encode_ptz_cmd tilt_right 1 (omega arith, omega arith, omega arith) (omega arith)
