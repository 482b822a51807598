-- ===== src/Gb/Ptz.antt =====
-- crates/gb28181/src/ptz.rs: the eight-byte front-end control command.
pub mod Decode
mod Runs
use lite_nvr.Common.{
  ℕ, ◌+◌, ◌*◌, ◌%◌, bit_and, bit_or, Bool, true, false, ◌||◌, List, [], ◌∷◌, ◌++◌, if◌then◌else◌,
  ◌/◌,
}
use lite_nvr.Common.Digits.{hex_digit}

pub record Move : Type 0 where
  pub up : Bool
  pub down : Bool
  pub left : Bool
  pub right : Bool
  pub zoom_in : Bool
  pub zoom_out : Bool
  pub pan_speed : ℕ
  pub tilt_speed : ℕ
  pub zoom_speed : ℕ

-- The numbers are u8.
pub data PtzCommand : Type 0 where
  move : Move → PtzCommand
  preset_set : ℕ → PtzCommand
  preset_call : ℕ → PtzCommand
  preset_delete : ℕ → PtzCommand

pub stop : PtzCommand
stop = move (record {
  up = false;
  down = false;
  left = false;
  right = false;
  zoom_in = false;
  zoom_out = false;
  pan_speed = 0;
  tilt_speed = 0;
  zoom_speed = 0;
})

pub is_motion : PtzCommand → Bool
is_motion (move m) = m.up || (m.down || (m.left || (m.right || (m.zoom_in || m.zoom_out))))
is_motion _ = false

abbrev pub set_if : Bool → ℕ → ℕ → ℕ
set_if b bit c = if b then bit_or c bit else c

-- The command byte of a move: the bits are set one after the other.
pub move_bits : Bool → Bool → Bool → Bool → Bool → Bool → ℕ
move_bits up down left right zoom_in zoom_out = set_if right 0x20 (
    set_if left 0x10
      (set_if up 0x08 (set_if down 0x04 (set_if zoom_in 0x02 (set_if zoom_out 0x01 0)))))

-- The bytes b[3] to b[6].
pub operands : PtzCommand → List ℕ
unfolding move_bits
operands (move m) =
    move_bits m.up m.down m.left m.right m.zoom_in m.zoom_out
    ∷ m.pan_speed
    ∷ m.tilt_speed
    ∷ (bit_and m.zoom_speed 0x0f * 16 % 256)
    ∷ []
operands (preset_set n) = 0x81 ∷ 0 ∷ n ∷ 0 ∷ []
operands (preset_call n) = 0x82 ∷ 0 ∷ n ∷ 0 ∷ []
operands (preset_delete n) = 0x83 ∷ 0 ∷ n ∷ 0 ∷ []

-- `wrapping_add` over the bytes.
pub checksum : ℕ → List ℕ → ℕ
checksum acc [] = acc
checksum acc (x ∷ xs) = checksum ((acc + x) % 256) xs

pub command_bytes : PtzCommand → ℕ → List ℕ
unfolding operands checksum
command_bytes cmd address = let b = 0xa5 ∷ 0x0f ∷ address ∷ operands cmd in b ++ (checksum 0 b ∷ [])

pub hex : List ℕ → List ℕ
hex [] = []
hex (x ∷ xs) = hex_digit (x / 16) ∷ hex_digit (x % 16) ∷ hex xs

pub encode_ptz_cmd : PtzCommand → ℕ → List ℕ
unfolding command_bytes hex
encode_ptz_cmd cmd address = hex (command_bytes cmd address)
