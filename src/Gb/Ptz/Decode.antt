-- ===== src/Gb/Ptz/Decode.antt =====
-- What a device makes of the command, from the table of bytes at the head of ptz.rs.
use lite_nvr.Common.{
  ℕ, ◌+◌, ◌*◌, ◌/◌, ◌%◌, ◌^◌, ◌<◌, ◌≡◌, refl, ap, ◌∙◌, Bool, true, ◌&&◌, Option, none, some, List,
  [], ◌∷◌, ◌++◌, arith, ltb, ◌==◌, nat_eq, nat_beq_iff, if◌then◌else◌, bit_and, length, All,
}
use lite_nvr.Common.Digits.{hex_value, hex_value-hex_digit, passes_below, passes_below_at}
use lite_nvr.Gb.Ptz.{
  Move, PtzCommand, move, preset_set, preset_call, preset_delete, move_bits, operands, checksum,
  command_bytes, hex, encode_ptz_cmd,
}

-- Pairs of hexadecimal digits.
pub unhex : List ℕ → Option (List ℕ)
unhex [] = some []
unhex (a ∷ []) = none
unhex (a ∷ b ∷ r) = elim (hex_value a) [
  | none ↦ none
  | some x ↦ elim (hex_value b) [
    | none ↦ none
    | some y ↦ elim (unhex r) [ none ↦ none | some bs ↦ some ((x * 16 + y) ∷ bs) ]
  ]
]

-- Bit `k` of a byte.
abbrev pub bit : ℕ → ℕ → Bool
bit k b = b / 2 ^ k % 2 == 1

-- The command of the bytes B3 to B6; `none` for an opcode that the table does not have.
pub decode_operands : ℕ → ℕ → ℕ → ℕ → Option PtzCommand
decode_operands b3 b4 b5 b6 =
    if ltb b3 0x40
    then some (
        move (record {
          up = bit 3 b3;
          down = bit 2 b3;
          left = bit 4 b3;
          right = bit 5 b3;
          zoom_in = bit 1 b3;
          zoom_out = bit 0 b3;
          pan_speed = b4;
          tilt_speed = b5;
          zoom_speed = b6 / 16;
        }))
    else if b3 == 0x81
    then some (preset_set b5)
    else if b3 == 0x82
    then some (preset_call b5)
    else if b3 == 0x83
    then some (preset_delete b5)
    else none

-- The address and the command of a command string, if its two leading bytes and its checksum hold.
pub decode_bytes : List ℕ → Option (ℕ × PtzCommand)
unfolding decode_operands
decode_bytes (b0 ∷ b1 ∷ b2 ∷ b3 ∷ b4 ∷ b5 ∷ b6 ∷ b7 ∷ []) =
    if b0 == 0xa5 && (b1 == 0x0f && b7 == (b0 + b1 + b2 + b3 + b4 + b5 + b6) % 256)
    then elim (decode_operands b3 b4 b5 b6) [ none ↦ none | some c ↦ some (b2, c) ]
    else none
decode_bytes _ = none

pub decode_ptz_cmd : List ℕ → Option (ℕ × PtzCommand)
unfolding unhex decode_bytes
decode_ptz_cmd s = elim (unhex s) [ none ↦ none | some bs ↦ decode_bytes bs ]

-- Speeds and preset numbers are bytes, and the zoom speed has four bits.
abbrev pub IsEncodable : PtzCommand → Type 0
IsEncodable (move m) = (m.pan_speed < 256) × (m.tilt_speed < 256) × (m.zoom_speed < 16)
IsEncodable (preset_set n) = n < 256
IsEncodable (preset_call n) = n < 256
IsEncodable (preset_delete n) = n < 256

unhex-hex : (bs : List ℕ) → All (λ b. b < 256) bs → unhex (hex bs) ≡ some bs
unfolding unhex hex
unhex-hex [] h = refl
unhex-hex (b ∷ bs) h = ground (
  arith,
  hex_value-hex_digit (b / 16) (omega arith),
  hex_value-hex_digit (b % 16) (omega arith),
  unhex-hex bs h.1,
)

abbrev BitsBack : Bool → Bool → Bool → Bool → Bool → Bool → Type 0
BitsBack u d l r i o =
    let c = move_bits u d l r i o in
    (ltb c 0x40 ≡ true)
    × (bit 3 c ≡ u)
    × (bit 2 c ≡ d)
    × (bit 4 c ≡ l)
    × (bit 5 c ≡ r)
    × (bit 1 c ≡ i)
    × (bit 0 c ≡ o)

move_bits-BitsBack : (u d l r i o : Bool) → BitsBack u d l r i o
unfolding move_bits
move_bits-BitsBack u d l r i o = ground arith

zoom_nibble_table : passes_below 16 (λ z. bit_and z 0x0f * 16 % 256 / 16 == z) ≡ true
unfolding passes_below
zoom_nibble_table = refl

zoom_nibble : (z : ℕ) → z < 16 → bit_and z 0x0f * 16 % 256 / 16 ≡ z
zoom_nibble z h =
    (nat_beq_iff _ z).0
      (passes_below_at 16 (λ z. bit_and z 0x0f * 16 % 256 / 16 == z) z zoom_nibble_table h)

module _ (c z : ℕ) (m : Move) where
  move_back :
      ltb c 0x40 ≡ true
      → bit 3 c ≡ m.up
      → bit 2 c ≡ m.down
      → bit 4 c ≡ m.left
      → bit 5 c ≡ m.right
      → bit 1 c ≡ m.zoom_in
      → bit 0 c ≡ m.zoom_out
      → z / 16 ≡ m.zoom_speed
      → decode_operands c m.pan_speed m.tilt_speed z ≡ some (move m)
  unfolding decode_operands
  move_back low u d l r i o s = rw low (λ k. some (
      move (record m {
        up = u k;
        down = d k;
        left = l k;
        right = r k;
        zoom_in = i k;
        zoom_out = o k;
        zoom_speed = s k;
      })))

below_byte : (c : ℕ) → ltb c 0x40 ≡ true → c < 256
below_byte c h = ground arith

operands_back :
    (cmd : PtzCommand)
    → IsEncodable cmd
    → (b3 b4 b5 b6 : ℕ) × (operands cmd ≡ b3 ∷ b4 ∷ b5 ∷ b6 ∷ [])
      × (b3 < 256)
      × (b4 < 256)
      × (b5 < 256)
      × (b6 < 256)
      × (decode_operands b3 b4 b5 b6 ≡ some cmd)
unfolding operands decode_operands
operands_back (move m) h =
    let c = move_bits m.up m.down m.left m.right m.zoom_in m.zoom_out in
    let back = move_bits-BitsBack m.up m.down m.left m.right m.zoom_in m.zoom_out in
    (
      c,
      m.pan_speed,
      m.tilt_speed,
      bit_and m.zoom_speed 0x0f * 16 % 256,
      refl,
      below_byte c back.0,
      h.0,
      h.1,
      omega arith,
      move_back c (bit_and m.zoom_speed 0x0f * 16 % 256) m back.0 back.1 back.2 back.3 back.4 back.5
          back.6 (zoom_nibble m.zoom_speed h.2),
    )
operands_back (preset_set n) h =
    (0x81, 0, n, 0, refl, omega arith, omega arith, h, omega arith, refl)
operands_back (preset_call n) h =
    (0x82, 0, n, 0, refl, omega arith, omega arith, h, omega arith, refl)
operands_back (preset_delete n) h =
    (0x83, 0, n, 0, refl, omega arith, omega arith, h, omega arith, refl)

checksum-sum :
    (a b c d e f g : ℕ)
    → checksum 0 (a ∷ b ∷ c ∷ d ∷ e ∷ f ∷ g ∷ []) ≡ (a + b + c + d + e + f + g) % 256
unfolding checksum
checksum-sum a b c d e f g = omega arith

decoded :
    (address b3 b4 b5 b6 sum : ℕ) (cmd : PtzCommand)
    → sum ≡ (0xa5 + 0x0f + address + b3 + b4 + b5 + b6) % 256
    → decode_operands b3 b4 b5 b6 ≡ some cmd
    → decode_bytes (0xa5 ∷ 0x0f ∷ address ∷ b3 ∷ b4 ∷ b5 ∷ b6 ∷ sum ∷ []) ≡ some (address, cmd)
unfolding decode_bytes
decoded address b3 b4 b5 b6 sum cmd e d = rw d (ground arith)

length-hex : (bs : List ℕ) → length (hex bs) ≡ 2 * length bs
unfolding hex
length-hex [] = refl
length-hex (b ∷ bs) = omega (arith, length-hex bs)

abbrev summed : ℕ → List ℕ → List ℕ
summed address ops = let b = 0xa5 ∷ 0x0f ∷ address ∷ ops in b ++ (checksum 0 b ∷ [])

decode-hex :
    (bs : List ℕ) {a : ℕ} {cmd : PtzCommand}
    → All (λ b. b < 256) bs
    → decode_bytes bs ≡ some (a, cmd)
    → decode_ptz_cmd (hex bs) ≡ some (a, cmd)
unfolding decode_ptz_cmd
decode-hex bs h e = ap (λ o. elim o [ none ↦ none | some b ↦ decode_bytes b ]) (unhex-hex bs h) ∙ e

-- A device reads back the address and the command that were encoded, from a string of sixteen
-- digits, if the address, the speeds and the preset number are bytes and the zoom speed has four
-- bits.
pub decode-encode_ptz_cmd :
    (cmd : PtzCommand) (address : ℕ)
    → IsEncodable cmd
    → address < 256
    → (decode_ptz_cmd (encode_ptz_cmd cmd address) ≡ some (address, cmd))
      × (length (encode_ptz_cmd cmd address) ≡ 16)
unfolding encode_ptz_cmd command_bytes
decode-encode_ptz_cmd cmd address h a =
    let (b3, b4, b5, b6, e, p, q, r, s, d) = operands_back cmd h in
    let sum = checksum 0 (0xa5 ∷ 0x0f ∷ address ∷ b3 ∷ b4 ∷ b5 ∷ b6 ∷ []) in
    let bs : List ℕ = 0xa5 ∷ 0x0f ∷ address ∷ b3 ∷ b4 ∷ b5 ∷ b6 ∷ sum ∷ [] in
    let total = checksum-sum 0xa5 0x0f address b3 b4 b5 b6 in
    let whole = ap (summed address) e in
    (
      ap (λ b. decode_ptz_cmd (hex b)) whole
          ∙ decode-hex bs (omega (arith, total)) (decoded address b3 b4 b5 b6 sum cmd total d),
      ap (λ b. length (hex b)) whole ∙ length-hex bs,
    )
