-- ===== src/Gb/Ssrc.antt =====
-- crates/gb28181/src/gbcode.rs: codes as bytes, and the generator of SSRC values.
pub mod Unique
mod Runs
use lite_nvr.Common.{
  ℕ, ◌+◌, ◌*◌, ◌%◌, Bool, true, false, Option, none, some, List, [], ◌∷◌, ◌++◌, ◌==◌, nat_eq, ◌&&◌,
  if◌then◌else◌, length, take, drop,
}
use lite_nvr.Common.Digits.{all_digits, parse_u32, four_digits}

-- The bytes of the string.
abbrev pub GbCode : Type 0
GbCode = List ℕ

pub record GbCodeParts : Type 0 where
  pub region : List ℕ
  pub industry : List ℕ
  pub type_code : List ℕ
  pub sequence : List ℕ

pub parse : GbCode → Option GbCodeParts
parse s =
    if length s == 20 && all_digits s
    then some (record {
      region = take 8 s;
      industry = take 2 (drop 8 s);
      type_code = take 3 (drop 10 s);
      sequence = take 7 (drop 13 s);
    })
    else none

-- `seq` is an AtomicU16.
pub record SsrcGenerator : Type 0 where
  pub domain5 : List ℕ
  pub seq : ℕ

pub data SsrcKind : Type 0 where
  live : SsrcKind
  playback : SsrcKind

-- `get(3..8)` fails beyond the end, and also inside a character, where the five bytes are not all
-- digits either.
pub new : List ℕ → SsrcGenerator
new platform_id =
    let part = take 5 (drop 3 platform_id) in
    record {
      domain5 =
          if length part == 5 && all_digits part
          then part
          else b'0' ∷ b'0' ∷ b'0' ∷ b'0' ∷ b'0' ∷ [];
      seq = 1;
    }

abbrev pub head_digit : SsrcKind → ℕ
head_digit live = b'0'
head_digit playback = b'1'

-- `none` stands for the panic of `expect`. `fetch_add` wraps, and gives the former value.
pub next : SsrcGenerator → SsrcKind → Option ((ℕ × List ℕ) × SsrcGenerator)
next g kind =
    let s = head_digit kind ∷ (g.domain5 ++ four_digits (g.seq % 10000)) in
    elim (parse_u32 s) [
      | none ↦ none
      | some n ↦ some ((n, s), record g { seq = (g.seq + 1) % 0x1_0000 })
    ]
