-- ===== src/Common/Bytes.antt =====
-- Bytes are numbers below 256; the big- and little-endian layouts of u16 and u32.
use lite_nvr.Common.Lists.{All}
use Prim.Native.Nat.{ℕ, ◌+◌, ◌*◌, ◌/◌, ◌%◌, ◌^◌, ◌<◌}
use mathlib.Core.Path.{◌≡◌}
use mathlib.Core.List.{List, [], ◌∷◌}
use native.Mathlib.Omega.{arith}

abbrev pub IsByte : ℕ → Type 0
IsByte b = b < 256

abbrev pub be16 : ℕ → List ℕ
be16 n = (n / 256 % 256) ∷ (n % 256) ∷ []

abbrev pub be32 : ℕ → List ℕ
be32 n = (n / 2 ^ 24 % 256) ∷ (n / 2 ^ 16 % 256) ∷ (n / 2 ^ 8 % 256) ∷ (n % 256) ∷ []

abbrev pub from_be16 : ℕ → ℕ → ℕ
from_be16 a b = a * 256 + b

abbrev pub from_be32 : ℕ → ℕ → ℕ → ℕ → ℕ
from_be32 a b c d = a * 2 ^ 24 + b * 2 ^ 16 + c * 2 ^ 8 + d

abbrev pub from_le32 : ℕ → ℕ → ℕ → ℕ → ℕ
from_le32 a b c d = from_be32 d c b a

pub from_be32_lt :
    (a b c d : ℕ) → IsByte a → IsByte b → IsByte c → IsByte d → from_be32 a b c d < 2 ^ 32
from_be32_lt a b c d p q r s = omega arith

pub from_be32-be32 :
    (n : ℕ)
    → n < 2 ^ 32
    → from_be32 (n / 2 ^ 24 % 256) (n / 2 ^ 16 % 256) (n / 2 ^ 8 % 256) (n % 256) ≡ n
from_be32-be32 n h = omega arith

module _ (a b c d : ℕ) (p : IsByte a) (q : IsByte b) (r : IsByte c) (s : IsByte d) where
  first_byte : from_be32 a b c d / 2 ^ 24 % 256 ≡ a
  first_byte = omega arith

  second_byte : from_be32 a b c d / 2 ^ 16 % 256 ≡ b
  second_byte = omega arith

  third_byte : from_be32 a b c d / 2 ^ 8 % 256 ≡ c
  third_byte = omega arith

  last_byte : from_be32 a b c d % 256 ≡ d
  last_byte = omega arith

  pub be32-from_be32 : be32 (from_be32 a b c d) ≡ a ∷ b ∷ c ∷ d ∷ []
  be32-from_be32 = rw (first_byte, second_byte, third_byte, last_byte)

pub be32-IsByte : (n : ℕ) → All IsByte (be32 n)
be32-IsByte n = omega arith
