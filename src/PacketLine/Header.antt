-- ===== src/PacketLine/Header.antt =====
-- The four digits of a header, written and read.
use tit.Prelude.{ℕ, ◌/◌, ◌%◌, ◌≡◌, ◌<◌, refl, true, arith, all}
use tit.Codec.{hex_digit}
use tit.PacketLine.{header_of, is_ascii_hexdigit, digit_value, from_radix}

is_ascii_hexdigit-hex_digit : (d : ℕ) → d < 16 → is_ascii_hexdigit (hex_digit d) ≡ true
is_ascii_hexdigit-hex_digit d h = ground arith

digit_value-hex_digit : (d : ℕ) → d < 16 → digit_value (hex_digit d) ≡ d
digit_value-hex_digit d h = ground arith

module _ (n : ℕ) where
  pub all-header_of : all is_ascii_hexdigit (header_of n) ≡ true
  all-header_of =
      rw
        (
          is_ascii_hexdigit-hex_digit (n / 4096 % 16) (omega arith),
          is_ascii_hexdigit-hex_digit (n / 256 % 16) (omega arith),
          is_ascii_hexdigit-hex_digit (n / 16 % 16) (omega arith),
          is_ascii_hexdigit-hex_digit (n % 16) (omega arith),
        )
        refl

  pub from_radix-header_of : n < 65536 → from_radix 0 (header_of n) ≡ n
  from_radix-header_of h =
      rw
        (
          digit_value-hex_digit (n / 4096 % 16) (omega arith),
          digit_value-hex_digit (n / 256 % 16) (omega arith),
          digit_value-hex_digit (n / 16 % 16) (omega arith),
          digit_value-hex_digit (n % 16) (omega arith),
        )
        (omega (arith, h))
