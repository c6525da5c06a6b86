-- ===== src/Text/Utf8.antt =====
-- `str::from_utf8`: the well-formed byte sequences of UTF-8. A Rust `String` is the list of its bytes.
use aerugo_cache.Prelude.{
  refl, [], ◌∷◌, none, some, true, false, arith, Bytes, ℕ, ◌≡◌, Bool, Option, All, ◌<◌, ◌==◌, leb,
  if◌then◌else◌, ◌-◌, ltb, ◌&&◌,
}

-- How many continuation bytes are due, and the range of the next one.
pub record Expected : Type 0 where
  pub due : ℕ
  pub low : ℕ
  pub high : ℕ

abbrev next_char : Expected
next_char = record { due = 0; low = 0x80; high = 0xBF }

abbrev expect : ℕ → ℕ → ℕ → Option Expected
expect due low high = some (record { due = due; low = low; high = high })

abbrev between : ℕ → ℕ → ℕ → Bool
between low high b = leb low b && leb b high

-- The first byte of a character.
lead : ℕ → Option Expected
lead b =
    if ltb b 0x80
    then some next_char
    else if between 0xC2 0xDF b
    then expect 1 0x80 0xBF
    else if b == 0xE0
    then expect 2 0xA0 0xBF
    else if b == 0xED
    then expect 2 0x80 0x9F
    else if between 0xE1 0xEF b
    then expect 2 0x80 0xBF
    else if b == 0xF0
    then expect 3 0x90 0xBF
    else if between 0xF1 0xF3 b
    then expect 3 0x80 0xBF
    else if b == 0xF4
    then expect 3 0x80 0x8F
    else none

utf8_step : Expected → ℕ → Option Expected
utf8_step s b =
    if s.due == 0
    then lead b
    else if between s.low s.high b
    then expect (s.due - 1) 0x80 0xBF
    else none

utf8_from : Expected → Bytes → Bool
utf8_from s [] = s.due == 0
utf8_from s (b ∷ bs) = elim (utf8_step s b) [ none ↦ false | some s' ↦ utf8_from s' bs ]

unfoldable pub is_utf8 : Bytes → Bool
unfolding utf8_from utf8_step lead
is_utf8 bytes = utf8_from next_char bytes

unfoldable pub from_utf8 : Bytes → Option Bytes
unfolding is_utf8
from_utf8 bytes = if is_utf8 bytes then some bytes else none

utf8_from-ascii : (bytes : Bytes) → All (λ b. b < 0x80) bytes → utf8_from next_char bytes ≡ true
unfolding utf8_from utf8_step lead
utf8_from-ascii [] h = refl
utf8_from-ascii (b ∷ bs) h = ground (arith, utf8_from-ascii bs)

-- ASCII is UTF-8.
pub is_utf8-ascii : (bytes : Bytes) → All (λ b. b < 0x80) bytes → is_utf8 bytes ≡ true
unfolding is_utf8
is_utf8-ascii = utf8_from-ascii

pub from_utf8_lem : (bytes : Bytes) → is_utf8 bytes ≡ true → from_utf8 bytes ≡ some bytes
unfolding from_utf8
from_utf8_lem bytes h = rw h
