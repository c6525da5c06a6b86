-- ===== src/Prelude/Ascii.antt =====
-- ASCII text as bytes: literals, letter case, white space.
use Prim.Native.Nat.{ℕ, ◌+◌, ◌-◌}
use Prim.Native.Char.{code}
use Prim.Native.String.{String}
use mathlib.Core.Bool.{Bool, ◌&&◌, ◌||◌}
use mathlib.Core.List.{[], ◌∷◌, map}
use aerugo_cache.Prelude.Tests.{leb, ◌==◌, if◌then◌else◌}
use aerugo_cache.Prelude.ByteStrings.{Bytes}

-- The bytes of an ASCII literal.
abbrev pub codes : String → Bytes
codes String.[] = []
codes (String.◌∷◌ c s) = code c ∷ codes s

unfoldable pub to_lower : ℕ → ℕ
to_lower c = if leb b'A' c && leb c b'Z' then c + 32 else c

unfoldable pub to_upper : ℕ → ℕ
to_upper c = if leb b'a' c && leb c b'z' then c - 32 else c

-- `str::to_ascii_lowercase` and `str::to_ascii_uppercase`.
unfoldable pub to_ascii_lowercase : Bytes → Bytes
to_ascii_lowercase = map to_lower

unfoldable pub to_ascii_uppercase : Bytes → Bytes
to_ascii_uppercase = map to_upper

-- `u8::is_ascii_whitespace`: space, tab, line feed, form feed, carriage return.
unfoldable pub is_ascii_whitespace : ℕ → Bool
is_ascii_whitespace c = c == 32 || (c == 9 || (c == 10 || (c == 12 || c == 13)))
