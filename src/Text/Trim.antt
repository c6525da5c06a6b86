-- ===== src/Text/Trim.antt =====
-- `str::trim`: the characters of Unicode's White_Space are taken from both ends of a string.
use mathlib.Core.Path.{subst}
use mathlib.Core.List.{reverse, reverse-reverse, reverse-cons}
use aerugo_cache.Prelude.{
  none, some, zero, suc, [], ◌∷◌, arith, true, false, refl, List, Bytes, ℕ, Option, length, map,
  if◌then◌else◌, ◌<◌, ◌≡◌, ◌==◌, Bool, All, leb, ◌&&◌, ◌||◌, All-append, sym,
}

-- The characters, in UTF-8.
abbrev white_space : List Bytes
white_space =
    (9 ∷ [])
    ∷ (10 ∷ [])
    ∷ (11 ∷ [])
    ∷ (12 ∷ [])
    ∷ (13 ∷ [])
    ∷ (32 ∷ [])
    ∷ (0xC2 ∷ 0x85 ∷ [])
    ∷ (0xC2 ∷ 0xA0 ∷ [])
    ∷ (0xE1 ∷ 0x9A ∷ 0x80 ∷ [])
    ∷ (0xE2 ∷ 0x80 ∷ 0x80 ∷ [])
    ∷ (0xE2 ∷ 0x80 ∷ 0x81 ∷ [])
    ∷ (0xE2 ∷ 0x80 ∷ 0x82 ∷ [])
    ∷ (0xE2 ∷ 0x80 ∷ 0x83 ∷ [])
    ∷ (0xE2 ∷ 0x80 ∷ 0x84 ∷ [])
    ∷ (0xE2 ∷ 0x80 ∷ 0x85 ∷ [])
    ∷ (0xE2 ∷ 0x80 ∷ 0x86 ∷ [])
    ∷ (0xE2 ∷ 0x80 ∷ 0x87 ∷ [])
    ∷ (0xE2 ∷ 0x80 ∷ 0x88 ∷ [])
    ∷ (0xE2 ∷ 0x80 ∷ 0x89 ∷ [])
    ∷ (0xE2 ∷ 0x80 ∷ 0x8A ∷ [])
    ∷ (0xE2 ∷ 0x80 ∷ 0xA8 ∷ [])
    ∷ (0xE2 ∷ 0x80 ∷ 0xA9 ∷ [])
    ∷ (0xE2 ∷ 0x80 ∷ 0xAF ∷ [])
    ∷ (0xE2 ∷ 0x81 ∷ 0x9F ∷ [])
    ∷ (0xE3 ∷ 0x80 ∷ 0x80 ∷ [])
    ∷ []

unfoldable strip_prefix : Bytes → Bytes → Option Bytes
strip_prefix [] s = some s
strip_prefix (p ∷ ps) [] = none
strip_prefix (p ∷ ps) (c ∷ cs) = let rest = strip_prefix ps cs in if p == c then rest else none

abbrev or_else : Option Bytes → Option Bytes → Option Bytes
or_else none o = o
or_else (some a) o = some a

unfoldable strip_any : List Bytes → Bytes → Option Bytes
strip_any [] s = none
strip_any (p ∷ ps) s = or_else (strip_prefix p s) (strip_any ps s)

abbrev trim_rest : Option Bytes → Bytes → (Bytes → Bytes) → Bytes
trim_rest none s go_on = s
trim_rest (some rest) s go_on = go_on rest

-- A string has as many characters as bytes at most: its length is fuel enough.
unfoldable trim_from : List Bytes → ℕ → Bytes → Bytes
trim_from patterns zero s = s
trim_from patterns (suc fuel) s = trim_rest (strip_any patterns s) s (trim_from patterns fuel)

unfoldable trim_start : Bytes → Bytes
trim_start s = trim_from white_space (length s) s

-- From the end, on the reversed string.
unfoldable trim_end : Bytes → Bytes
trim_end s = reverse (trim_from (map reverse white_space) (length s) (reverse s))

unfoldable pub trim : Bytes → Bytes
unfolding trim_start trim_end trim_from strip_any strip_prefix
trim s = trim_end (trim_start s)

-- A printed ASCII character.
abbrev pub IsSolid : ℕ → Type 0
IsSolid c = (32 < c) × (c < 0x80)

-- The pattern begins with a byte that is no printed ASCII character.
unfoldable is_outside : Bytes → Bool
is_outside [] = false
is_outside (p ∷ ps) = leb p 32 || leb 0x80 p

unfoldable are_outside : List Bytes → Bool
are_outside [] = true
are_outside (p ∷ ps) = is_outside p && are_outside ps

strip_prefix-solid :
    (p : Bytes) (c : ℕ) (cs : Bytes)
    → IsSolid c
    → is_outside p ≡ true
    → strip_prefix p (c ∷ cs) ≡ none
unfolding strip_prefix is_outside
strip_prefix-solid [] c cs h o = cc
strip_prefix-solid (p ∷ ps) c cs h o = ground arith

strip_any-solid :
    (ps : List Bytes) (c : ℕ) (cs : Bytes)
    → IsSolid c
    → are_outside ps ≡ true
    → strip_any ps (c ∷ cs) ≡ none
unfolding strip_any are_outside
strip_any-solid [] c cs h o = refl
strip_any-solid (p ∷ ps) c cs h o =
    rw (strip_prefix-solid p c cs h (ground arith), strip_any-solid ps c cs h (ground arith))

strip_any-nil : (ps : List Bytes) → are_outside ps ≡ true → strip_any ps [] ≡ none
unfolding strip_any are_outside strip_prefix is_outside
strip_any-nil [] o = refl
strip_any-nil ([] ∷ ps) o = cc
strip_any-nil ((p ∷ _) ∷ ps) o = rw (strip_any-nil ps (ground arith))

trim_from-suc :
    (ps : List Bytes) (fuel : ℕ) (s : Bytes)
    → trim_from ps (suc fuel) s ≡ trim_rest (strip_any ps s) s (trim_from ps fuel)
unfolding trim_from
trim_from-suc ps fuel s = refl

trim_from-solid :
    (ps : List Bytes) (fuel : ℕ) (s : Bytes)
    → All IsSolid s
    → are_outside ps ≡ true
    → trim_from ps fuel s ≡ s
unfolding trim_from
trim_from-solid ps zero s h o = refl
trim_from-solid ps (suc fuel) [] h o = rw (trim_from-suc ps fuel [], strip_any-nil ps o)
trim_from-solid ps (suc fuel) (c ∷ cs) h o =
    rw (trim_from-suc ps fuel (c ∷ cs), strip_any-solid ps c cs h.0 o)

All-reverse : (s : Bytes) → All IsSolid s → All IsSolid (reverse s)
All-reverse [] h = tt
All-reverse (c ∷ s) h =
    subst (All IsSolid) (sym (reverse-cons c s))
      (All-append IsSolid (reverse s) (c ∷ []) (All-reverse s h.1) (h.0, tt))

-- Printed ASCII characters stay.
pub trim-solid : (s : Bytes) → All IsSolid s → trim s ≡ s
unfolding trim_start trim_end is_outside are_outside trim
trim-solid s h =
    rw
      (
        trim_from-solid white_space (length s) s h refl,
        trim_from-solid (map reverse white_space) (length s) (reverse s) (All-reverse s h) refl,
      )
      (reverse-reverse s)
