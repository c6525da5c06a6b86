-- ===== src/Text/Lines.antt =====
-- `str::lines` and `str::split_once`, on the bytes of a string.
use aerugo_cache.Text.Utf8.{from_utf8, from_utf8_lem, is_utf8-ascii}
use aerugo_cache.Text.Decimal.{IsDigit}
use aerugo_cache.Prelude.{
  Bytes, bytes_eq, ltb, if◌then◌else◌, ◌==◌, List, ℕ, Bool, All, ◌≡◌, ◌∷◌, Option, true, [], ◌<◌,
  map, ◌++◌, ◌||◌, none, arith, some, ◌&&◌, ap, not, refl, All-append,
}

abbrev cons_first : ℕ → List Bytes → List Bytes
cons_first c [] = (c ∷ []) ∷ []
cons_first c (line ∷ more) = (c ∷ line) ∷ more

-- `split_inclusive('\n')`
unfoldable split_inclusive : Bytes → List Bytes
split_inclusive [] = []
split_inclusive (c ∷ cs) =
    let rest = split_inclusive cs in if c == 10 then (c ∷ []) ∷ rest else cons_first c rest

-- A line without its `\n` or `\r\n`.
unfoldable strip_ending : Bytes → Bytes
strip_ending [] = []
strip_ending (c ∷ cs) =
    let rest = strip_ending cs in
    if bytes_eq (c ∷ cs) (10 ∷ []) || bytes_eq (c ∷ cs) (13 ∷ 10 ∷ []) then [] else c ∷ rest

unfoldable pub lines : Bytes → List Bytes
unfolding split_inclusive strip_ending
lines text = map strip_ending (split_inclusive text)

abbrev after_first : ℕ → Option (Bytes × Bytes) → Option (Bytes × Bytes)
after_first c none = none
after_first c (some (before, after)) = some (c ∷ before, after)

unfoldable pub split_once : ℕ → Bytes → Option (Bytes × Bytes)
split_once separator [] = none
split_once separator (c ∷ cs) =
    let rest = split_once separator cs in
    if c == separator then some ([], cs) else after_first c rest

-- Each line with the ending `\r\n`.
unfoldable pub unlines : List Bytes → Bytes
unlines [] = []
unlines (line ∷ more) = line ++ (13 ∷ 10 ∷ unlines more)

-- ASCII in one line.
unfoldable pub is_plain : Bytes → Bool
is_plain [] = true
is_plain (c ∷ cs) = (ltb c 0x80 && not (c == 10)) && is_plain cs

unfoldable pub are_plain : List Bytes → Bool
are_plain [] = true
are_plain (line ∷ more) = is_plain line && are_plain more

split_inclusive-line :
    (line rest : Bytes)
    → is_plain line ≡ true
    → split_inclusive (line ++ (13 ∷ 10 ∷ rest)) ≡ (line ++ (13 ∷ 10 ∷ [])) ∷ split_inclusive rest
unfolding split_inclusive is_plain
split_inclusive-line [] rest h = refl
split_inclusive-line (c ∷ line) rest h =
    let tail : is_plain line ≡ true = ground arith in
    rw (split_inclusive-line line rest tail) (ground arith)

strip_ending-line :
    (line : Bytes) → is_plain line ≡ true → strip_ending (line ++ (13 ∷ 10 ∷ [])) ≡ line
unfolding strip_ending is_plain bytes_eq
strip_ending-line [] h = refl
strip_ending-line (c ∷ []) h = ground arith
strip_ending-line (c ∷ d ∷ line) h =
    let tail : is_plain (d ∷ line) ≡ true = ground arith in
    rw (strip_ending-line (d ∷ line) tail) (ground arith)

-- Lines of ASCII that end in `\r\n` are read back as they were.
pub lines-unlines : (ls : List Bytes) → are_plain ls ≡ true → lines (unlines ls) ≡ ls
unfolding lines unlines are_plain
lines-unlines [] h = refl
lines-unlines (line ∷ more) h =
    let first : is_plain line ≡ true = ground arith in
    let others : are_plain more ≡ true = ground arith in
    rw (split_inclusive-line line (unlines more) first, strip_ending-line line first)
      (ap (◌∷◌ line) (lines-unlines more others))

abbrev Ascii : Bytes → Type 0
Ascii = All (λ b. b < 0x80)

plain-Ascii : (line : Bytes) → is_plain line ≡ true → Ascii line
unfolding is_plain
plain-Ascii [] h = tt
plain-Ascii (c ∷ line) h = (ground arith, plain-Ascii line (ground arith))

unlines-Ascii : (ls : List Bytes) → are_plain ls ≡ true → Ascii (unlines ls)
unfolding unlines are_plain
unlines-Ascii [] h = tt
unlines-Ascii (line ∷ more) h =
    All-append (λ b. b < 0x80) line (13 ∷ 10 ∷ unlines more) (plain-Ascii line (ground arith))
      (omega arith, (omega arith, unlines-Ascii more (ground arith)))

pub from_utf8-unlines :
    (ls : List Bytes) → are_plain ls ≡ true → from_utf8 (unlines ls) ≡ some (unlines ls)
from_utf8-unlines ls h =
    from_utf8_lem (unlines ls) (is_utf8-ascii (unlines ls) (unlines-Ascii ls h))

-- Digits are ASCII in one line.
pub is_plain-digits : (s : Bytes) → All IsDigit s → is_plain s ≡ true
unfolding is_plain
is_plain-digits [] h = refl
is_plain-digits (c ∷ s) h = let d = h.0 in let rest = is_plain-digits s h.1 in ground arith
