-- ===== src/Protocol/Words.antt =====
-- src/protocol/parser.rs: `parse_inline_command` against a description of the words of a line.
use aerugo_cache.Protocol.Parser.{parse_inline_command, split, is_empty, cons_head}
use aerugo_cache.Protocol.Frame.{frames, array, bulk}
use aerugo_cache.Prelude.Ascii.{is_ascii_whitespace}
use aerugo_cache.Prelude.{
  refl, [], ◌∷◌, true, false, arith, ℕ, Bytes, Bool, List, ◌≡◌, ◌++◌, ◌⊎◌, All, map, not, filter_by,
  if◌then◌else◌, ap,
}

-- Space, tab, line feed, form feed, carriage return.
abbrev pub IsBlank : ℕ → Type 0
IsBlank c = (c ≡ 32) ⊎ ((c ≡ 9) ⊎ ((c ≡ 10) ⊎ ((c ≡ 12) ⊎ (c ≡ 13))))

abbrev pub IsInk : ℕ → Type 0
IsInk c = ¬ IsBlank c

-- Behind a word stands a blank, or nothing.
abbrev pub Ends : Bytes → Type 0
Ends [] = Unit
Ends (c ∷ line) = IsBlank c

-- A line is made of blanks and of words, none of which is empty.
pub data Spaced : Bytes → List Bytes → Type 0 where
  no_more : Spaced [] []
  blank :
      (b : ℕ) (line : Bytes) (words : List Bytes)
      → IsBlank b
      → Spaced line words
      → Spaced (b ∷ line) words
  word :
      (b : ℕ) (w line : Bytes) (words : List Bytes)
      → All IsInk (b ∷ w)
      → Ends line
      → Spaced line words
      → Spaced (b ∷ w ++ line) ((b ∷ w) ∷ words)

whitespace-IsBlank : (c : ℕ) → is_ascii_whitespace c ≡ true → IsBlank c
unfolding is_ascii_whitespace
whitespace-IsBlank c h = ground arith

whitespace-IsInk : (c : ℕ) → is_ascii_whitespace c ≡ false → IsInk c
unfolding is_ascii_whitespace
whitespace-IsInk c h = λ blank. ground arith

-- The first piece of a line, and the words of what is behind it.
abbrev Pieces : Bytes → List Bytes → Type 0
Pieces line [] = ⊥
Pieces line (w ∷ ws) =
    (behind : Bytes) × (line ≡ w ++ behind)
    × All IsInk w
    × Ends behind
    × Spaced behind (filter_by (λ arg. not (is_empty arg)) ws)

Pieces-Spaced :
    (line : Bytes) (ws : List Bytes)
    → Pieces line ws
    → Spaced line (filter_by (λ arg. not (is_empty arg)) ws)
unfolding filter_by
Pieces-Spaced line [] h = absurd h
Pieces-Spaced line ([] ∷ ws) (behind, e, ink, ends, others) = rw e others
Pieces-Spaced line ((b ∷ w) ∷ ws) (behind, e, ink, ends, others) =
    rw e (word b w behind _ ink ends others)

cons_head-Pieces :
    (b : ℕ) (line : Bytes) (ws : List Bytes)
    → IsInk b
    → Pieces line ws
    → Pieces (b ∷ line) (cons_head b ws)
cons_head-Pieces b line [] h h' = absurd h'
cons_head-Pieces b line (w ∷ ws) h (behind, e, ink, ends, others) =
    (behind, ap (λ l. b ∷ l) e, (h, ink), ends, others)

next-Pieces :
    (b : ℕ) (line : Bytes) (ws : List Bytes) (gap : Bool)
    → is_ascii_whitespace b ≡ gap
    → Pieces line ws
    → Pieces (b ∷ line) (if gap then [] ∷ ws else cons_head b ws)
next-Pieces b line ws true h p =
    let gap = whitespace-IsBlank b h in
    (b ∷ line, refl, tt, gap, blank b line _ gap (Pieces-Spaced line ws p))
next-Pieces b line ws false h p = cons_head-Pieces b line ws (whitespace-IsInk b h) p

split-Pieces : (line : Bytes) → Pieces line (split is_ascii_whitespace line)
unfolding split
split-Pieces [] = unfold filter_by in ([], refl, tt, tt, no_more)
split-Pieces (b ∷ line) = next-Pieces b line _ _ refl (split-Pieces line)

-- An inline command is the array of the words of its line.
pub parse_inline_command-Spaced :
    (line : Bytes)
    → (words : List Bytes) × Spaced line words
      × (parse_inline_command line ≡ array (frames (map bulk words)))
unfolding parse_inline_command
parse_inline_command-Spaced line = (
  filter_by (λ arg. not (is_empty arg)) (split is_ascii_whitespace line),
  Pieces-Spaced line _ (split-Pieces line),
  refl,
)
