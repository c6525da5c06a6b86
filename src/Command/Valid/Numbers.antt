-- ===== src/Command/Valid/Numbers.antt =====
-- src/command.rs: what the parsers of text, keys and numbers return.
use aerugo_cache.Command.Valid.{Parses, Parses-bind, IsText}
use aerugo_cache.Prelude.Words.{i64_max}
use aerugo_cache.Prelude.Int.{ℤ, pos, negsuc}
use aerugo_cache.Text.Utf8.{from_utf8, is_utf8}
use aerugo_cache.Text.Decimal.{parse_unsigned, at_most, u64_max, InI64, as_pos, as_neg}
use aerugo_cache.Text.Decimal
use aerugo_cache.Command.Parse.{
  bytes_to_string, parse_u64, parse_i64, parse_usize, into_keys, or_error,
}
use aerugo_cache.Command.Types.{CommandError}
use aerugo_cache.Prelude.{
  refl, zero, suc, [], ◌∷◌, none, some, inl, inr, arith, List, Bytes, ℕ, ◌≢◌, Bool-cases, All, ◌≡◌,
  Option, ◌≤◌, ◌==◌, ◌^◌,
}

pub bytes_to_string-Parses : (bytes : Bytes) → Parses IsText (bytes_to_string bytes)
unfolding bytes_to_string from_utf8
bytes_to_string-Parses bytes = elim (Bool-cases (is_utf8 bytes)) [
  | inl text ↦ rw text text
  | inr other ↦ rw other tt
]

pub into_keys-Parses : (args : List Bytes) → Parses (All IsText) (into_keys args)
unfolding into_keys
into_keys-Parses [] = tt
into_keys-Parses (arg ∷ args) =
    Parses-bind IsText _ (bytes_to_string arg) _ (bytes_to_string-Parses arg) λ key text.
      Parses-bind (All IsText) _ (into_keys args) _ (into_keys-Parses args)
        λ ks texts. (text, texts)

pub into_keys_some :
    (arg : Bytes) (args : List Bytes)
    → Parses (λ ks. (ks ≢ []) × All IsText ks) (into_keys (arg ∷ args))
unfolding into_keys
into_keys_some arg args =
    Parses-bind IsText _ (bytes_to_string arg) _ (bytes_to_string-Parses arg) λ key text.
      Parses-bind (All IsText) _ (into_keys args) _ (into_keys-Parses args)
        λ ks texts. ((λ e. cc), (text, texts))

pub at_most-le : (max : ℕ) (o : Option ℕ) (n : ℕ) → at_most max o ≡ some n → n ≤ max
at_most-le max none n h = cc
at_most-le max (some m) n h = ground arith

pub parse_unsigned-le : (max : ℕ) (s : Bytes) (n : ℕ) → parse_unsigned max s ≡ some n → n ≤ max
unfolding parse_unsigned
parse_unsigned-le max [] n h = cc
parse_unsigned-le max (c ∷ cs) n h = at_most-le max _ n h

pub or_error-Parses :
    {A : Type 0} (P : A → Type 0) (e : CommandError) (o : Option A)
    → ((a : A) → o ≡ some a → P a)
    → Parses P (or_error e o)
or_error-Parses P e none h = tt
or_error-Parses P e (some a) h = h a refl

pub parse_u64-Parses : (bytes : Bytes) → Parses (λ n. n ≤ u64_max) (parse_u64 bytes)
unfolding parse_u64 Decimal.parse_u64
parse_u64-Parses bytes =
    Parses-bind IsText _ (bytes_to_string bytes) _ (bytes_to_string-Parses bytes)
      λ text _. or_error-Parses _ _ (Decimal.parse_u64 text) (parse_unsigned-le u64_max text)

pub parse_usize-Parses : (bytes : Bytes) → Parses (λ n. n ≤ u64_max) (parse_usize bytes)
unfolding parse_usize Decimal.parse_usize
parse_usize-Parses bytes =
    Parses-bind IsText _ (bytes_to_string bytes) _ (bytes_to_string-Parses bytes)
      λ text _. or_error-Parses _ _ (Decimal.parse_usize text) (parse_unsigned-le u64_max text)

pub as_neg-InI64 : (o : Option ℕ) (z : ℤ) → as_neg (at_most (2 ^ 63) o) ≡ some z → InI64 z
as_neg-InI64 none z h = cc
as_neg-InI64 (some zero) (pos n) h = ground arith
as_neg-InI64 (some zero) (negsuc n) h = ground arith
as_neg-InI64 (some (suc m)) (pos n) h = ground arith
as_neg-InI64 (some (suc m)) (negsuc n) h = ground arith

pub as_pos-InI64 : (s : Bytes) (z : ℤ) → as_pos (parse_unsigned i64_max s) ≡ some z → InI64 z
as_pos-InI64 s (pos n) h = parse_unsigned-le i64_max s n (ground arith)
as_pos-InI64 s (negsuc n) h = ground arith

pub decimal_i64-InI64 : (s : Bytes) (z : ℤ) → Decimal.parse_i64 s ≡ some z → InI64 z
unfolding Decimal.parse_i64
decimal_i64-InI64 [] z h = cc
decimal_i64-InI64 (c ∷ cs) z h = elim (Bool-cases (c == b'-')) [
  | inl minus ↦ as_neg-InI64 (Decimal.parse_digits cs) z (rw minus at h)
  | inr plus ↦ as_pos-InI64 (c ∷ cs) z (rw plus at h)
]

pub parse_i64-Parses : (bytes : Bytes) → Parses InI64 (parse_i64 bytes)
unfolding parse_i64
parse_i64-Parses bytes =
    Parses-bind IsText _ (bytes_to_string bytes) _ (bytes_to_string-Parses bytes)
      λ text _. or_error-Parses _ _ (Decimal.parse_i64 text) (decimal_i64-InI64 text)
