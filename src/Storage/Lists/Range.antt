-- ===== src/Storage/Lists/Range.antt =====
-- src/storage.rs: LRANGE against a description by positions.
use aerugo_cache.Storage.Entry.{list}
use aerugo_cache.Storage.View.{view, get-remove_if_expired_self, view-remove_if_expired}
use aerugo_cache.Storage.Store.{MemoryStore}
use aerugo_cache.Prelude.Clock.{Clock, Time}
use aerugo_cache.Prelude.Words.{i64_max, as_i64_small, as_usize_small}
use aerugo_cache.Storage.Lists.{normalize_range, from_end, slice, clamp_range, lrange}
use aerugo_cache.Prelude.Int.{ℤ, leb_ℤ, pos, ◌-ℤ◌, negsuc, ◌+ℤ◌}
use aerugo_cache.Prelude.{
  refl, zero, suc, [], ◌∷◌, none, some, inl, inr, false, arith, ok, ℕ, Option, Bool, List, Bytes,
  leb, ◌≡◌, if◌then◌else◌, ◌&&◌, ◌<◌, ◌≤◌, ◌+◌, take, length, ◌-◌, drop, Bool-cases, ltb, ◌∙◌, ap,
  sym,
}

-- The elements of a list from position `i` on whose positions pass the test.
pub select_from : ℕ → (ℕ → Bool) → List Bytes → List Bytes
select_from i p [] = []
select_from i p (x ∷ xs) = let rest = select_from (suc i) p xs in if p i then x ∷ rest else rest

-- Position `k` of `len` is not before an index, and not behind one: `-1` is the last position.
abbrev pub not_before : ℕ → ℤ → ℕ → Bool
not_before len (pos a) k = leb a k
not_before len (negsuc n) k = leb len (k + suc n)

abbrev pub not_behind : ℕ → ℤ → ℕ → Bool
not_behind len (pos b) k = leb k b
not_behind len (negsuc n) k = leb (k + suc n) len

-- Position `k` of `len` lies between two indices, both ends included.
abbrev pub between : ℕ → ℤ → ℤ → ℕ → Bool
between len start stop k = not_before len start k && not_behind len stop k

-- Position `k` lies between two integers, both ends included.
abbrev within : ℤ → ℤ → ℕ → Bool
within start stop k = leb_ℤ start (pos k) && leb_ℤ (pos k) stop

abbrev in_range : Option (ℕ × ℕ) → ℕ → Bool
in_range none k = false
in_range (some (a, b)) k = leb a k && leb k b

select_congr :
    (p q : ℕ → Bool) (i : ℕ) (xs : List Bytes)
    → ((k : ℕ) → k < i + length xs → p k ≡ q k)
    → select_from i p xs ≡ select_from i q xs
unfolding select_from
select_congr p q i [] h = refl
select_congr p q i (x ∷ xs) h =
    let now = h i (omega arith) in
    let rest = select_congr p q (suc i) xs (λ k less. h k (omega arith)) in ground arith

select_none : (i : ℕ) (xs : List Bytes) → select_from i (λ k. false) xs ≡ []
unfolding select_from
select_none i [] = refl
select_none i (x ∷ xs) = select_none (suc i) xs

select_past :
    (a b i : ℕ) (xs : List Bytes) → b < i → select_from i (λ k. leb a k && leb k b) xs ≡ []
unfolding select_from
select_past a b i [] h = refl
select_past a b i (x ∷ xs) h = ground (arith, select_past a b (suc i) xs)

select_inside :
    (a b i : ℕ) (xs : List Bytes)
    → a ≤ i
    → i ≤ b
    → select_from i (λ k. leb a k && leb k b) xs ≡ take (suc (b - i)) xs
unfolding select_from
select_inside a b i [] h h' = refl
select_inside a b i (x ∷ xs) h h' = elim (Bool-cases (ltb i b)) [
  | inl more ↦
      let e : b - i ≡ suc (b - suc i) = ground arith in
      rw e (ground (arith, select_inside a b (suc i) xs))
  | inr last ↦ let e : b - i ≡ 0 = ground arith in rw e (ground (arith, select_past a b (suc i) xs))
]

select_slice :
    (a b i d : ℕ) (xs : List Bytes)
    → a ≡ i + d
    → a ≤ b
    → select_from i (λ k. leb a k && leb k b) xs ≡ take (suc (b - a)) (drop d xs)
unfolding select_from
select_slice a b i zero xs h h' =
    let e : a ≡ i = omega arith in rw e (select_inside i b i xs (omega arith) (omega arith))
select_slice a b i (suc d) [] h h' = refl
select_slice a b i (suc d) (x ∷ xs) h h' = ground (arith, select_slice a b (suc i) d xs)

not_before-from_end :
    (len : ℕ) (start : ℤ) (k : ℕ)
    → not_before len start k ≡ leb_ℤ (from_end (pos len) start) (pos k)
unfolding ◌+ℤ◌ ◌-ℤ◌
not_before-from_end len (pos a) k = ground arith
not_before-from_end len (negsuc n) k = ground arith

not_behind-from_end :
    (len : ℕ) (stop : ℤ) (k : ℕ) → not_behind len stop k ≡ leb_ℤ (pos k) (from_end (pos len) stop)
unfolding ◌+ℤ◌ ◌-ℤ◌
not_behind-from_end len (pos b) k = ground arith
not_behind-from_end len (negsuc n) k = ground arith

clamp_within :
    (len : ℕ) (from to : ℤ) (k : ℕ)
    → len ≤ i64_max
    → k < len
    → within from to k ≡ in_range (clamp_range (pos len) from to) k
unfolding clamp_range ◌-ℤ◌
clamp_within len (pos a) (pos b) k h less =
    ground (arith, as_usize_small a, as_usize_small b, as_usize_small (len - 1))
clamp_within len (pos a) (negsuc b) k h less = ground arith
clamp_within len (negsuc a) (pos b) k h less =
    ground (arith, as_usize_small 0, as_usize_small b, as_usize_small (len - 1))
clamp_within len (negsuc a) (negsuc b) k h less = ground arith

normalize_within :
    (len : ℕ) (start stop : ℤ) (k : ℕ)
    → len ≤ i64_max
    → k < len
    → between len start stop k ≡ in_range (normalize_range len start stop) k
unfolding normalize_range
normalize_within len start stop k h less =
    rw (not_before-from_end len start k, not_behind-from_end len stop k, as_i64_small len h)
      (ground (arith, clamp_within len (from_end (pos len) start) (from_end (pos len) stop) k))

range_slice :
    (l : List Bytes) (o : Option (ℕ × ℕ))
    → ((a b : ℕ) → o ≡ some (a, b) → a ≤ b)
    → select_from 0 (in_range o) l ≡ slice l o
range_slice l none ordered = select_none 0 l
range_slice l (some (a, b)) ordered =
    let le = ordered a b refl in
    let e : b - a + 1 ≡ suc (b - a) = omega arith in rw e (select_slice a b 0 a l (omega arith) le)

clamp_ordered :
    (len : ℕ) (from to : ℤ) (a b : ℕ)
    → len ≤ i64_max
    → clamp_range (pos len) from to ≡ some (a, b)
    → a ≤ b
unfolding clamp_range ◌-ℤ◌
clamp_ordered len (pos x) (pos y) a b h e =
    ground (arith, as_usize_small x, as_usize_small y, as_usize_small (len - 1))
clamp_ordered len (pos x) (negsuc y) a b h e = ground arith
clamp_ordered len (negsuc x) (pos y) a b h e =
    ground (arith, as_usize_small 0, as_usize_small y, as_usize_small (len - 1))
clamp_ordered len (negsuc x) (negsuc y) a b h e = ground arith

normalize_ordered :
    (len : ℕ) (start stop : ℤ) (a b : ℕ)
    → len ≤ i64_max
    → normalize_range len start stop ≡ some (a, b)
    → a ≤ b
unfolding normalize_range
normalize_ordered len start stop a b h e =
    let len_eq = as_i64_small len h in
    let e' = rw len_eq at e in
    ground (arith, clamp_ordered len (from_end (pos len) start) (from_end (pos len) stop) a b)

-- LRANGE on a list of at most 2 ^ 63 - 1 elements replies the elements whose positions lie between
-- the two indices, of which -1 is the last position, -2 the one before it and so on, and changes
-- nothing that shows.
pub lrange_lem :
    (clock : Clock) (key : Bytes) (start stop : ℤ) (store : MemoryStore) (l : List Bytes)
    (expires_at : Option Time)
    → length l ≤ i64_max
    → view (clock 0) store.entries key ≡ some (record { value = list l; expires_at = expires_at })
    → ((lrange clock key start stop store).0 ≡ ok (select_from 0 (between (length l) start stop) l))
      × ((j : Bytes)
          → view (clock 0) (lrange clock key start stop store).1.entries j
            ≡ view (clock 0) store.entries j)
unfolding lrange
lrange_lem clock key start stop store l expires_at h shown =
    let row = get-remove_if_expired_self store.entries key (clock 0) ∙ shown in
    let same =
      select_congr (between (length l) start stop)
        (in_range (normalize_range (length l) start stop)) 0 l
        (λ k less. normalize_within (length l) start stop k h (omega arith))
      ∙ range_slice l (normalize_range (length l) start stop)
          (λ a b. normalize_ordered (length l) start stop a b h) in
    (rw row (ap ok (sym same)), λ j. view-remove_if_expired store.entries key j (clock 0))
