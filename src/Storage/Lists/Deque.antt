-- ===== src/Storage/Lists/Deque.antt =====
-- src/storage.rs: what LPUSH, RPUSH, LPOP and RPOP do to the list.
use aerugo_cache.HashMap.Laws.{get-remove, get-insert}
use aerugo_cache.Storage.Evict.{remove_if_expired}
use aerugo_cache.Storage.Config.{wrong_type, StoreError}
use aerugo_cache.Storage.Write.{WriteOutcome, finish_write-Outcome}
use aerugo_cache.Storage.View.{
  view, get-remove_if_expired_self, view-remove_if_expired, remove_if_expired-IsMap, live,
  get-remove_if_expired,
}
use aerugo_cache.Storage.Store.{MemoryStore}
use aerugo_cache.Storage.Entry.{Entry, list, string, Entries, is_expired}
use aerugo_cache.Prelude.Clock.{Clock, Time, later}
use aerugo_cache.Storage.Lists.{
  pop_value, push_values, pop_back, PushSide, push, PopSide, entry_or_list, pop, put_rest,
}
use aerugo_cache.Prelude.{
  refl, [], ◌∷◌, none, some, false, arith, ok, err, Option, List, Bytes, ◌≡◌, ◌++◌, sym, ◌∙◌,
  append_assoc, append-nil, length, ap, ℕ, if◌then◌else◌, Result, bytes_eq, bytes_eq_refl,
}
use aerugo_cache.HashMap.{IsMap, get}
use mathlib.Core.List.{reverse, reverse-append}

push_values-left :
    (values l : List Bytes) → push_values PushSide.left values l ≡ reverse values ++ l
unfolding push_values
push_values-left [] l = refl
push_values-left (value ∷ values) l =
    push_values-left values (value ∷ l)
    ∙ sym (rw (reverse-append (value ∷ []) values) (append_assoc (reverse values) (value ∷ []) l))

push_values-right : (values l : List Bytes) → push_values PushSide.right values l ≡ l ++ values
unfolding push_values
push_values-right [] l = sym (append-nil l)
push_values-right (value ∷ values) l =
    push_values-right values (l ++ value ∷ []) ∙ append_assoc l (value ∷ []) values

-- The list that a push leaves: LPUSH puts the values in front, the last one first, RPUSH behind.
abbrev pub pushed : PushSide → List Bytes → List Bytes → List Bytes
pushed PushSide.left values l = reverse values ++ l
pushed PushSide.right values l = l ++ values

pub push_values_lem :
    (side : PushSide) (values l : List Bytes) → push_values side values l ≡ pushed side values l
push_values_lem PushSide.left = push_values-left
push_values_lem PushSide.right = push_values-right

pop_back-append : (l : List Bytes) (v : Bytes) → pop_back (l ++ v ∷ []) ≡ (some v, l)
unfolding pop_back
pop_back-append [] v = refl
pop_back-append (x ∷ []) v = refl
pop_back-append (x ∷ y ∷ l) v = rw (pop_back-append (y ∷ l) v)

abbrev pub same_side : PushSide → PopSide
same_side PushSide.left = PopSide.left
same_side PushSide.right = PopSide.right

-- A pop on the side of the last push takes the value that was pushed.
pub pop_value-pushed :
    (side : PushSide) (v : Bytes) (l : List Bytes)
    → pop_value (same_side side) (pushed side (v ∷ []) l) ≡ (some v, l)
unfolding pop_value
pop_value-pushed PushSide.left v l = refl
pop_value-pushed PushSide.right v l = pop_back-append l v

-- A list is a value at its side with the rest, or there is none of the two.
abbrev pub IsTaken : PopSide → List Bytes → Option Bytes → List Bytes → Type 0
IsTaken side l none rest = (l ≡ []) × (rest ≡ [])
IsTaken PopSide.left l (some v) rest = l ≡ v ∷ rest
IsTaken PopSide.right l (some v) rest = l ≡ rest ++ v ∷ []

pop_back-IsTaken : (l : List Bytes) → IsTaken PopSide.right l (pop_back l).0 (pop_back l).1
unfolding pop_back
pop_back-IsTaken [] = (refl, refl)
pop_back-IsTaken (x ∷ []) = refl
pop_back-IsTaken (x ∷ y ∷ l) = behind x y l (pop_back (y ∷ l)) (pop_back-IsTaken (y ∷ l))
  where
    behind :
        (x y : Bytes) (l : List Bytes) (p : Option Bytes × List Bytes)
        → IsTaken PopSide.right (y ∷ l) p.0 p.1
        → IsTaken PopSide.right (x ∷ y ∷ l) p.0 (x ∷ p.1)
    behind x y l (none, rest) (h, h') = cc
    behind x y l (some v, rest) h = ap (λ t. x ∷ t) h

pop_value-IsTaken :
    (side : PopSide) (l : List Bytes) → IsTaken side l (pop_value side l).0 (pop_value side l).1
unfolding pop_value
pop_value-IsTaken PopSide.left [] = (refl, refl)
pop_value-IsTaken PopSide.left (x ∷ l) = refl
pop_value-IsTaken PopSide.right l = pop_back-IsTaken l

-- The row that a push writes, where a list or nothing shows.
abbrev pub pushed_entry : PushSide → List Bytes → List Bytes → Option Time → Entry
pushed_entry side values l expires_at = record {
  value = list (pushed side values l);
  expires_at = expires_at;
}

-- What shows under the key of a push: nothing, the list with its deadline, or a string.
abbrev pub ShowsList : Option Entry → List Bytes → Option Time → Type 0
ShowsList o l expires_at = entry_or_list o ≡ record { value = list l; expires_at = expires_at }

-- A push on a list, or on no key, on entries with unique keys, ends in one of two ways. It stores
-- the longer list, to which LPUSH has put the values in front, the last one first, and RPUSH
-- behind, with the deadline of the old one, within the memory limit, and replies its length. Or it
-- is refused, with every lookup as the lazy expiry of the key left it.
pub push-Outcome :
    (clock : Clock) (key : Bytes) (values : List Bytes) (side : PushSide) (store : MemoryStore)
    (l : List Bytes) (expires_at : Option Time)
    → IsMap store.entries
    → ShowsList (view (clock 0) store.entries key) l expires_at
    → WriteOutcome
        (length (pushed side values l))
        store
        (remove_if_expired store.entries key (clock 0))
        key
        (pushed_entry side values l expires_at)
        (push clock key values side store)
unfolding push
push-Outcome clock key values side store l expires_at h shown =
    let left = remove_if_expired store.entries key (clock 0) in
    let row = ap entry_or_list (get-remove_if_expired_self store.entries key (clock 0)) ∙ shown in
    rw (row, push_values_lem side values l)
      (finish_write-Outcome (length (pushed side values l)) store left key
        (pushed_entry side values l expires_at) (later 1 clock)
        (remove_if_expired-IsMap store.entries key (clock 0) h))

-- A push on a string is refused as of the wrong type, and changes nothing that shows.
pub push-wrong_type :
    (clock : Clock) (key : Bytes) (values : List Bytes) (side : PushSide) (store : MemoryStore)
    (value : Bytes) (expires_at : Option Time)
    → view (clock 0) store.entries key
      ≡ some (record { value = string value; expires_at = expires_at })
    → ((push clock key values side store).0 ≡ err wrong_type)
      × ((j : Bytes)
          → view (clock 0) (push clock key values side store).1.entries j
            ≡ view (clock 0) store.entries j)
unfolding push
push-wrong_type clock key values side store value expires_at shown =
    let row = get-remove_if_expired_self store.entries key (clock 0) ∙ shown in
    (rw row, λ j. rw row (view-remove_if_expired store.entries key j (clock 0)))

-- What is left of a list under its key: nothing, if it is empty.
abbrev pub rest_entry : List Bytes → Option Time → Option Entry
rest_entry [] expires_at = none
rest_entry (x ∷ xs) expires_at = some (record { value = list (x ∷ xs); expires_at = expires_at })

get-put_rest :
    (key j : Bytes) (expires_at : Option Time) (rest : List Bytes) (entries : Entries)
    → get j (put_rest key expires_at rest entries)
      ≡ (if bytes_eq key j then rest_entry rest expires_at else get j entries)
get-put_rest key j expires_at [] entries = get-remove key j entries
get-put_rest key j expires_at (x ∷ xs) entries =
    get-insert key j (record { value = list (x ∷ xs); expires_at = expires_at }) entries

-- The reply and the rows of a pop, by what `pop_value` does.
pub pop-pop_value :
    (clock : Clock) (key : Bytes) (side : PopSide) (store : MemoryStore) (l : List Bytes)
    (expires_at : Option Time)
    → view (clock 0) store.entries key ≡ some (record { value = list l; expires_at = expires_at })
    → ((pop clock key side store).0 ≡ ok (pop_value side l).0)
      × ((j : Bytes)
          → get j (pop clock key side store).1.entries ≡ (
              if bytes_eq key j
              then rest_entry (pop_value side l).1 expires_at
              else get j store.entries))
unfolding pop
pop-pop_value clock key side store l expires_at shown =
    let left = remove_if_expired store.entries key (clock 0) in
    let row = get-remove_if_expired_self store.entries key (clock 0) ∙ shown in
    (
      rw row,
      (λ j.
          rw (row, get-put_rest key j expires_at (pop_value side l).1 left)
            (ground (arith, get-remove_if_expired store.entries key j (clock 0)))),
    )

-- A pop on a list that shows replies the value at its side, or none if the list is empty. It
-- removes the key with its last value, keeps what is left of the list with its deadline otherwise,
-- and leaves every other row.
pub pop_lem :
    (clock : Clock) (key : Bytes) (side : PopSide) (store : MemoryStore) (l : List Bytes)
    (expires_at : Option Time)
    → view (clock 0) store.entries key ≡ some (record { value = list l; expires_at = expires_at })
    → (taken : Option Bytes) × (rest : List Bytes) × IsTaken side l taken rest
      × ((pop clock key side store).0 ≡ ok taken)
      × ((j : Bytes)
          → get j (pop clock key side store).1.entries
            ≡ (if bytes_eq key j then rest_entry rest expires_at else get j store.entries))
pop_lem clock key side store l expires_at shown = (
  (pop_value side l).0,
  (pop_value side l).1,
  pop_value-IsTaken side l,
  (pop-pop_value clock key side store l expires_at shown).0,
  (pop-pop_value clock key side store l expires_at shown).1,
)

WriteOutcome-stored :
    (n m : ℕ) (before after : MemoryStore) (live : Entries) (key : Bytes) (e : Entry)
    (r : Result StoreError ℕ × MemoryStore)
    → WriteOutcome n before live key e r
    → r ≡ (ok m, after)
    → (m ≡ n) × (get key after.entries ≡ some e)
WriteOutcome-stored n m before after live key e (ok k, store) o same = ground arith
WriteOutcome-stored n m before after live key e (err x, store) o same = cc

-- On entries with unique keys, where a list or nothing shows: after a push of one value that was
-- accepted, and a pop on the same side before the deadline, the reply of the push is the new
-- length, the pop replies the value, and the list is what it was before.
pub pop-push :
    (c d : Clock) (key v : Bytes) (side : PushSide) (store after : MemoryStore) (n : ℕ)
    (l : List Bytes) (expires_at : Option Time)
    → IsMap store.entries
    → ShowsList (view (c 0) store.entries key) l expires_at
    → push c key (v ∷ []) side store ≡ (ok n, after)
    → is_expired (pushed_entry side (v ∷ []) l expires_at) (d 0) ≡ false
    → (n ≡ length (pushed side (v ∷ []) l))
      × ((pop d key (same_side side) after).0 ≡ ok (some v))
      × (get key (pop d key (same_side side) after).1.entries ≡ rest_entry l expires_at)
unfolding view live
pop-push c d key v side store after n l expires_at h shown done fresh =
    let (len, stored) =
      WriteOutcome-stored (length (pushed side (v ∷ []) l)) n store after
        (remove_if_expired store.entries key (c 0)) key (pushed_entry side (v ∷ []) l expires_at)
        (push c key (v ∷ []) side store)
        (push-Outcome c key (v ∷ []) side store l expires_at h shown) done in
    let (reply, rows) =
      pop-pop_value d key (same_side side) after (pushed side (v ∷ []) l) expires_at
        (rw (stored, fresh)) in
    let back = pop_value-pushed side v l in
    (len, reply ∙ rw back, rows key ∙ rw (bytes_eq_refl, back))
