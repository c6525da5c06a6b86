-- ===== src/Storage/Sound/Lists.antt =====
-- src/storage.rs: each operation on lists keeps the entries sound.
use aerugo_cache.Storage.Sound.{
  Sound, NotEmptyList, remove-Sound, finish_write-Sound, remove_if_expired-Sound, insert-Sound,
}
use aerugo_cache.Prelude.Int.{ℤ}
use aerugo_cache.Prelude.Clock.{Clock, Time, later}
use aerugo_cache.Storage.Entry.{string, list, Entries, Value, Entry}
use aerugo_cache.Storage.Lists.{
  lrange, PushSide, PopSide, pop, push_values, push, push_into, put_rest, pop_from, pop_value,
}
use aerugo_cache.Storage.Store.{MemoryStore}
use aerugo_cache.Prelude.{refl, [], ◌∷◌, none, some, Bytes, List, Option, ◌≢◌, ◌++◌}

append-full : (l : List Bytes) (v : Bytes) → NotEmptyList (list (l ++ v ∷ []))
append-full [] v = tt
append-full (x ∷ l) v = tt

push_values-full :
    (side : PushSide) (values l : List Bytes)
    → NotEmptyList (list l)
    → NotEmptyList (list (push_values side values l))
unfolding push_values
push_values-full side [] l h = h
push_values-full PushSide.left (v ∷ values) l h = push_values-full PushSide.left values (v ∷ l) tt
push_values-full PushSide.right (v ∷ values) l h =
    push_values-full PushSide.right values (l ++ v ∷ []) (append-full l v)

push_values-some :
    (side : PushSide) (values l : List Bytes)
    → values ≢ []
    → NotEmptyList (list (push_values side values l))
unfolding push_values
push_values-some side [] l h = absurd (h refl)
push_values-some PushSide.left (v ∷ values) l h = push_values-full PushSide.left values (v ∷ l) tt
push_values-some PushSide.right (v ∷ values) l h =
    push_values-full PushSide.right values (l ++ v ∷ []) (append-full l v)

push_into-Sound :
    (clock : Clock) (key : Bytes) (values : List Bytes) (side : PushSide) (store : MemoryStore)
    (entries : Entries) (expires_at : Option Time) (v : Value)
    → values ≢ []
    → Sound entries
    → Sound (push_into clock key values side store entries expires_at v).1.entries
push_into-Sound clock key values side store entries expires_at (string _) h s = s
push_into-Sound clock key values side store entries expires_at (list l) h s =
    finish_write-Sound _ store entries key _ (later 1 clock) (push_values-some side values l h) s

pub push-Sound :
    (clock : Clock) (key : Bytes) (values : List Bytes) (side : PushSide) (store : MemoryStore)
    → values ≢ []
    → Sound store.entries
    → Sound (push clock key values side store).1.entries
unfolding push
push-Sound clock key values side store h s =
    push_into-Sound clock key values side store _ _ _ h
      (remove_if_expired-Sound store.entries key (clock 0) s)

put_rest-Sound :
    (key : Bytes) (expires_at : Option Time) (rest : List Bytes) (entries : Entries)
    → Sound entries
    → Sound (put_rest key expires_at rest entries)
put_rest-Sound key expires_at [] entries s = remove-Sound key entries s
put_rest-Sound key expires_at (x ∷ xs) entries s = insert-Sound key _ entries tt s

pop_entry-Sound :
    (key : Bytes) (side : PopSide) (entries : Entries) (expires_at : Option Time) (v : Value)
    → Sound entries
    → Sound (pop_from key side entries (some (record { value = v; expires_at = expires_at }))).1
pop_entry-Sound key side entries expires_at (string _) s = s
pop_entry-Sound key side entries expires_at (list l) s =
    put_rest-Sound key expires_at (pop_value side l).1 entries s

pop_from-Sound :
    (key : Bytes) (side : PopSide) (entries : Entries) (o : Option Entry)
    → Sound entries
    → Sound (pop_from key side entries o).1
pop_from-Sound key side entries none s = s
pop_from-Sound key side entries (some e) s = pop_entry-Sound key side entries e.expires_at e.value s

pub pop-Sound :
    (clock : Clock) (key : Bytes) (side : PopSide) (store : MemoryStore)
    → Sound store.entries
    → Sound (pop clock key side store).1.entries
unfolding pop
pop-Sound clock key side store s =
    pop_from-Sound key side _ _ (remove_if_expired-Sound store.entries key (clock 0) s)

pub lrange-Sound :
    (clock : Clock) (key : Bytes) (start stop : ℤ) (store : MemoryStore)
    → Sound store.entries
    → Sound (lrange clock key start stop store).1.entries
unfolding lrange
lrange-Sound clock key start stop store s = remove_if_expired-Sound store.entries key (clock 0) s
