-- ===== src/Storage/View.antt =====
-- What a client can see of the entries at a time: those that have not expired. Lazy expiry removes
-- only what it does not show.
use aerugo_cache.HashMap.Laws.{remove-IsMap, get-retain, get-remove}
use aerugo_cache.Storage.Evict.{remove_if_expired}
use aerugo_cache.Storage.Store.{retain_live}
use aerugo_cache.Storage.Entry.{Entries, Entry, is_expired}
use aerugo_cache.Prelude.Clock.{Time}
use aerugo_cache.Prelude.{
  none, some, arith, Bytes, Option, ◌≡◌, if◌then◌else◌, bytes_eq_refl, not, bytes_eq, bytes_eq_iff,
}
use aerugo_cache.HashMap.{IsMap, get}

unfoldable pub live : Time → Option Entry → Option Entry
live now none = none
live now (some e) = if is_expired e now then none else some e

unfoldable pub view : Time → Entries → Bytes → Option Entry
view now entries key = live now (get key entries)

pub get-remove_if_expired :
    (entries : Entries) (k j : Bytes) (now : Time)
    → get j (remove_if_expired entries k now)
      ≡ (if bytes_eq k j then view now entries j else get j entries)
unfolding remove_if_expired view live
get-remove_if_expired entries k j now = ground (arith, get-remove k j entries, bytes_eq_iff k j)

pub get-remove_if_expired_self :
    (entries : Entries) (k : Bytes) (now : Time)
    → get k (remove_if_expired entries k now) ≡ view now entries k
get-remove_if_expired_self entries k now = simp (get-remove_if_expired, bytes_eq_refl)

pub live-live : (now : Time) (o : Option Entry) → live now (live now o) ≡ live now o
unfolding live
live-live now o = ground arith

-- Lazy expiry shows nowhere.
pub view-remove_if_expired :
    (entries : Entries) (k j : Bytes) (now : Time)
    → view now (remove_if_expired entries k now) j ≡ view now entries j
unfolding view
view-remove_if_expired entries k j now =
    rw get-remove_if_expired (ground (arith, live-live now (get j entries)))

pub remove_if_expired-IsMap :
    (entries : Entries) (k : Bytes) (now : Time)
    → IsMap entries
    → IsMap (remove_if_expired entries k now)
unfolding remove_if_expired
remove_if_expired-IsMap entries k now h = ground (arith, remove-IsMap k entries h)

-- On entries with unique keys the sweep leaves exactly what shows.
pub get-retain_live :
    (now : Time) (entries : Entries) (j : Bytes)
    → IsMap entries
    → get j (retain_live now entries) ≡ view now entries j
unfolding retain_live view live
get-retain_live now entries j h =
    ground (arith, get-retain (λ e. not (is_expired e now)) j entries h)
