-- ===== src/Server/Start.antt =====
-- src/server.rs: how `run` starts, up to the socket.
use aerugo_cache.Protocol.Torn.{IsTorn}
use aerugo_cache.Protocol.Torn.Requests.{bulks}
use mathlib.Core.Option.{get_or}
use aerugo_cache.Aof.Torn.{replay-torn}
use aerugo_cache.Protocol.Encoder.{write_frame, write_items}
use aerugo_cache.Storage.Store.{with_config}
use aerugo_cache.Protocol.RoundTrip.{AllReadable, IsReadable}
use aerugo_cache.Server.{Server}
use aerugo_cache.Aof.{Replayed, replay}
use aerugo_cache.Storage.Config.{StoreConfig}
use aerugo_cache.Prelude.Clock.{Clock}
use aerugo_cache.Protocol.Parser.{ReadError}
use aerugo_cache.Protocol.Frame.{array, Frames}
use aerugo_cache.Prelude.{
  [], none, some, ok, err, true, false, ℕ, Bool, Option, Bytes, Result, List, ◌≢◌, ◌++◌, ◌≡◌,
}

pub data StartError : Type 0 where
  unreadable : ReadError → StartError
  not_opened : StartError

-- `Aof::open` creates a file that is missing.
abbrev pub opened : Bool → Option Bytes → Replayed → Result StartError Server
opened opens file (err e, store) = err (unreadable e)
opened false file (ok replayed, store) = err not_opened
opened true file (ok replayed, store) = ok (record { store = store; aof = some (get_or file []) })

-- The append-only file, if there is to be one: what the path holds, and whether it can be opened.
unfoldable pub start :
    ℕ → (ℕ → Clock) → StoreConfig → Option (Option Bytes × Bool) → Result StartError Server
start frame_size clocks config none = ok (record { store = with_config config; aof = none })
start frame_size clocks config (some (file, opens)) =
    opened opens file (replay frame_size clocks file (with_config config))

-- A server does not start on a file that ends in a part of the frame of a command, as a crash during an
-- append leaves it, behind whole frames that can be read.
pub start-torn :
    (size : ℕ) (clocks : ℕ → Clock) (config : StoreConfig) (opens : Bool) (xs : Frames)
    (args : List Bytes) (p : Bytes)
    → AllReadable size xs
    → IsReadable size (array (bulks args))
    → args ≢ []
    → p ≢ []
    → IsTorn p (write_frame (array (bulks args)))
    → (e : ReadError) × (start size clocks config (some (some (write_items xs ++ p), opens))
        ≡ err (unreadable e))
unfolding start
start-torn size clocks config opens xs args p h readable some_arg some_byte t =
    let (e, replayed) =
      replay-torn size clocks xs args p (with_config config) h readable some_arg some_byte t in
    (e, rw replayed)
