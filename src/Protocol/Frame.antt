-- ===== src/Protocol/Frame.antt =====
-- src/protocol/frame.rs: the frames of the protocol.
use aerugo_cache.Prelude.Int.{ℤ}
use aerugo_cache.Prelude.{refl, suc, [], ◌∷◌, ℕ, List, Bytes, ◌≡◌, ap}

mutual
  pub data Frame : Type 0 where
    simple : Bytes → Frame
    error : Bytes → Frame
    integer : ℤ → Frame
    bulk : Bytes → Frame
    null : Frame
    array : Frames → Frame

  -- The `Vec<Frame>` of an array.
  pub data Frames : Type 0 where
    nil : Frames
    cons : Frame → Frames → Frames

unfoldable pub count : Frames → ℕ
count nil = 0
count (cons x xs) = suc (count xs)

unfoldable pub frames : List Frame → Frames
frames [] = nil
frames (x ∷ xs) = cons x (frames xs)

unfoldable pub items : Frames → List Frame
items nil = []
items (cons x xs) = x ∷ items xs

pub items-frames : (xs : List Frame) → items (frames xs) ≡ xs
unfolding items frames
items-frames [] = refl
items-frames (x ∷ xs) = ap (◌∷◌ x) (items-frames xs)
