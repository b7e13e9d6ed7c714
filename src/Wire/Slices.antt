-- ===== src/Wire/Slices.antt =====
-- Rust's `slice.get(offset..end)`, which crates/renee-wire/src/lib.rs reads headers with.
use renee.Prelude.{
  ℕ, ◌+◌, ◌-◌, ◌≤◌, ◌≡◌, ap, ◌&&◌, leb, if◌then◌else◌, length, length-append, take, drop,
  take-append, drop-append, take-append-drop, length-take, Option, none, some, ◌++◌, arith,
}
use renee.Bytes.{Bytes}

unfoldable pub get_range : ℕ → ℕ → Bytes → Option Bytes
get_range offset end bs =
    if leb offset end && leb end (length bs)
    then some (take (end - offset) (drop offset bs))
    else none

-- The part that stands behind `offset` bytes.
pub get_range-append :
    (pre mid post : Bytes) (offset n : ℕ)
    → length pre ≡ offset
    → length mid ≡ n
    → get_range offset (offset + n) (pre ++ (mid ++ post)) ≡ some mid
unfolding get_range
get_range-append pre mid post offset n p q =
    let size : offset + n - offset ≡ n = omega arith in
    rw (drop-append pre (mid ++ post) offset p, size, take-append mid post n q)
      (ground (arith, length-append pre (mid ++ post), length-append mid post))

-- A list that is long enough, cut in two.
pub split_at :
    (n : ℕ) (bs : Bytes)
    → n ≤ length bs
    → (length (take n bs) ≡ n)
      × (length (drop n bs) + n ≡ length bs)
      × (take n bs ++ drop n bs ≡ bs)
split_at n bs h = (
  length-take n bs h,
  omega (
    arith,
    length-take n bs h,
    length-append (take n bs) (drop n bs),
    ap length (take-append-drop n bs),
  ),
  take-append-drop n bs,
)
