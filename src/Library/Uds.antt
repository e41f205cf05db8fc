-- ===== src/Library/Uds.antt =====
-- libgpib/include/libgpib_internal.h: the numbers that programs hold for boards and devices.
use darwin_gpib.Prelude.{ℕ, ◌^◌, ◌<◌, ◌≡◌, arith, false}
use darwin_gpib.Prelude.Int.{pos}
use darwin_gpib.Library.{is_board_ud, board_of, device_handle, make_ud, max_boards}

-- For a board below 128 and a handle of 23 bits, the number of a device is none of the board numbers
-- 0 to 15 and not negative, and the board and the handle are read back from it; and the number of a
-- board, below 16, is that board's.
board_of-make_ud :
    (b h n : ℕ)
    → b < 128
    → h < 2 ^ 23
    → n < max_boards
    → (is_board_ud (make_ud b (pos h)) ≡ false)
      × (board_of (make_ud b (pos h)) ≡ pos b)
      × (device_handle (make_ud b (pos h)) ≡ h)
      × (board_of (pos n) ≡ pos n)
unfolding is_board_ud board_of device_handle make_ud
board_of-make_ud b h n small_b small_h small_n =
    (ground arith, ground arith, omega arith, ground arith)
