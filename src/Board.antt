-- ===== src/Board.antt =====
-- driver/core/GPIBBoard.h and GPIBDescriptor.h: the state of a board, and `init` and `free` of
-- GPIBBoard.cpp. The operations are in the modules below.
pub mod Monad
pub mod Timeout
pub mod Table
pub mod Address
pub mod Recover
pub mod Transfer
pub mod Command
pub mod Poll
pub mod Wait
pub mod Platform
pub mod Trace
pub mod Calls
use darwin_gpib.Prelude.{ℕ, Bool, true, false, List, replicate}
use darwin_gpib.Prelude.Int.{ℤ, pos, negsuc}

-- `struct GPIBDescriptor` (its `reserved` field is never used). The flags are bytes, 0 or 1.
pub record Descriptor : Type 0 where
  pub handle : ℤ
  pub is_board : ℕ
  pub pad : ℕ
  pub sad : ℤ
  pub eot : ℕ
  pub eos_char : ℕ
  pub eos_flags : ℕ
  pub timeout_us : ℕ

-- `class GPIBBoard`. `has_transport` says that `transport_` is not null.
pub record Board : Type 0 where
  pub descriptors : List Descriptor
  pub has_transport : Bool
  pub board_pad : ℕ
  pub board_sad : ℤ
  pub online : Bool
  pub system_controller : Bool
  pub ren_requested : Bool
  pub recovery_in_progress : Bool
  pub ibsta : ℕ

-- `kMaxDescriptors`.
abbrev pub max_descriptors : ℕ
max_descriptors = 64

-- A slot of the zeroed allocation after `init` has set its handle to -1.
abbrev pub blank : Descriptor
blank = record {
  handle = negsuc 0;
  is_board = 0;
  pad = 0;
  sad = pos 0;
  eot = 0;
  eos_char = 0;
  eos_flags = 0;
  timeout_us = 0;
}

-- `init` on zeroed storage, for a transport that is not null.
unfoldable pub init : Board
init = record {
  descriptors = replicate max_descriptors blank;
  has_transport = true;
  board_pad = 0;
  board_sad = negsuc 0;
  online = false;
  system_controller = true;
  ren_requested = false;
  recovery_in_progress = false;
  ibsta = 0;
}

unfoldable pub free : Board → Board
free b = record b { has_transport = false }
