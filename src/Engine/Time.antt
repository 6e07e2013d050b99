-- ===== src/Engine/Time.antt =====
-- node/src/engine/time.rs: the time stamp of the next block. Times are u32 and additions wrap, as
-- they do in the release build; `now` is the reading of the system clock.
use evernode_se.Common.{ℕ, ◌+◌, ◌-◌, ◌%◌, ◌^◌, Bool, true, false}

pub data BlockTimeMode : Type 0 where
  system : BlockTimeMode
  seq : BlockTimeMode

unfoldable pub is_seq : BlockTimeMode → Bool
is_seq system = false
is_seq seq = true

-- `mode as u8`
unfoldable pub mode_code : BlockTimeMode → ℕ
mode_code system = 0
mode_code seq = 1

pub record BlockTime : Type 0 where
  pub delta : ℕ
  pub last_time : ℕ
  pub mode : BlockTimeMode
  pub seq_mode_interval : ℕ

unfoldable pub new : BlockTime
new = record { delta = 0; last_time = 1; mode = system; seq_mode_interval = 1 }

unfoldable pub increase_delta : BlockTime → ℕ → BlockTime
increase_delta t d = record t { delta = (t.delta + d) % 2 ^ 32 }

unfoldable pub reset_delta : BlockTime → BlockTime
reset_delta t = record t { delta = 0 }

unfoldable pub set_mode : BlockTime → BlockTimeMode → BlockTime
set_mode t m = record t { mode = m }

next_in : BlockTimeMode → ℕ → BlockTime → ℕ
next_in system now t = (now + t.delta) % 2 ^ 32
next_in seq now t = ((t.last_time + t.seq_mode_interval) % 2 ^ 32 + t.delta) % 2 ^ 32

unfoldable pub get_next : ℕ → BlockTime → ℕ
unfolding next_in
get_next now t = next_in t.mode now t

-- `saturating_sub` is `-` here.
unfoldable pub set_last : BlockTime → ℕ → BlockTime
set_last t time = record t { last_time = time - t.delta }
