-- ===== src/Tasks/Time.antt =====
-- backend/src/task-queue/time.ts: points in time and durations, in whole milliseconds.
use common_build.Common.{refl, ℕ, ◌+◌, ◌*◌, ◌/◌, ◌≡◌, ◌≤◌, arith}

pub record Duration : Type 0 where
  pub milliseconds : ℕ

pub record Time : Type 0 where
  pub epoch_ms : ℕ

-- `Duration.seconds`, rounded down
unfoldable pub seconds : Duration → ℕ
seconds d = d.milliseconds / 1000

unfoldable pub add : Duration → Duration → Duration
add d e = record { milliseconds = d.milliseconds + e.milliseconds }

abbrev pub from_milli_seconds : ℕ → Duration
from_milli_seconds n = record { milliseconds = n }

abbrev pub from_seconds : ℕ → Duration
from_seconds n = record { milliseconds = n * 1000 }

abbrev pub from_minutes : ℕ → Duration
from_minutes n = record { milliseconds = n * 60 * 1000 }

abbrev pub from_hours : ℕ → Duration
from_hours n = record { milliseconds = n * 60 * 60 * 1000 }

abbrev pub from_days : ℕ → Duration
from_days n = record { milliseconds = n * 24 * 60 * 60 * 1000 }

abbrev pub no_duration : Duration
no_duration = record { milliseconds = 0 }

-- `Time.seconds`, rounded down
unfoldable pub time_seconds : Time → ℕ
time_seconds t = t.epoch_ms / 1000

unfoldable pub add_seconds : Time → ℕ → Time
add_seconds t n = record { epoch_ms = t.epoch_ms + n * 1000 }

unfoldable pub add_duration : Time → Duration → Time
add_duration t d = record { epoch_ms = t.epoch_ms + d.milliseconds }

abbrev pub from_epoch_seconds : ℕ → Time
from_epoch_seconds n = record { epoch_ms = n * 1000 }

-- In whole seconds a time moves by the seconds of the duration that is added, or by one more: the
-- parts below a second may add up to one. Adding seconds is adding the duration of so many seconds.
time_seconds-add_duration :
    (t : Time) (d : Duration) (n : ℕ)
    → (time_seconds t + seconds d ≤ time_seconds (add_duration t d))
      × (time_seconds (add_duration t d) ≤ time_seconds t + seconds d + 1)
      × (time_seconds (add_seconds t n) ≡ time_seconds t + n)
      × (add_seconds t n ≡ add_duration t (from_seconds n))
unfolding time_seconds seconds add_duration add_seconds
time_seconds-add_duration t d n = (omega arith, omega arith, omega arith, refl)
