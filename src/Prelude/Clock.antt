-- ===== src/Prelude/Clock.antt =====
-- Go's time.Time.Unix and time.Unix, for times as nanoseconds since the zero time.
use Prim.Native.Nat.{ℕ, suc, ◌+◌, ◌-◌, ◌*◌, ◌/◌}
use sibyl.Prelude.Tests.{leb, if◌then◌else◌}
use sibyl.Prelude.Int.{ℤ, pos, negsuc}

-- The seconds from the zero time to the Unix epoch.
abbrev epoch : ℕ
epoch = 62135596800

abbrev seconds_since : ℕ → ℕ → ℤ
seconds_since start s = if leb start s then pos (s - start) else negsuc (start - s - 1)

-- time.Time.Unix
abbrev pub unix : ℕ → ℤ
unix time = seconds_since epoch (time / 1000000000)

-- time.Unix(s, 0), for times that are not before the zero time
abbrev pub from_unix : ℤ → ℕ
from_unix (pos n) = (n + epoch) * 1000000000
from_unix (negsuc n) = (epoch - suc n) * 1000000000
