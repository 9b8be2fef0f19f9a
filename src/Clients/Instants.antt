-- ===== src/Clients/Instants.antt =====
-- Package time, for the tokens: instants are nanoseconds from Go's zero time, and a duration is an int64
-- of nanoseconds, so that the product with a number of seconds wraps around. Instants are past the year
-- 1970, further from the zero time than any duration.
use jetstack_secure.Prelude.{ℕ, suc, ◌+◌, ◌-◌, ◌*◌, ◌≤◌, ◌≡◌, ◌↔◌, arith, ltb, if◌then◌else◌}
use Prim.Native.Nat.{◌^◌, ◌%◌, ◌/◌}
use jetstack_secure.Prelude.Int.{ℤ, pos, negsuc}

abbrev pub second : ℕ
second = 1000000000

-- `time.Minute`.
abbrev pub minute : ℕ
minute = 60 * second

-- The number that a pattern of 64 bits stands for.
abbrev pub signed64 : ℕ → ℤ
signed64 w = if ltb w (2 ^ 63) then pos w else negsuc (2 ^ 64 - w - 1)

-- `time.Duration(n) * time.Second` of a uint.
unfoldable pub seconds : ℕ → ℤ
seconds n = signed64 (n * second % 2 ^ 64)

-- `time.Duration(n) * time.Second` of an int64.
unfoldable pub signed_seconds : ℤ → ℤ
signed_seconds (pos n) = signed64 (n * second % 2 ^ 64)
signed_seconds (negsuc n) = signed64 ((2 ^ 64 - suc n * second % 2 ^ 64) % 2 ^ 64)

-- `t.Add(d)`.
unfoldable pub add_duration : ℕ → ℤ → ℕ
add_duration t (pos d) = t + d
add_duration t (negsuc d) = t - suc d

-- The product is the true one as long as it is below 2 ^ 63.
pub signed_seconds_lem : (n : ℕ) → n ≤ 9223372036 → signed_seconds (pos n) ≡ pos (n * 1000000000)
unfolding signed_seconds
signed_seconds_lem n h = ground arith

-- `t.Unix()`: the seconds since 1970.
unfoldable pub unix : ℕ → ℕ
unix t = t / second - 62135596800

-- So many seconds after an instant is what is meant exactly up to that bound.
pub add_duration-seconds_iff :
    (t n : ℕ) → (add_duration t (seconds n) ≡ t + n * 1000000000) ↔ (n ≤ 9223372036)
unfolding seconds add_duration
add_duration-seconds_iff t n = ((λ e. ground arith), (λ h. ground arith))
