-- ===== src/Result.antt =====
-- result.go, and `attackToken` of runner.go. A `time.Time` is the number of nanoseconds since the
-- zero time, so `IsZero` is a test for 0; a `time.Duration` is a 64-bit integer.
use loaderbot.Prelude.{ℕ, ◌-◌, ◌^◌, ◌≤◌, ◌≡◌, Bool, String, str_eq, not, if◌then◌else◌, arith}
use loaderbot.Prelude.Int.{ℤ, pos, negsuc, sub_ℕ, ltb_ℤ}

-- `Step` and `Tick` are counters that start at 1; they count events and are left unbounded.
pub record AttackToken : Type 0 where
  pub target_rps : ℤ
  pub step : ℕ
  pub tick : ℕ

pub record DoResult : Type 0 where
  pub request_label : String
  pub error : String
  pub status_code : ℤ
  pub bytes_in : ℤ
  pub bytes_out : ℤ

pub record AttackResult : Type 0 where
  pub attack_token : AttackToken
  pub begin : ℕ
  pub end : ℕ
  pub elapsed : ℤ
  pub do_result : DoResult

abbrev pub max_duration : ℤ
max_duration = pos (2 ^ 63 - 1)

abbrev pub min_duration : ℤ
min_duration = negsuc (2 ^ 63 - 1)

-- `t.Sub(u)` of the package time: the difference, held to the range of a Duration.
unfoldable pub sub_time : ℕ → ℕ → ℤ
sub_time t u =
    let d = sub_ℕ t u in
    if ltb_ℤ max_duration d then max_duration else if ltb_ℤ d min_duration then min_duration else d

pub sub_time_exact : (t u : ℕ) → u ≤ t → t - u ≤ 2 ^ 63 - 1 → sub_time t u ≡ pos (t - u)
unfolding sub_time
sub_time_exact t u h k = ground arith

-- `DoResult.Error != ""`
abbrev pub has_error : AttackResult → Bool
has_error r = not (str_eq r.do_result.error "")
