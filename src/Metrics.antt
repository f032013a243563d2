-- ===== src/Metrics.antt =====
-- metrics.go: the figures of one tick.
pub mod Counts
pub mod Extremes
pub mod Errors
use loaderbot.Prelude.{
  ℕ, ◌+◌, ◌%◌, ◌^◌, ◌≡◌, Bool, true, false, ◌&&◌, ◌||◌, not, String, List, [], ◌∷◌, ◌++◌, str_eq,
  ltb, ◌==◌, if◌then◌else◌,
}
use loaderbot.Prelude.Int.{ℤ, pos, negsuc, add64, quot64, ◌-ℤ◌, ◌*ℤ◌, ltb_ℤ, leb_ℤ, eqb_ℤ}
use loaderbot.Float.{Float64, of_int, to_int, lit, ◌+f◌, ◌*f◌, ◌/f◌, ◌<f◌}
use loaderbot.Result.{AttackResult, sub_time, has_error}

-- The estimator of github.com/streadway/quantile, with the three quantiles that `init` asks for.
pub record Quantile (F E : Type 0) : Type 0 where
  pub new : E
  pub add : E → F → E
  pub get : E → F → F

pub record LatencyMetrics : Type 0 where
  pub total : ℤ
  pub mean : ℤ
  pub p50 : ℤ
  pub p95 : ℤ
  pub p99 : ℤ
  pub max : ℤ

-- `Errors`, `errors`, `errorsCount`, `Success`, `success` and `latencies` are the fields `errors`,
-- `known_errors`, `errors_count`, `success_ratio`, `success_count` and `estimator`. The status codes
-- are counted under the code, not under its decimal text; a missing key reads as 0.
pub record Metrics (F E : Type 0) : Type 0 where
  pub latencies : LatencyMetrics
  pub earliest : ℕ
  pub latest : ℕ
  pub end : ℕ
  pub duration : ℤ
  pub wait : ℤ
  pub requests : ℕ
  pub target_rate : F
  pub rate : F
  pub success_ratio : F
  pub status_codes : List (ℤ × ℕ)
  pub errors : List String
  pub known_errors : List String
  pub errors_count : ℤ
  pub success_count : ℤ
  pub estimator : E

unfoldable pub increment : ℤ → List (ℤ × ℕ) → List (ℤ × ℕ)
increment code [] = (code, 1) ∷ []
increment code ((c, n) ∷ rest) =
    if eqb_ℤ c code then (c, n + 1) ∷ rest else (c, n) ∷ increment code rest

unfoldable pub code_count : ℤ → List (ℤ × ℕ) → ℕ
code_count code [] = 0
code_count code ((c, n) ∷ rest) = if eqb_ℤ c code then n else code_count code rest

unfoldable pub is_known : String → List String → Bool
is_known e [] = false
is_known e (x ∷ xs) = str_eq x e || is_known e xs

-- A code of 0 means that there is none.
abbrev pub is_success_code : ℤ → Bool
is_success_code code = eqb_ℤ code (pos 0) || leb_ℤ (pos 200) code && ltb_ℤ code (pos 400)

abbrev pub is_success : AttackResult → Bool
is_success r = not (has_error r) && is_success_code r.do_result.status_code

-- `d.Seconds()` of the package time: a Duration counts nanoseconds; the whole seconds and the rest are
-- converted one by one.
abbrev pub seconds : {F : Type 0} ⦃fl : Float64 F⦄ → ℤ → F
seconds d =
    let sec = quot64 d 1_000_000_000 in
    let nsec = d -ℤ sec *ℤ pos 1_000_000_000 in
    of_int sec +f of_int nsec /f of_int (pos 1_000_000_000)

module _ {F E : Type 0} ⦃fl : Float64 F⦄ ⦃q : Quantile F E⦄ where
  unfoldable pub new_metrics : Metrics F E
  new_metrics = record {
    latencies = record {
      total = pos 0;
      mean = pos 0;
      p50 = pos 0;
      p95 = pos 0;
      p99 = pos 0;
      max = pos 0;
    };
    earliest = 0;
    latest = 0;
    end = 0;
    duration = pos 0;
    wait = pos 0;
    requests = 0;
    target_rate = lit 0 0;
    rate = lit 0 0;
    success_ratio = lit 0 0;
    status_codes = [];
    errors = [];
    known_errors = [];
    errors_count = pos 0;
    success_count = pos 0;
    estimator = q.new;
  }

  unfoldable pub add : Metrics F E → AttackResult → Metrics F E
  add m r = record m {
    requests = (m.requests + 1) % 2 ^ 64;
    status_codes =
        if ltb_ℤ (pos 0) r.do_result.status_code
        then increment r.do_result.status_code m.status_codes
        else m.status_codes;
    latencies = record l {
      total = add64 l.total r.elapsed;
      max = if ltb_ℤ l.max r.elapsed then r.elapsed else l.max;
    };
    estimator = q.add m.estimator (of_int r.elapsed);
    earliest = if m.earliest == 0 || ltb r.begin m.earliest then r.begin else m.earliest;
    latest = if ltb m.latest r.begin then r.begin else m.latest;
    end = if ltb m.end r.end then r.end else m.end;
    known_errors =
        if has_error r && not (is_known e m.known_errors)
        then e ∷ m.known_errors
        else m.known_errors;
    errors =
        if has_error r && not (is_known e m.known_errors) then m.errors ++ e ∷ [] else m.errors;
    errors_count = if has_error r then add64 m.errors_count (pos 1) else m.errors_count;
    success_count = if is_success r then add64 m.success_count (pos 1) else m.success_count;
  }
    where
      l : LatencyMetrics
      l = m.latencies

      e : String
      e = r.do_result.error

  unfoldable pub update : Metrics F E → Metrics F E
  update m = record m {
    duration = span;
    rate = if lit 0 0 <f secs then count /f secs else m.rate;
    wait = sub_time m.end m.latest;
    success_ratio = of_int m.success_count /f count;
    latencies = record l {
      mean = to_int (of_int l.total /f count);
      p50 = to_int (q.get m.estimator (lit 50 2));
      p95 = to_int (q.get m.estimator (lit 95 2));
      p99 = to_int (q.get m.estimator (lit 99 2));
    };
  }
    where
      l : LatencyMetrics
      l = m.latencies

      count : F
      count = of_int (pos m.requests)

      span : ℤ
      span = sub_time m.latest m.earliest

      secs : F
      secs = seconds span

  unfoldable pub success_log_entry : Metrics F E → F
  success_log_entry m =
      let s = m.success_ratio *f of_int (pos 100) in if s <f lit 0 0 then lit 0 0 else s

  unfoldable pub mean_log_entry : Metrics F E → ℤ
  mean_log_entry m = if ltb_ℤ m.latencies.mean (pos 0) then pos 0 else m.latencies.mean

  -- The loop over a tick's samples.
  unfoldable pub add_all : Metrics F E → List AttackResult → Metrics F E
  add_all m [] = m
  add_all m (r ∷ rs) = add_all (add m r) rs
