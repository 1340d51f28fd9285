-- ===== src/HostMetrics/Cpu.antt =====
-- CPU usage between two readings of `/proc/stat` (src/host_metrics/cpu.rs). Counters are `u64`s.
pub mod Parse
pub mod Printed
use web3_pi_ups_service.Prelude.{
  ℕ, ◌+◌, ◌-◌, ◌*◌, ◌/◌, ◌%◌, ◌≤◌, ◌<◌, ◌≡◌, ap, false, min, ltb, ◌==◌, if◌then◌else◌, Option, none,
  some, arith,
}
use native.Mathlib.Omega.{div_any}
use native.Mathlib.Nat.{le_of_mul-le-mul_left}

pub record CpuSnap : Type 0 where
  pub user : ℕ
  pub nice : ℕ
  pub system : ℕ
  pub idle : ℕ
  pub iowait : ℕ
  pub irq : ℕ
  pub softirq : ℕ

abbrev pub u64_size : ℕ
u64_size = 18446744073709551616

-- `u64::saturating_add`
abbrev pub saturating_add64 : ℕ → ℕ → ℕ
saturating_add64 a b = min (a + b) (u64_size - 1)

abbrev pub total : CpuSnap → ℕ
total s =
    saturating_add64
      (saturating_add64
        (saturating_add64
          (saturating_add64 (saturating_add64 (saturating_add64 s.user s.nice) s.system) s.idle)
          s.iowait)
        s.irq)
      s.softirq

abbrev pub idle_total : CpuSnap → ℕ
idle_total s = saturating_add64 s.idle s.iowait

-- The last line of `compute_usage_pct`, for `dt` above 0. A release build wraps around where
-- `di` is greater than `dt` or the product does not fit.
abbrev pub busy_pct : ℕ → ℕ → ℕ
busy_pct dt di = min ((dt + u64_size - di) % u64_size * 100 % u64_size / dt) 100

-- `checked_sub` gives `None` where the counters have gone back.
unfoldable pub compute_usage_pct : CpuSnap → CpuSnap → Option ℕ
compute_usage_pct prev curr =
    if ltb (total curr) (total prev)
    then none
    else if ltb (idle_total curr) (idle_total prev)
    then none
    else let dt = total curr - total prev in
      let di = idle_total curr - idle_total prev in some (if dt == 0 then 0 else busy_pct dt di)

-- The time that was spent at work.
abbrev pub busy : CpuSnap → ℕ
busy s = s.user + s.nice + s.system + s.irq + s.softirq

-- All counters together, where they fit.
abbrev pub ticks : CpuSnap → ℕ
ticks s = busy s + s.idle + s.iowait

total-ticks : (s : CpuSnap) → ticks s < u64_size → total s ≡ ticks s
total-ticks s h = omega arith

pub quotient_le : (b d : ℕ) → 0 < b + d → b * 100 / (b + d) ≤ 100
quotient_le b d some_time =
    let q = b * 100 / (b + d) in
    let n = b + d in
    let split : (b + d) * q + b * 100 % (b + d) ≡ b * 100 = div_any (b * 100) (b + d) in
    le_of_mul-le-mul_left {m = q} {n = 100} {k = n} (omega (arith, split)) some_time

busy_pct-exact :
    (b d : ℕ) → 0 < b + d → (b + d) * 100 < u64_size → busy_pct (b + d) d ≡ b * 100 / (b + d)
busy_pct-exact b d some_time small =
    let difference : (b + d + u64_size - d) % u64_size ≡ b = omega arith in
    let product : b * 100 % u64_size ≡ b * 100 = omega arith in
    rw (difference, product) (omega (arith, quotient_le b d some_time))

-- Where no kind of time has gone back, some has passed, and a hundred times all of it fits a
-- `u64`, the usage is the busy part of the time that has passed, in percent, rounded down.
pub compute_usage_pct-busy :
    (prev curr : CpuSnap)
    → busy prev ≤ busy curr
    → prev.idle + prev.iowait ≤ curr.idle + curr.iowait
    → ticks prev < ticks curr
    → ticks curr * 100 < u64_size
    → compute_usage_pct prev curr ≡ some ((busy curr - busy prev) * 100 / (ticks curr - ticks prev))
unfolding compute_usage_pct
compute_usage_pct-busy prev curr worked idled passed small =
    let b = busy curr - busy prev in
    let d = curr.idle + curr.iowait - (prev.idle + prev.iowait) in
    let total_prev : total prev ≡ ticks prev = total-ticks prev (omega arith) in
    let total_curr : total curr ≡ ticks curr = total-ticks curr (omega arith) in
    let idle_prev : idle_total prev ≡ prev.idle + prev.iowait = omega arith in
    let idle_curr : idle_total curr ≡ curr.idle + curr.iowait = omega arith in
    let time : ticks curr - ticks prev ≡ b + d = omega arith in
    let forward : ltb (ticks curr) (ticks prev) ≡ false = ground arith in
    let idle_forward : ltb (curr.idle + curr.iowait) (prev.idle + prev.iowait) ≡ false =
      ground arith in
    let nonzero : (b + d == 0) ≡ false = ground arith in
    rw (total_prev, total_curr, idle_prev, idle_curr, forward, idle_forward, time, nonzero)
      (ap some (busy_pct-exact b d (omega arith) (omega arith)))
