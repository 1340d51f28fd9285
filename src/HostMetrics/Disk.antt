-- ===== src/HostMetrics/Disk.antt =====
-- Used space of a file system (src/host_metrics/disk.rs).
use web3_pi_ups_service.Prelude.Chain.{◌>>=◌}
use web3_pi_ups_service.Prelude.{
  ℕ, ◌-◌, ◌*◌, ◌==◌, if◌then◌else◌, ◌||◌, Bool, false, min, Option, none, some, [], ◌∷◌, Text,
}
use web3_pi_ups_service.HostMetrics.Cpu.{u64_size}
use web3_pi_ups_service.HostMetrics.Mem.{used_pct}

-- The fields of `libc::statvfs` that the source reads.
pub record Statvfs : Type 0 where
  pub f_frsize : ℕ
  pub f_blocks : ℕ
  pub f_bavail : ℕ

-- `u64::saturating_mul`
abbrev pub saturating_mul64 : ℕ → ℕ → ℕ
saturating_mul64 a b = min (a * b) (u64_size - 1)

-- `CString::new` refuses a byte 0 in the path.
abbrev pub has_nul : Text → Bool
has_nul [] = false
has_nul (c ∷ s) = c == 0 || has_nul s

abbrev pub pct_of : Statvfs → Option ℕ
pct_of stat =
    let total = saturating_mul64 stat.f_blocks stat.f_frsize in
    let avail = saturating_mul64 stat.f_bavail stat.f_frsize in
    if total == 0 then none else some (used_pct total avail)

-- The call of `statvfs` is a parameter, `none` where it fails.
unfoldable pub read_used_pct : (Text → Option Statvfs) → Text → Option ℕ
read_used_pct statvfs path = if has_nul path then none else do stat ← statvfs path; pct_of stat
