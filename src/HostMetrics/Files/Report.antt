-- ===== src/HostMetrics/Files/Report.antt =====
-- What is read fits the report, whatever the files contain (src/host_metrics/).
use mathlib.Core.Option
use web3_pi_ups_service.Prelude.Chain.{◌>>=◌}
use web3_pi_ups_service.Prelude.{
  ℕ, ◌<◌, Bool, true, false, if◌then◌else◌, min, Option, none, some, Text, ascii, arith,
}
use web3_pi_ups_service.Prelude.Int.{ℤ, pos, negsuc, IsI16, ◌/ℕ◌}
use web3_pi_ups_service.Prelude.Decimal.{parse_int}
use web3_pi_ups_service.Prelude.Strings.{trim}
use web3_pi_ups_service.Prelude.Split.{lines, first_word}
use web3_pi_ups_service.HostMetrics.Cpu.Parse.{
  Reals, parse_rounded, as_i16, parse_temp_mdeg, parse_load_avg,
}
use web3_pi_ups_service.HostMetrics.Disk
use web3_pi_ups_service.HostMetrics.Disk.{Statvfs, has_nul}
use web3_pi_ups_service.HostMetrics.Mem
use web3_pi_ups_service.HostMetrics.Mem.{Fields, scan, parse_used_pct}
use web3_pi_ups_service.HostMetrics.Uptime.{parse_uptime}
use web3_pi_ups_service.HostMetrics.Files.{
  Machine, readings, read_load_avg_x100, read_temp_dc, read_mem_used_pct, read_uptime_s,
}
use web3_pi_ups_service.HostMetrics.Tick.Report.{IsReading}

-- Every value of a reading, and the 0 that stands in for a missing one.
abbrev Every {ℓ} : {A : Type ℓ} → (A → Type 0) → Option A → Type 0
Every P none = Unit {0}
Every P (some a) = P a

Every-bind {ℓ κ} :
    {A : Type ℓ} {B : Type κ} (P : B → Type 0) (o : Option A) (f : A → Option B)
    → ((a : A) → Every P (f a))
    → Every P (o >>= f)
Every-bind P none f h = tt
Every-bind P (some a) f h = h a

Every-get_or : (n : ℕ) (o : Option ℕ) → 0 < n → Every (λ a. a < n) o → Option.get_or o 0 < n
Every-get_or n none h k = h
Every-get_or n (some a) h k = k

Every-unless {ℓ} :
    {A : Type ℓ} (P : A → Type 0) (b : Bool) (o : Option A)
    → Every P o
    → Every P (if b then none else o)
Every-unless P true o h = tt
Every-unless P false o h = h

parse_rounded_lt :
    (reals : Reals) (factor max n : ℕ) (s : Text)
    → max < n
    → Every (λ a. a < n) (parse_rounded reals factor max s)
unfolding parse_rounded
parse_rounded_lt reals factor max n s h =
    Every-bind (λ a. a < n) (first_word s) _
      (λ w.
        Every-bind (λ a. a < n) (reals.parse w) _
          (λ val.
            Every-unless (λ a. a < n) _ (some (min (reals.round factor val) max)) (omega arith)))

as_i16-IsI16 : (a : ℤ) → IsI16 (as_i16 a)
as_i16-IsI16 (pos n) = ground arith
as_i16-IsI16 (negsuc n) = ground arith

parse_temp_mdeg-IsI16 : (s : Text) → Every IsI16 (parse_temp_mdeg s)
unfolding parse_temp_mdeg
parse_temp_mdeg-IsI16 s =
    Every-bind IsI16 (parse_int 2147483647 (trim s)) _ (λ mdeg. as_i16-IsI16 (mdeg /ℕ 100))

temp-IsI16 : (o : Option ℤ) → Every IsI16 o → IsI16 (Option.get_or o (pos 0))
temp-IsI16 none h = omega arith
temp-IsI16 (some a) h = h

Mem-pct_of_lt : (fields : Fields) → Every (λ a. a < 256) (Mem.pct_of fields)
Mem-pct_of_lt (some t, some a) = ground arith
Mem-pct_of_lt (some t, none) = tt
Mem-pct_of_lt (none, a) = tt

parse_used_pct_lt : (s : Text) → Every (λ a. a < 256) (parse_used_pct s)
unfolding parse_used_pct
parse_used_pct_lt s = Mem-pct_of_lt (scan (lines s) (none, none))

Disk-read_used_pct_lt :
    (statvfs : Text → Option Statvfs) (path : Text)
    → Every (λ a. a < 256) (Disk.read_used_pct statvfs path)
unfolding Disk.read_used_pct
Disk-read_used_pct_lt statvfs path =
    Every-unless (λ a. a < 256) (has_nul path) (statvfs path >>= Disk.pct_of)
      (Every-bind (λ a. a < 256) (statvfs path) _
        (λ stat. Every-unless (λ a. a < 256) _ (some (Mem.used_pct _ _)) (ground arith)))

-- Whatever the files contain, whether they are there or not, and whatever `statvfs` returns: what
-- is read fits the fields of the report.
pub readings-IsReading : (m : Machine) → IsReading (readings m)
unfolding readings
readings-IsReading m = record {
  temp_i16 =
      temp-IsI16 (read_temp_dc m)
        (unfold read_temp_dc in Every-bind IsI16 (m.read_to_string _) _ parse_temp_mdeg-IsI16);
  mem_u8 = Every-get_or 256 (read_mem_used_pct m) (omega arith) (
      unfold read_mem_used_pct in
      Every-bind (λ a. a < 256) (m.read_to_string _) _ parse_used_pct_lt);
  disk_u8 =
      Every-get_or 256 (Disk.read_used_pct m.statvfs (ascii "/")) (omega arith)
        (Disk-read_used_pct_lt m.statvfs (ascii "/"));
  load_u16 = Every-get_or 65536 (read_load_avg_x100 m) (omega arith) (
      unfold read_load_avg_x100 parse_load_avg in
      Every-bind (λ a. a < 65536) (m.read_to_string _) _
        (λ s. parse_rounded_lt m.f32 100 65535 65536 s (omega arith)));
  uptime_u32 = Every-get_or 4294967296 (read_uptime_s m) (omega arith) (
      unfold read_uptime_s parse_uptime in
      Every-bind (λ a. a < 4294967296) (m.read_to_string _) _
        (λ s. parse_rounded_lt m.f64 1 4294967295 4294967296 s (omega arith)));
}
