-- ===== src/HostMetrics/Cpu/Parse.antt =====
-- The parsers of `/proc/stat`, of the temperature and of `/proc/loadavg`
-- (src/host_metrics/cpu.rs).
use web3_pi_ups_service.Prelude.Chain.{◌>>=◌}
use web3_pi_ups_service.Prelude.{
  ℕ, ◌-◌, ◌%◌, Bool, min, if◌then◌else◌, ◌||◌, not, Option, none, some, List, [], ◌∷◌, Text, ascii,
  text_eq,
}
use web3_pi_ups_service.Prelude.Decimal.{parse_uint, parse_int}
use web3_pi_ups_service.Prelude.Int.{ℤ, pos, negsuc, ◌/ℕ◌, i16_of_bits}
use web3_pi_ups_service.Prelude.Split.{lines, split_whitespace, first_word, first}
use web3_pi_ups_service.Prelude.Strings.{trim}
use web3_pi_ups_service.HostMetrics.Cpu.{CpuSnap, u64_size}

abbrev pub parse_u64 : Text → Option ℕ
parse_u64 s = parse_uint (u64_size - 1) s

-- `it.next()?.parse().ok()?`, with what is left of the iterator.
abbrev pub next_u64 : List Text → Option (ℕ × List Text)
next_u64 [] = none
next_u64 (w ∷ ws) = do n ← parse_u64 w; some (n, ws)

unfoldable pub read_fields : List Text → Option CpuSnap
unfolding parse_uint
read_fields it = do
  (user, it) ← next_u64 it
  (nice, it) ← next_u64 it
  (system, it) ← next_u64 it
  (idle, it) ← next_u64 it
  (iowait, it) ← next_u64 it
  (irq, it) ← next_u64 it
  (softirq, it) ← next_u64 it
  some (record {
    user = user;
    nice = nice;
    system = system;
    idle = idle;
    iowait = iowait;
    irq = irq;
    softirq = softirq;
  })

abbrev pub after_cpu : List Text → Option CpuSnap
after_cpu [] = none
after_cpu (w ∷ ws) = let fields = read_fields ws in if text_eq w (ascii "cpu") then fields else none

unfoldable pub parse_cpu_stat : Text → Option CpuSnap
unfolding read_fields lines split_whitespace
parse_cpu_stat s = do line ← first (lines s); after_cpu (split_whitespace line)

-- `as i16` of an `i32`
abbrev pub as_i16 : ℤ → ℤ
as_i16 (pos n) = i16_of_bits (n % 65536)
as_i16 (negsuc n) = i16_of_bits (65535 - n % 65536)

unfoldable pub parse_temp_mdeg : Text → Option ℤ
unfolding trim parse_int
parse_temp_mdeg s = do mdeg ← parse_int 2147483647 (trim s); some (as_i16 (mdeg /ℕ 100))

-- The floating-point numbers of the program: how they are parsed, tested and rounded, `scaled`
-- times a factor.
pub record Reals : Type 1 where
  pub Real : Type 0
  pub parse : Text → Option Real
  pub is_finite : Real → Bool
  pub is_negative : Real → Bool
  pub round : ℕ → Real → ℕ

-- A number that is finite and not negative, rounded, and at most `max`.
abbrev pub rounded : (reals : Reals) → ℕ → ℕ → reals.Real → Option ℕ
rounded reals factor max val =
    if not (reals.is_finite val) || reals.is_negative val
    then none
    else some (min (reals.round factor val) max)

-- The same of the number that a file begins with.
unfoldable pub parse_rounded : Reals → ℕ → ℕ → Text → Option ℕ
unfolding first_word
parse_rounded reals factor max s = do
  first ← first_word s
  val ← reals.parse first
  rounded reals factor max val

-- `round() as i64` is not negative here, and saturates.
unfoldable pub parse_load_avg : Reals → Text → Option ℕ
unfolding parse_rounded
parse_load_avg f32 s = parse_rounded f32 100 65535 s
