-- ===== src/HostMetrics/Cpu/Printed.antt =====
-- `/proc/stat` as the kernel prints it, and what is read from it (src/host_metrics/cpu.rs).
use web3_pi_ups_service.Prelude.Chain.{◌>>=◌}
use web3_pi_ups_service.Prelude.{
  ℕ, ◌-◌, ◌<◌, ◌≡◌, refl, sym, ap, ◌∙◌, some, List, [], ◌∷◌, ◌++◌, map, append_assoc, Text, ascii,
  All, All-append, arith,
}
use web3_pi_ups_service.Prelude.Decimal.{show}
use web3_pi_ups_service.Prelude.Decimal.RoundTrip.{parse_uint-show}
use web3_pi_ups_service.Prelude.Split.{lines, split_whitespace, first}
use web3_pi_ups_service.Prelude.Split.Columns.{
  columns, numbers, split_whitespace-columns, columns-IsLine,
}
use web3_pi_ups_service.Prelude.Split.Printed.{
  IsLine, lines-line, split_whitespace-word, split_whitespace-space, split_whitespace-last,
}
use web3_pi_ups_service.HostMetrics.Cpu.{CpuSnap, u64_size}
use web3_pi_ups_service.HostMetrics.Cpu.Parse.{parse_u64, read_fields, after_cpu, parse_cpu_stat}

-- The seven counters that are read, in the file's order.
abbrev pub counters : CpuSnap → List ℕ
counters s = s.user ∷ s.nice ∷ s.system ∷ s.idle ∷ s.iowait ∷ s.irq ∷ s.softirq ∷ []

-- The line of all processors together, and further lines.
abbrev pub stat_file : List (ℕ × ℕ) → Text → Text
stat_file cols rest = ascii "cpu" ++ (columns cols ++ (10 ∷ rest))

parse_u64-show : (n : ℕ) → n < u64_size → parse_u64 (show n) ≡ some n
parse_u64-show n h = parse_uint-show (u64_size - 1) n (omega arith) (omega arith)

read_fields-counters :
    (s : CpuSnap) (more : List ℕ)
    → All (λ n. n < u64_size) (counters s)
    → read_fields (map show (counters s ++ more)) ≡ some s
unfolding read_fields
read_fields-counters s more (u, (n, (y, (i, (w, (q, (z, done))))))) =
    rw
      (
        parse_u64-show s.user u,
        parse_u64-show s.nice n,
        parse_u64-show s.system y,
        parse_u64-show s.idle i,
        parse_u64-show s.iowait w,
        parse_u64-show s.irq q,
        parse_u64-show s.softirq z,
      )
      refl

split_whitespace-cpu :
    (cols : List (ℕ × ℕ))
    → split_whitespace (ascii "cpu" ++ columns cols) ≡ ascii "cpu" ∷ map show (numbers cols)
split_whitespace-cpu [] = split_whitespace-last (ascii "cpu") (ground arith)
split_whitespace-cpu ((pad, n) ∷ cols) =
    split_whitespace-word (ascii "cpu") _ (ground arith)
    ∙ ap (λ t. ascii "cpu" ∷ t)
        (sym (split_whitespace-space _) ∙ split_whitespace-columns ((pad, n) ∷ cols))

-- From a file that begins with the line of all processors, the word `cpu` and columns of numbers,
-- the first seven numbers are read as the counters, whatever columns and lines follow; each of the
-- seven is a `u64`.
pub parse_cpu_stat-stat_file :
    (s : CpuSnap) (cols : List (ℕ × ℕ)) (more : List ℕ) (rest : Text)
    → numbers cols ≡ counters s ++ more
    → All (λ n. n < u64_size) (counters s)
    → parse_cpu_stat (stat_file cols rest) ≡ some s
unfolding parse_cpu_stat
parse_cpu_stat-stat_file s cols more rest printed small =
    let line = ascii "cpu" ++ columns cols in
    let is_line : IsLine line =
      All-append _ (ascii "cpu") (columns cols) (ground arith) (columns-IsLine cols) in
    let one : lines (stat_file cols rest) ≡ line ∷ lines rest =
      ap lines (sym (append_assoc (ascii "cpu") (columns cols) (10 ∷ rest)))
      ∙ lines-line line rest is_line in
    ap (λ ls. first ls >>= (λ l. after_cpu (split_whitespace l))) one
    ∙ ap after_cpu (split_whitespace-cpu cols)
    ∙ ap (λ ns. read_fields (map show ns)) printed
    ∙ read_fields-counters s more small
