-- ===== src/HostMetrics/Mem/Printed.antt =====
-- `/proc/meminfo` as the kernel prints it, and what is read from it (src/host_metrics/mem.rs).
use web3_pi_ups_service.Prelude.Chain.{◌>>=◌}
use web3_pi_ups_service.Prelude.{
  ℕ, ◌+◌, ◌-◌, ◌*◌, ◌/◌, ◌%◌, ◌≤◌, ◌<◌, ◌≡◌, refl, ap, subst, ◌∙◌, false, none, some, List, [], ◌∷◌,
  ◌++◌, Text, ascii, All, All-append, arith, ◌==◌, if◌then◌else◌,
}
use web3_pi_ups_service.Prelude.Decimal.{show, repeat}
use web3_pi_ups_service.Prelude.Decimal.RoundTrip.{parse_uint-show}
use web3_pi_ups_service.Prelude.Split.{lines, strip_prefix, first_word, first}
use web3_pi_ups_service.Prelude.Split.Printed.{
  IsLine, unlines, lines-unlines, lines-line, strip_prefix-append, split_whitespace-repeat,
  split_whitespace-word, show-IsWord, IsWord-IsLine, repeat-IsLine,
}
use web3_pi_ups_service.HostMetrics.Cpu.{u64_size, quotient_le}
use web3_pi_ups_service.HostMetrics.Cpu.Parse.{parse_u64}
use web3_pi_ups_service.HostMetrics.Mem.{
  Fields, both, mem_total, mem_available, parse_kb, read_total, read_line, scan, pct_of, used_pct,
  parse_used_pct,
}

-- A label, spaces, and a number of kilobytes.
abbrev pub mem_line : Text → ℕ → ℕ → Text
mem_line label pad n = label ++ (repeat 32 pad ++ (show n ++ ascii " kB"))

-- A line with none of the two labels.
abbrev pub IsOther : Text → Type 0
IsOther l = IsLine l × (strip_prefix mem_total l ≡ none) × (strip_prefix mem_available l ≡ none)

-- The file: the line of the total, with other lines before it, the line of what is available, with
-- other lines between the two, and any text behind.
abbrev pub meminfo : List Text → ℕ → ℕ → List Text → ℕ → ℕ → Text → Text
meminfo before pad_t t between pad_a a rest =
    unlines before
    ++ (mem_line mem_total pad_t t
        ++ (10 ∷ (unlines between ++ (mem_line mem_available pad_a a ++ (10 ∷ rest)))))

parse_kb-show :
    (pad n : ℕ) → n < u64_size → parse_kb (repeat 32 pad ++ (show n ++ ascii " kB")) ≡ some n
unfolding parse_kb first_word
parse_kb-show pad n h =
    ap (λ ws. first ws >>= parse_u64)
      (split_whitespace-repeat pad _ ∙ split_whitespace-word (show n) (ascii "kB") (show-IsWord n))
    ∙ parse_uint-show (u64_size - 1) n (omega arith) (omega arith)

IsLine-kb : IsLine (ascii " kB")
IsLine-kb = ground arith

mem_line-IsLine : (label : Text) (pad n : ℕ) → IsLine label → IsLine (mem_line label pad n)
mem_line-IsLine label pad n h = All-append _ label _ h (
    All-append _ (repeat 32 pad) _ (repeat-IsLine pad)
      (All-append _ (show n) _ (IsWord-IsLine (show n) (show-IsWord n)) IsLine-kb))

scan_others :
    (others rest : List Text) (fields : Fields)
    → both fields ≡ false
    → All IsOther others
    → scan (others ++ rest) fields ≡ scan rest fields
unfolding scan read_line
scan_others [] rest fields more h = refl
scan_others (l ∷ others) rest fields more ((is_line, no_total, no_avail), h) =
    rw (no_total, no_avail, more) (scan_others others rest fields more h)

abbrev amount : ℕ → ℕ → Text
amount pad n = repeat 32 pad ++ (show n ++ ascii " kB")

read_line-total :
    (pad t : ℕ) → t < u64_size → read_line (mem_line mem_total pad t) (none, none) ≡ (some t, none)
unfolding read_line
read_line-total pad t h =
    ap (λ o. read_total o (strip_prefix mem_available (mem_line mem_total pad t)) (none, none))
      (strip_prefix-append mem_total (amount pad t))
    ∙ ap (λ o. (o, none)) (parse_kb-show pad t h)

mem_available-other : (s : Text) → strip_prefix mem_total (mem_available ++ s) ≡ none
unfolding strip_prefix
mem_available-other s = refl

read_line-available :
    (pad t a : ℕ)
    → a < u64_size
    → read_line (mem_line mem_available pad a) (some t, none) ≡ (some t, some a)
unfolding read_line
read_line-available pad t a h =
    (λ i.
      read_total (mem_available-other (amount pad a) i)
        (strip_prefix-append mem_available (amount pad a) i) (some t, none))
    ∙ ap (λ o. (some t, o)) (parse_kb-show pad a h)

-- A line whose effect is known.
scan_line :
    (l : Text) (rest : List Text) (fields read : Fields)
    → read_line l fields ≡ read
    → scan (l ∷ rest) fields ≡ (if both read then read else scan rest read)
unfolding scan
scan_line l rest fields read e = ap (λ r. if both r then r else scan rest r) e

IsOther-IsLine : (others : List Text) → All IsOther others → All IsLine others
IsOther-IsLine [] h = tt
IsOther-IsLine (l ∷ others) ((is_line, no_total, no_avail), h) = (is_line, IsOther-IsLine others h)

lines-meminfo :
    (before between : List Text) (pad_t t pad_a a : ℕ) (rest : Text)
    → All IsOther before
    → All IsOther between
    → lines (meminfo before pad_t t between pad_a a rest)
      ≡ before
        ++ (mem_line mem_total pad_t t ∷ (between ++ (mem_line mem_available pad_a a ∷ lines rest)))
lines-meminfo before between pad_t t pad_a a rest h k =
    let total = mem_line mem_total pad_t t in
    let avail = mem_line mem_available pad_a a in
    lines-unlines before _ (IsOther-IsLine before h)
    ∙ ap (λ ls. before ++ ls)
        (lines-line total _ (mem_line-IsLine mem_total pad_t t (ground arith))
          ∙ ap (λ ls. total ∷ ls)
              (lines-unlines between _ (IsOther-IsLine between k)
                ∙ ap (λ ls. between ++ ls)
                    (lines-line avail rest (mem_line-IsLine mem_available pad_a a (ground arith)))))

used_pct-exact : (t a : ℕ) → 0 < t → t * 100 < u64_size → used_pct t a ≡ (t - a) * 100 / t
used_pct-exact t a h small =
    let fits : (t - a) * 100 % u64_size ≡ (t - a) * 100 = omega arith in
    let parts : t - a + (t - (t - a)) ≡ t = omega arith in
    let bound : (t - a) * 100 / t ≤ 100 =
      subst (λ n. (t - a) * 100 / n ≤ 100) parts
        (quotient_le (t - a) (t - (t - a)) (omega arith)) in
    rw fits (omega (arith, bound))

-- From a file with the kernel's lines for the total and for the available memory, whatever other
-- lines stand before and between them and whatever follows, the share of memory that is not
-- available is read, in percent, rounded down; a hundred times the total fits a `u64`, and the
-- total is above 0.
pub parse_used_pct-meminfo :
    (before between : List Text) (pad_t t pad_a a : ℕ) (rest : Text)
    → All IsOther before
    → All IsOther between
    → 0 < t
    → t * 100 < u64_size
    → a < u64_size
    → parse_used_pct (meminfo before pad_t t between pad_a a rest) ≡ some ((t - a) * 100 / t)
unfolding parse_used_pct
parse_used_pct-meminfo before between pad_t t pad_a a rest h k some_memory fits fits_a =
    let avail = mem_line mem_available pad_a a in
    let scanned : scan (lines (meminfo before pad_t t between pad_a a rest)) (none, none)
        ≡ (some t, some a) =
      ap (λ ls. scan ls (none, none)) (lines-meminfo before between pad_t t pad_a a rest h k)
      ∙ scan_others before (mem_line mem_total pad_t t ∷ (between ++ (avail ∷ lines rest)))
          (none, none) refl h
      ∙ scan_line (mem_line mem_total pad_t t) (between ++ (avail ∷ lines rest)) (none, none)
          (some t, none) (read_line-total pad_t t (omega arith))
      ∙ scan_others between (avail ∷ lines rest) (some t, none) refl k
      ∙ scan_line avail (lines rest) (some t, none) (some t, some a)
          (read_line-available pad_a t a fits_a) in
    let nonzero : (t == 0) ≡ false = ground arith in
    ap pct_of scanned ∙ (rw nonzero (ap some (used_pct-exact t a some_memory fits)))
