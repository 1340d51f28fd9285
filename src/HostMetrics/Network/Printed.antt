-- ===== src/HostMetrics/Network/Printed.antt =====
-- `/proc/net/dev` as the kernel prints it, and what is read from it (src/host_metrics/network.rs).
use web3_pi_ups_service.Prelude.{
  ℕ, zero, suc, ◌+◌, ◌-◌, ◌≤◌, ◌<◌, ◌≡◌, ◌≢◌, refl, sym, ap, ◌∙◌, Bool-cases, inl, inr, Bool, true,
  false, ◌||◌, min, leb, if◌then◌else◌, none, some, List, [], ◌∷◌, ◌++◌, map, append-nil,
  append_assoc, Text, ascii, text_eq, All, All-append, All-get_or, length, get_or, drop, arith,
}
use web3_pi_ups_service.Prelude.Decimal.{show, repeat}
use web3_pi_ups_service.Prelude.Decimal.RoundTrip.{parse_uint-show}
use web3_pi_ups_service.Prelude.Split.{lines, split_at}
use web3_pi_ups_service.Prelude.Split.Columns.{
  columns, numbers, split_whitespace-columns, columns-IsLine, length-map, get_or-map,
}
use web3_pi_ups_service.Prelude.Split.Printed.{
  IsLine, IsGraphic, IsGraphic-IsLine, unlines, lines-unlines, split_at-append, repeat-IsLine,
}
use web3_pi_ups_service.Prelude.Strings.Trim.{trim-repeat}
use web3_pi_ups_service.HostMetrics.Cpu.{u64_size, saturating_add64}
use web3_pi_ups_service.HostMetrics.Cpu.Parse.{parse_u64}
use web3_pi_ups_service.HostMetrics.Network.{
  Sums, add_columns, add_interface, sum_up, totals_of, parse_totals,
}

-- An interface: spaces in front of its name, and its columns, each with spaces in front.
pub record Interface : Type 0 where
  pub pad : ℕ
  pub name : Text
  pub cols : List (ℕ × ℕ)

pub record IsInterface (d : Interface) : Type 0 where
  pub graphic : All IsGraphic d.name
  pub no_colon : All (λ c. c ≢ 58) d.name
  pub enough : 9 ≤ length (numbers d.cols)
  pub u64s : All (λ n. n < u64_size) (numbers d.cols)

abbrev pub interface_line : Interface → Text
interface_line d = repeat 32 d.pad ++ (d.name ++ (58 ∷ columns d.cols))

-- The file: two lines of headings and a line for each interface.
abbrev pub net_dev : Text → Text → List Interface → Text
net_dev heading heading2 ds = unlines (heading ∷ heading2 ∷ map interface_line ds)

-- The first and the ninth column of every interface but the loopback, added up.
abbrev pub is_loopback : Interface → Bool
is_loopback d = text_eq d.name (ascii "lo")

abbrev pub sum_of : ℕ → List Interface → ℕ
sum_of column [] = 0
sum_of column (d ∷ ds) =
    let rest = sum_of column ds in
    if is_loopback d then rest else get_or (numbers d.cols) column 0 + rest

abbrev pub any_other : List Interface → Bool
any_other [] = false
any_other (d ∷ ds) = let rest = any_other ds in if is_loopback d then rest else true

abbrev pub saturated : ℕ → ℕ
saturated n = min n (u64_size - 1)

spaces_no_colon : (pad : ℕ) → All (λ c. c ≢ 58) (repeat 32 pad)
spaces_no_colon zero = tt
spaces_no_colon (suc pad) = ((λ e. omega arith), spaces_no_colon pad)

interface_line-split :
    (d : Interface)
    → IsInterface d
    → split_at 58 (interface_line d) ≡ some (repeat 32 d.pad ++ d.name, columns d.cols)
interface_line-split d h =
    let front = repeat 32 d.pad ++ d.name in
    ap (split_at 58) (sym (append_assoc (repeat 32 d.pad) d.name (58 ∷ columns d.cols)))
    ∙ split_at-append 58 front (columns d.cols)
        (All-append _ (repeat 32 d.pad) d.name (spaces_no_colon d.pad) h.no_colon)

interface_line-IsLine : (d : Interface) → IsInterface d → IsLine (interface_line d)
interface_line-IsLine d h = All-append _ (repeat 32 d.pad) _ (repeat-IsLine d.pad) (
    All-append _ d.name _ (IsGraphic-IsLine d.name h.graphic)
      (((λ e. omega arith), (λ e. omega arith)), columns-IsLine d.cols))

lines-IsLine : (ds : List Interface) → All IsInterface ds → All IsLine (map interface_line ds)
lines-IsLine [] h = tt
lines-IsLine (d ∷ ds) (is_interface, h) = (interface_line-IsLine d is_interface, lines-IsLine ds h)

-- A column is read as its number.
column-read :
    (ns : List ℕ) (i : ℕ)
    → i < length ns
    → All (λ n. n < u64_size) ns
    → parse_u64 (get_or (map show ns) i []) ≡ some (get_or ns i 0)
column-read ns i h small =
    let fits : get_or ns i 0 < u64_size = All-get_or _ ns i 0 small (omega arith) in
    ap parse_u64 (get_or-map ns i h)
    ∙ parse_uint-show (u64_size - 1) (get_or ns i 0) (omega arith) (omega arith)

abbrev sums_at : ℕ → ℕ → Bool → Sums
sums_at rx tx had_any = record { rx = saturated rx; tx = saturated tx; had_any = had_any }

saturate_step : (sum n : ℕ) → saturating_add64 (saturated sum) n ≡ saturated (sum + n)
saturate_step sum n = omega arith

add_columns-numbers :
    (ns : List ℕ) (rx tx : ℕ) (had_any : Bool)
    → 9 ≤ length ns
    → All (λ n. n < u64_size) ns
    → add_columns (map show ns) (sums_at rx tx had_any)
      ≡ sums_at (rx + get_or ns 0 0) (tx + get_or ns 8 0) true
unfolding add_columns
add_columns-numbers ns rx tx had_any enough small =
    let long : leb 9 (length (map show ns)) ≡ true = ap (leb 9) (length-map ns) ∙ ground arith in
    rw (column-read ns 0 (omega arith) small, column-read ns 8 (omega arith) small, long)
      (λ i. record {
        rx = saturate_step rx (get_or ns 0 0) i;
        tx = saturate_step tx (get_or ns 8 0) i;
        had_any = true;
      })

add_interface-line :
    (d : Interface) (rx tx : ℕ) (had_any : Bool)
    → IsInterface d
    → add_interface (split_at 58 (interface_line d)) (sums_at rx tx had_any) ≡ (
        if is_loopback d
        then sums_at rx tx had_any
        else sums_at (rx + get_or (numbers d.cols) 0 0) (tx + get_or (numbers d.cols) 8 0) true)
add_interface-line d rx tx had_any h =
    ap (λ o. add_interface o (sums_at rx tx had_any)) (interface_line-split d h)
    ∙ (λ i.
        if text_eq (trim-repeat d.pad d.name h.graphic i) (ascii "lo")
        then sums_at rx tx had_any
        else add_columns (split_whitespace-columns d.cols i) (sums_at rx tx had_any))
    ∙ ap (λ r. if is_loopback d then sums_at rx tx had_any else r)
        (add_columns-numbers (numbers d.cols) rx tx had_any h.enough h.u64s)

or_false : (b : Bool) → b ≡ (b || false)
or_false true = refl
or_false false = refl

or_true_right : (b : Bool) → true ≡ (b || true)
or_true_right true = refl
or_true_right false = refl

sums_at_eq :
    (rx rx' tx tx' : ℕ) (b b' : Bool)
    → rx ≡ rx'
    → tx ≡ tx'
    → b ≡ b'
    → sums_at rx tx b ≡ sums_at rx' tx' b'
sums_at_eq rx rx' tx tx' b b' r t h = λ i. sums_at (r i) (t i) (h i)

sum_up-interfaces :
    (ds : List Interface) (rx tx : ℕ) (had_any : Bool)
    → All IsInterface ds
    → sum_up (map interface_line ds) (sums_at rx tx had_any)
      ≡ sums_at (rx + sum_of 0 ds) (tx + sum_of 8 ds) (had_any || any_other ds)
unfolding sum_up
sum_up-interfaces [] rx tx had_any h =
    sums_at_eq rx _ tx _ had_any _ (omega arith) (omega arith) (or_false had_any)
sum_up-interfaces (d ∷ ds) rx tx had_any (is_interface, h) =
    ap (sum_up (map interface_line ds)) (add_interface-line d rx tx had_any is_interface)
    ∙ elim (Bool-cases (is_loopback d)) [
      | inl loopback ↦ rw loopback (sum_up-interfaces ds rx tx had_any h)
      | inr other ↦
          let r = get_or (numbers d.cols) 0 0 in
          let t = get_or (numbers d.cols) 8 0 in
          rw other (
            sum_up-interfaces ds (rx + r) (tx + t) true h
            ∙ sums_at_eq _ _ _ _ _ _ (omega arith) (omega arith) (or_true_right had_any))
    ]

-- From a file with two headings and a line for each interface, in the kernel's columns, the sums of
-- the first and of the ninth column are read, over all interfaces but the loopback, and at most
-- the greatest `u64`; nothing is read where there is no other interface.
pub parse_totals-net_dev :
    (heading heading2 : Text) (ds : List Interface)
    → IsLine heading
    → IsLine heading2
    → All IsInterface ds
    → parse_totals (net_dev heading heading2 ds) ≡ (
        if any_other ds
        then some
            (record { bytes_rx = saturated (sum_of 0 ds); bytes_tx = saturated (sum_of 8 ds) })
        else none)
unfolding parse_totals
parse_totals-net_dev heading heading2 ds first second h =
    let rows = map interface_line ds in
    let file = net_dev heading heading2 ds in
    let all : lines file ≡ heading ∷ heading2 ∷ rows =
      ap lines (sym (append-nil file))
      ∙ lines-unlines (heading ∷ heading2 ∷ rows) [] (first, (second, lines-IsLine ds h))
      ∙ (unfold lines in append-nil _) in
    ap (λ ls. totals_of (sum_up (drop 2 ls) (sums_at 0 0 false))) all
    ∙ ap totals_of (
        sum_up-interfaces ds 0 0 false h
        ∙ sums_at_eq _ (sum_of 0 ds) _ (sum_of 8 ds) _ (any_other ds) (omega arith) (omega arith)
            refl)
