-- ===== src/HostMetrics/Network.antt =====
-- Traffic totals from `/proc/net/dev` (src/host_metrics/network.rs).
pub mod Printed
use mathlib.Core.Option
use web3_pi_ups_service.Prelude.{
  ℕ, ◌+◌, Bool, true, false, leb, if◌then◌else◌, Option, none, some, List, [], ◌∷◌, Text, ascii,
  text_eq, length, get_or, drop,
}
use web3_pi_ups_service.Prelude.Split.{lines, split_whitespace, split_at}
use web3_pi_ups_service.Prelude.Strings.{trim}
use web3_pi_ups_service.HostMetrics.Cpu.{saturating_add64}
use web3_pi_ups_service.HostMetrics.Cpu.Parse.{parse_u64}
use web3_pi_ups_service.HostMetrics.Sample.{NetTotals}

-- The variables `rx`, `tx` and `had_any`.
pub record Sums : Type 0 where
  pub rx : ℕ
  pub tx : ℕ
  pub had_any : Bool

-- The columns of an interface that is not the loopback.
unfoldable pub add_columns : List Text → Sums → Sums
add_columns nums sums =
    let r = Option.get_or (parse_u64 (get_or nums 0 [])) 0 in
    let t = Option.get_or (parse_u64 (get_or nums 8 [])) 0 in
    if leb 9 (length nums)
    then record { rx = saturating_add64 sums.rx r; tx = saturating_add64 sums.tx t; had_any = true }
    else sums

abbrev pub add_interface : Option (Text × Text) → Sums → Sums
add_interface none sums = sums
add_interface (some (name, columns)) sums =
    let added = add_columns (split_whitespace columns) sums in
    if text_eq (trim name) (ascii "lo") then sums else added

unfoldable pub sum_up : List Text → Sums → Sums
unfolding add_columns split_whitespace split_at trim
sum_up [] sums = sums
sum_up (line ∷ rest) sums = sum_up rest (add_interface (split_at 58 line) sums)

abbrev pub totals_of : Sums → Option NetTotals
totals_of sums =
    if sums.had_any then some (record { bytes_rx = sums.rx; bytes_tx = sums.tx }) else none

unfoldable pub parse_totals : Text → Option NetTotals
unfolding sum_up lines
parse_totals s = totals_of (sum_up (drop 2 (lines s)) (record { rx = 0; tx = 0; had_any = false }))
