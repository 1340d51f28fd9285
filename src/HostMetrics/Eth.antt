-- ===== src/HostMetrics/Eth.antt =====
-- The state of the Ethereum clients' services (src/host_metrics/eth.rs).
use web3_pi_ups_service.Prelude.{
  ℕ, ◌+◌, ◌*◌, ◌/◌, ◌%◌, ◌<◌, ◌≡◌, ◌∙◌, Bool, true, false, ◌==◌, if◌then◌else◌, ◌||◌, Option, none,
  some, [], ◌∷◌, Text, ascii, text_eq, arith,
}
use web3_pi_ups_service.Prelude.Strings.{trim}
use web3_pi_ups_service.Config.{EthClientsConfig}

abbrev pub st_unknown : ℕ
st_unknown = 0

abbrev pub st_running : ℕ
st_running = 1

abbrev pub st_stopped : ℕ
st_stopped = 2

abbrev pub st_failed : ℕ
st_failed = 3

-- The `match` on what `systemctl is-active` prints, trimmed.
abbrev pub state_of : Text → ℕ
state_of out =
    if text_eq out (ascii "active")
      || (text_eq out (ascii "activating") || text_eq out (ascii "reloading"))
    then st_running
    else if text_eq out (ascii "inactive") || text_eq out (ascii "deactivating")
    then st_stopped
    else if text_eq out (ascii "failed")
    then st_failed
    else st_unknown

abbrev pub queried : Option Text → ℕ
queried none = st_unknown
queried (some out) = state_of (trim out)

abbrev pub is_empty : Text → Bool
is_empty [] = true
is_empty (c ∷ s) = false

-- `is_active` is what `systemctl is-active` prints for a unit, `none` if it cannot be run.
unfoldable pub unit_state : (Text → Option Text) → Text → ℕ
unfolding trim
unit_state is_active unit = if is_empty (trim unit) then st_unknown else queried (is_active unit)

-- On numbers, `<< 2` and `<< 4` of a value below 4 are products, and `|` of disjoint bits a sum.
unfoldable pub pack : ℕ → ℕ → ℕ → ℕ
pack execution consensus validator = execution % 4 + 4 * (consensus % 4) + 16 * (validator % 4)

unfoldable pub unpack : ℕ → ℕ × ℕ × ℕ
unpack b = (b % 4, b / 4 % 4, b / 16 % 4)

unfoldable pub read_packed_state : (Text → Option Text) → EthClientsConfig → ℕ
unfolding unit_state pack
read_packed_state is_active cfg =
    pack (unit_state is_active cfg.execution) (unit_state is_active cfg.consensus)
      (unit_state is_active cfg.validator)

unfoldable pub state_name : ℕ → Text
state_name s =
    if s == st_running
    then ascii "running"
    else if s == st_stopped
    then ascii "stopped"
    else if s == st_failed
    then ascii "failed"
    else 0xe2 ∷ 0x80 ∷ 0x94 ∷ []

-- `unpack` gives back the low two bits of every state that was packed, and the reserved bits of
-- the byte are zero.
pub unpack-pack : (e c v : ℕ) → (unpack (pack e c v) ≡ (e % 4, c % 4, v % 4)) × (pack e c v < 64)
unfolding unpack pack
unpack-pack e c v =
    let low : (e % 4 + 4 * (c % 4) + 16 * (v % 4)) % 4 ≡ e % 4 = omega arith in
    let middle : (e % 4 + 4 * (c % 4) + 16 * (v % 4)) / 4 % 4 ≡ c % 4 = omega arith in
    let high : (e % 4 + 4 * (c % 4) + 16 * (v % 4)) / 16 % 4 ≡ v % 4 = omega arith in
    ((λ i. (low i, middle i, high i)), omega arith)

queried_lt : (out : Option Text) → queried out < 4
queried_lt none = omega arith
queried_lt (some out) = ground arith

unit_state_lt : (is_active : Text → Option Text) (unit : Text) → unit_state is_active unit < 4
unfolding unit_state
unit_state_lt is_active unit = ground (arith, queried_lt (is_active unit))

-- The byte of `host.status` shows the state of each of the three units: unpacking it gives
-- back what was queried for them.
pub unpack-read_packed_state :
    (is_active : Text → Option Text) (cfg : EthClientsConfig)
    → unpack (read_packed_state is_active cfg) ≡ (
      unit_state is_active cfg.execution,
      unit_state is_active cfg.consensus,
      unit_state is_active cfg.validator,
    )
unfolding read_packed_state
unpack-read_packed_state is_active cfg =
    let e = unit_state is_active cfg.execution in
    let c = unit_state is_active cfg.consensus in
    let v = unit_state is_active cfg.validator in
    let small_e : e % 4 ≡ e = omega (arith, unit_state_lt is_active cfg.execution) in
    let small_c : c % 4 ≡ c = omega (arith, unit_state_lt is_active cfg.consensus) in
    let small_v : v % 4 ≡ v = omega (arith, unit_state_lt is_active cfg.validator) in
    (unpack-pack e c v).0 ∙ (λ i. (small_e i, small_c i, small_v i))
