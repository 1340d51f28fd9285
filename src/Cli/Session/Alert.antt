-- ===== src/Cli/Session/Alert.antt =====
-- The client's alert, and the daemon's pending shutdown (src/cli.rs, src/ipc.rs).
use web3_pi_ups_service.Prelude.{
  ℕ, ◌-◌, ◌/◌, ◌≡◌, refl, ap, ◌∙◌, Bool, true, false, if◌then◌else◌, Option, none, some, List, [],
  ◌∷◌, ◌++◌, map, append-nil, Text, ascii, Result, ok, Bool-cases, inl, inr,
}
use mathlib.Core.Option
use web3_pi_ups_service.Prelude.Strings.{starts_with}
use web3_pi_ups_service.Prelude.Decimal.{show}
use web3_pi_ups_service.Ipc.{Clock, OnBattCfg, send_snapshot, build_snapshot}
use web3_pi_ups_service.State.{State, snapshot}
use web3_pi_ups_service.Cli.Format.{Floats, row}
use web3_pi_ups_service.Cli.Print.{
  print_snapshot, print_power_block, power_block, net_block, print_net_block, print_host_block,
  host_block, power_rows, event_rows, alert_rows, host_rows,
}
use web3_pi_ups_service.Cli.Snapshot.{
  HostSnap, Request, SnapshotMsg, PowerSnap, NetSnap, Reply, by_name, snapshot_by_name,
  power_by_name,
}
use web3_pi_ups_service.Cli.Session.{
  Output, read_one, or_failed, printed_or, success, stdout, stderr, println, clear, reply_line,
  print_parsed, print_reply, run_status,
}

-- Whether a line stands under the label `ALERT`.
abbrev pub is_alert : Output → Bool
is_alert (stdout s) = starts_with (ascii "  ALERT ") s
is_alert (stderr s) = false

abbrev pub alerts : List Output → List Output
alerts [] = []
alerts (o ∷ os) = let rest = alerts os in if is_alert o then o ∷ rest else rest

abbrev pub lines_alerts : List Text → List Output
lines_alerts lines = alerts (map println lines)

-- The alert for a shutdown that has been pending for `secs`.
abbrev pub alert_line : ℕ → Output
alert_line secs =
    println (row (ascii "ALERT") (ascii "shutdown pending: " ++ show secs ++ ascii " s elapsed"))

-- The alerts that are due: one, where a power status is known and shutdown is pending.
abbrev pub pending_alerts : Option ℕ → List Output
pending_alerts none = []
pending_alerts (some secs) = alert_line secs ∷ []

abbrev pub due {ℓ} : {A : Type ℓ} → Option A → Option ℕ → List Output
due none pending = []
due (some p) pending = pending_alerts pending

pub alerts-append : (xs ys : List Output) → alerts (xs ++ ys) ≡ alerts xs ++ alerts ys
alerts-append [] ys = refl
alerts-append (x ∷ xs) ys = elim (Bool-cases (is_alert x)) [
  | inl alert ↦ rw alert (ap (λ t. x ∷ t) (alerts-append xs ys))
  | inr other ↦ rw other (alerts-append xs ys)
]

lines_alerts-append :
    (xs ys : List Text) → lines_alerts (xs ++ ys) ≡ lines_alerts xs ++ lines_alerts ys
lines_alerts-append [] ys = refl
lines_alerts-append (x ∷ xs) ys = elim (Bool-cases (is_alert (println x))) [
  | inl alert ↦ rw alert (ap (λ t. println x ∷ t) (lines_alerts-append xs ys))
  | inr other ↦ rw other (lines_alerts-append xs ys)
]

quiet_front : (xs ys : List Text) → lines_alerts xs ≡ [] → lines_alerts (xs ++ ys) ≡ lines_alerts ys
quiet_front xs ys quiet = lines_alerts-append xs ys ∙ ap (λ t. t ++ lines_alerts ys) quiet

quiet_back : (xs ys : List Text) → lines_alerts ys ≡ [] → lines_alerts (xs ++ ys) ≡ lines_alerts xs
quiet_back xs ys quiet =
    lines_alerts-append xs ys ∙ ap (λ t. lines_alerts xs ++ t) quiet ∙ append-nil _

power_rows-quiet : (floats : Floats) (p : PowerSnap) → lines_alerts (power_rows floats p) ≡ []
unfolding power_rows row
power_rows-quiet floats p = refl

event_rows-quiet : (event : Option ℕ) → lines_alerts (event_rows event) ≡ []
unfolding event_rows
event_rows-quiet none = refl
event_rows-quiet (some e) = unfold row in refl

net_block-quiet :
    (floats : Floats) (net : Option NetSnap) → lines_alerts (net_block floats net) ≡ []
unfolding net_block print_net_block
net_block-quiet floats none = refl
net_block-quiet floats (some n) = unfold row in refl

host_block-quiet :
    (floats : Floats) (host : Option HostSnap) → lines_alerts (host_block floats host) ≡ []
unfolding host_block host_rows
host_block-quiet floats none = refl
host_block-quiet floats (some h) = unfold row in refl

alert_rows-pending :
    (pending : Option ℕ) → lines_alerts (alert_rows pending) ≡ pending_alerts pending
unfolding alert_rows
alert_rows-pending none = refl
alert_rows-pending (some secs) = unfold row in refl

power_block-due :
    (floats : Floats) (power : Option PowerSnap) (event pending : Option ℕ)
    → lines_alerts (power_block floats power event pending) ≡ due power pending
unfolding power_block
power_block-due floats none event pending = refl
power_block-due floats (some p) event pending =
    quiet_front (power_rows floats p) (event_rows event ++ alert_rows pending)
      (power_rows-quiet floats p)
    ∙ quiet_front (event_rows event) (alert_rows pending) (event_rows-quiet event)
    ∙ alert_rows-pending pending

print_snapshot-due :
    (floats : Floats) (s : SnapshotMsg)
    → lines_alerts (print_snapshot floats s) ≡ due s.power s.shutdown_pending_for_s
unfolding print_snapshot print_power_block print_host_block
print_snapshot-due floats s =
    let power = power_block floats s.power s.last_power_event s.shutdown_pending_for_s in
    let net = net_block floats s.net in
    let host : List Text = [] ∷ host_block floats s.host in
    quiet_back power (net ++ host)
      (quiet_front net host (net_block-quiet floats s.net) ∙ host_block-quiet floats s.host)
    ∙ power_block-due floats s.power s.last_power_event s.shutdown_pending_for_s

due-map {ℓ κ} :
    {A : Type ℓ} {B : Type κ} (f : A → B) (power : Option A) (pending : Option ℕ)
    → due (Option.map f power) pending ≡ due power pending
due-map f none pending = refl
due-map f (some p) pending = refl

-- The alerts that are due in a state: where a power status is known and a shutdown is pending, one
-- with the whole seconds since.
abbrev pub due_of : Clock → State → List Output
due_of clock s =
    due s.inner.last_power
      (Option.map (λ t. (clock.now - t) / 1_000_000_000) s.inner.shutdown_pending_since)

shown_due :
    (clock : Clock) (s : State) (cfg : OnBattCfg)
    → let shown = snapshot_by_name (build_snapshot clock (snapshot s) cfg) in
      due shown.power shown.shutdown_pending_for_s
      ≡ due s.inner.last_power
          (Option.map (λ t. (clock.now - t) / 1_000_000_000) s.inner.shutdown_pending_since)
unfolding snapshot_by_name build_snapshot snapshot
shown_due clock s cfg = due-map power_by_name _ _ ∙ due-map _ s.inner.last_power _

cleared-alerts :
    (refresh : Bool) (os : List Output) → alerts ((if refresh then clear else []) ++ os) ≡ alerts os
cleared-alerts true os = refl
cleared-alerts false os = refl

-- The alerts among what is printed for a snapshot, with the screen cleared or not.
pub print_parsed-due :
    (floats : Floats) (refresh : Bool) (clock : Clock) (s : State) (cfg : OnBattCfg)
    → alerts (print_parsed floats refresh (by_name (send_snapshot clock s cfg))) ≡ due_of clock s
unfolding print_parsed by_name send_snapshot
print_parsed-due floats refresh clock s cfg =
    let shown = snapshot_by_name (build_snapshot clock (snapshot s) cfg) in
    cleared-alerts refresh (map println (print_snapshot floats shown))
    ∙ print_snapshot-due floats shown
    ∙ shown_due clock s cfg

-- `serde_json` gives the client what the daemon sent, field by field: then `w3p-ups status` prints
-- an alert exactly where the daemon knows a power status and a shutdown is pending in its state.
-- It is one line, with the whole seconds since the shutdown has been pending, and the command
-- ends well.
pub run_status-due :
    (floats : Floats) (to_string : Request → Text) (from_str : Text → Result Reply Text)
    (line : Text) (clock : Clock) (s : State) (cfg : OnBattCfg)
    → from_str line ≡ ok (by_name (send_snapshot clock s cfg))
    → let session = run_status floats to_string from_str true true (reply_line line) in
      (session.ended ≡ success)
      × (alerts session.printed
          ≡ due s.inner.last_power
              (Option.map (λ t. (clock.now - t) / 1_000_000_000) s.inner.shutdown_pending_since))
unfolding run_status read_one print_reply
run_status-due floats to_string from_str line clock s cfg json =
    let read = ap (λ r. or_failed (printed_or floats false line r) ([], success)) json in
    let out = print_parsed floats false (by_name (send_snapshot clock s cfg)) in
    (
      ap (λ r. r.1) read,
      ap (λ r. alerts r.0) read
          ∙ (unfold printed_or in ap alerts (append-nil out))
          ∙ print_parsed-due floats false clock s cfg,
    )
