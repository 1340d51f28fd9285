-- ===== src/Examples/Client.antt =====
-- The theorems on the command line client at work.
use web3_pi_ups_service.Prelude.{
  none, arith, ◌≡◌, ◌↔◌, refl, true, false, some, List, [], ◌∷◌, All, Text, text_eq, ascii,
  if◌then◌else◌, Result, ok, err,
}
use web3_pi_ups_service.Prelude.Int.{pos}
use web3_pi_ups_service.Cli.Clock.{days_to_ymd}
use web3_pi_ups_service.Cli.Format.{Floats, format_clock_utc, fmt_uptime}
use web3_pi_ups_service.Cli.Format.Instants.{IsUtcText, format_clock_utc-IsUtcText}
use web3_pi_ups_service.Cli.Session.{
  success, waiting, incoming, ctrl_c, reply_line, Wake, write_request, watch_loop, run_watch,
}
use web3_pi_ups_service.Cli.Session.Alert.{alerts}
use web3_pi_ups_service.Cli.Session.Watch.{
  IsReply, until_ctrl_c, all_due, subscription, watch_loop-waiting_iff, run_watch-on_socket,
  on_socket, IsJson,
}
use web3_pi_ups_service.Cli.Snapshot.{Request, Reply, ask_subscribe, by_name}
use web3_pi_ups_service.Examples.{low_power, state_with}
use web3_pi_ups_service.Ipc
use web3_pi_ups_service.Ipc.{
  snapshot_reply, build_snapshot, Clock, OnBattCfg, send_snapshot, answer, handle_client,
}
use web3_pi_ups_service.Prelude.Split.{lines}
use web3_pi_ups_service.State
use web3_pi_ups_service.State.{State, snapshot}

format_clock_utc-IsUtcText_example :
    IsUtcText 1_700_000_000_000 (format_clock_utc 1_700_000_000_000)
format_clock_utc-IsUtcText_example = format_clock_utc-IsUtcText 1_700_000_000_000

november_14 : days_to_ymd (pos 19675) ≡ record { year = pos 2023; month = 11; day = 14 }
unfolding days_to_ymd
november_14 = refl

uptime : fmt_uptime 93784 ≡ ascii "1d 2h 3m 4s"
unfolding fmt_uptime
uptime = refl

-- Numbers are printed as one digit.
abbrev digits : Floats
digits = record { fixed32 = λ decimals a b. ascii "0"; fixed64 = λ decimals a b. ascii "0" }

abbrev clock : Clock
clock = record { now = 42_000_000_000; unix_ms = some 1_700_000_000_000 }

abbrev supply_range : OnBattCfg
supply_range = record { min_mv = 8000; max_mv = 26000 }

abbrev pending_state : State
pending_state = state_with low_power (some 2_000_000_000)

-- The requests' JSON is one text.
abbrev request_json : Request → Text
request_json request = ascii "request"

abbrev first : Text
first = ascii "1"

abbrev second : Text
second = ascii "2"

-- A parser that only knows these two lines, for a subscription with a tick at which no power
-- status is known.
abbrev reply_of : Text → Result Reply Text
reply_of text =
    if text_eq text first
    then ok (by_name (send_snapshot clock pending_state supply_range))
    else if text_eq text second
    then ok (by_name (send_snapshot clock State.new supply_range))
    else err text

-- JSON that tells apart whether a power status is known.
abbrev reply_json : Ipc.Reply → Text
reply_json (snapshot_reply msg) = elim msg.power [ none ↦ second | some p ↦ first ]
reply_json _ = []

replies-IsJson : All (IsJson reply_of reply_json) (
    handle_client
      (ascii "1.0.0")
      supply_range
      (subscription clock pending_state ((clock, State.new) ∷ []))
      false)
unfolding handle_client answer send_snapshot build_snapshot snapshot
replies-IsJson = ((ground arith, refl), ((ground arith, refl), tt))

run_watch-on_socket_example :
    let replies =
      handle_client
        (ascii "1.0.0")
        supply_range
        (subscription clock pending_state ((clock, State.new) ∷ []))
        false in
    let session =
      run_watch digits request_json reply_of true true
        (until_ctrl_c (lines (on_socket reply_json replies)) []) in
    (session.written ≡ write_request request_json ask_subscribe ∷ [])
    × (session.ended ≡ success)
    × (alerts session.printed ≡ all_due ((clock, pending_state) ∷ (clock, State.new) ∷ []))
run_watch-on_socket_example =
    run_watch-on_socket digits request_json reply_of (ascii "1.0.0") supply_range clock
      pending_state ((clock, State.new) ∷ []) reply_json [] replies-IsJson

abbrev wakes : List Wake
wakes = incoming (reply_line first) ∷ incoming (reply_line second) ∷ ctrl_c ∷ []

watch_loop-waiting_iff_example :
    ((watch_loop digits request_json reply_of wakes).1 ≡ waiting) ↔ All (IsReply reply_of) wakes
watch_loop-waiting_iff_example = watch_loop-waiting_iff digits request_json reply_of wakes
