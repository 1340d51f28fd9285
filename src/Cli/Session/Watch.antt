-- ===== src/Cli/Session/Watch.antt =====
-- `w3p-ups watch` and the daemon's subscription (src/cli.rs, src/ipc.rs).
use web3_pi_ups_service.Prelude.{
  append_assoc, none, some, sym, map, ◌≡◌, ◌↔◌, refl, subst, ap, ◌∙◌, true, false, List, [], ◌∷◌,
  ◌++◌, All, Text, Result, ok, err,
}
use web3_pi_ups_service.Cli.Format.{Floats}
use web3_pi_ups_service.Cli.Snapshot.{Request, Reply, ask_subscribe, by_name}
use web3_pi_ups_service.Cli.Session.{
  Output, Ended, Wake, incoming, ctrl_c, reply_line, end_of_stream, read_failed, success, waiting,
  or_failed, print_parsed, printed_or, print_reply, write_request, watch_loop, run_watch,
}
use web3_pi_ups_service.Cli.Session.Alert.{alerts, due_of, alerts-append, print_parsed-due}
use web3_pi_ups_service.Ipc
use web3_pi_ups_service.Ipc.{
  Clock, OnBattCfg, ticked, line, subscribe, send_snapshot, answer, handle_client,
}
use web3_pi_ups_service.Ipc.Server.{send_reply}
use web3_pi_ups_service.Prelude.Split.{lines}
use web3_pi_ups_service.Prelude.Split.Printed.{IsLine, lines-line}
use web3_pi_ups_service.State.{State}

-- A wake-up with a line that parses.
abbrev pub IsReply : (Text → Result Reply Text) → Wake → Type 0
IsReply from_str (incoming (reply_line text)) = (reply : Reply) × (from_str text ≡ ok reply)
IsReply from_str _ = ⊥

-- The lines are the replies' JSON: `serde_json` gives the client what the daemon sent.
abbrev pub Delivers : (Text → Result Reply Text) → List Text → List Ipc.Reply → Type 0
Delivers from_str [] [] = Unit
Delivers from_str (text ∷ texts) (reply ∷ replies) =
    (from_str text ≡ ok (by_name reply)) × Delivers from_str texts replies
Delivers _ _ _ = ⊥

-- Some lines, and the user's Ctrl-C.
abbrev pub until_ctrl_c : List Text → List Wake → List Wake
until_ctrl_c [] rest = ctrl_c ∷ rest
until_ctrl_c (text ∷ texts) rest = incoming (reply_line text) ∷ until_ctrl_c texts rest

-- The snapshots of the states that a subscription meets.
abbrev pub snapshots : OnBattCfg → List (Clock × State) → List Ipc.Reply
snapshots cfg [] = []
snapshots cfg ((clock, s) ∷ seen) = send_snapshot clock s cfg ∷ snapshots cfg seen

abbrev pub all_due : List (Clock × State) → List Output
all_due [] = []
all_due ((clock, s) ∷ seen) = due_of clock s ++ all_due seen

-- A subscription, and the ticks after it.
abbrev pub ticks : List (Clock × State) → List (Ipc.Wake × Clock × State)
ticks [] = []
ticks ((clock, s) ∷ seen) = (ticked, clock, s) ∷ ticks seen

abbrev pub subscription : Clock → State → List (Clock × State) → List (Ipc.Wake × Clock × State)
subscription clock s seen = (line (ok subscribe), clock, s) ∷ ticks seen

handle_client-ticks :
    (version : Text) (cfg : OnBattCfg) (seen : List (Clock × State))
    → handle_client version cfg (ticks seen) true ≡ snapshots cfg seen
unfolding handle_client
handle_client-ticks version cfg [] = refl
handle_client-ticks version cfg ((clock, s) ∷ seen) =
    ap (λ t. send_snapshot clock s cfg ∷ t) (handle_client-ticks version cfg seen)

-- What the daemon's replies put on the socket, while its writes succeed.
abbrev pub on_socket : (Ipc.Reply → Text) → List Ipc.Reply → Text
on_socket json [] = []
on_socket json (reply ∷ replies) =
    send_reply (λ r. some (json r)) none none reply ++ on_socket json replies

-- The JSON of a reply is one line, which `serde_json` reads back.
abbrev pub IsJson : (Text → Result Reply Text) → (Ipc.Reply → Text) → Ipc.Reply → Type 0
IsJson from_str json reply = IsLine (json reply) × (from_str (json reply) ≡ ok (by_name reply))

module _ (floats : Floats) (to_string : Request → Text) (from_str : Text → Result Reply Text) where
  read_line :
      (text : Text) (parsed : Result Reply Text) (later : List Output × Ended)
      → ((or_failed (printed_or floats true text parsed) later).1 ≡ waiting)
        ↔ (((reply : Reply) × (parsed ≡ ok reply)) × (later.1 ≡ waiting))
  unfolding printed_or
  read_line text (ok reply) later = (λ w. ((reply, refl), w), λ h. h.1)
  read_line text (err e) later = (λ w. cc w, λ h. cc h.0.1)

  -- The watch goes on exactly as long as lines that parse come: it is still waiting if all
  -- that woke it were such lines, and has ended if anything else was among it.
  pub watch_loop-waiting_iff :
      (wakes : List Wake)
      → ((watch_loop floats to_string from_str wakes).1 ≡ waiting) ↔ All (IsReply from_str) wakes
  unfolding watch_loop print_reply
  watch_loop-waiting_iff [] = (λ _. tt, λ _. refl)
  watch_loop-waiting_iff (ctrl_c ∷ rest) = (λ w. cc w, λ h. elim h.0 [ ])
  watch_loop-waiting_iff (incoming end_of_stream ∷ rest) = (λ w. cc w, λ h. elim h.0 [ ])
  watch_loop-waiting_iff (incoming read_failed ∷ rest) = (λ w. cc w, λ h. elim h.0 [ ])
  watch_loop-waiting_iff (incoming (reply_line text) ∷ rest) =
      let (goes, back) =
        read_line text (from_str text) (watch_loop floats to_string from_str rest) in
      let (later, again) = watch_loop-waiting_iff rest in
      (λ w. ((goes w).0, later (goes w).1), λ (r, h). back (r, again h))

  watch_loop-due :
      (cfg : OnBattCfg) (seen : List (Clock × State)) (texts : List Text) (rest : List Wake)
      → Delivers from_str texts (snapshots cfg seen)
      → let watched = watch_loop floats to_string from_str (until_ctrl_c texts rest) in
        (watched.1 ≡ success) × (alerts watched.0 ≡ all_due seen)
  unfolding watch_loop print_reply
  watch_loop-due cfg [] [] rest h = (refl, refl)
  watch_loop-due cfg [] (text ∷ texts) rest h = elim h [ ]
  watch_loop-due cfg ((clock, s) ∷ seen) [] rest h = elim h [ ]
  watch_loop-due cfg ((clock, s) ∷ seen) (text ∷ texts) rest (json, h) =
      let later = watch_loop floats to_string from_str (until_ctrl_c texts rest) in
      let (ended, shown) = watch_loop-due cfg seen texts rest h in
      let read = ap (λ r. or_failed (printed_or floats true text r) later) json in
      let out = print_parsed floats true (by_name (send_snapshot clock s cfg)) in
      (
        ap (λ r. r.1) read ∙ (unfold printed_or in ended),
        ap (λ r. alerts r.0) read
            ∙ (unfold printed_or in alerts-append out later.0)
            ∙ (λ i. print_parsed-due floats true clock s cfg i ++ shown i),
      )

  -- `serde_json` gives the client what the daemon sends to its subscription: until Ctrl-C
  -- `w3p-ups watch` prints an alert exactly for those of the states, the one at the subscription
  -- and those at the ticks, in which a power status is known and a shutdown is pending, in order,
  -- with the whole seconds since; its request is the subscription, and the command ends well.
  pub run_watch-due :
      (version : Text) (cfg : OnBattCfg) (clock : Clock) (s : State) (seen : List (Clock × State))
      (texts : List Text) (rest : List Wake)
      → Delivers from_str texts (handle_client version cfg (subscription clock s seen) false)
      → let session = run_watch floats to_string from_str true true (until_ctrl_c texts rest) in
        (session.written ≡ write_request to_string ask_subscribe ∷ [])
        × (session.ended ≡ success)
        × (alerts session.printed ≡ all_due ((clock, s) ∷ seen))
  unfolding run_watch
  run_watch-due version cfg clock s seen texts rest h =
      let replies : handle_client version cfg (subscription clock s seen) false
          ≡ snapshots cfg ((clock, s) ∷ seen) =
        unfold handle_client answer in
        ap (λ t. send_snapshot clock s cfg ∷ t) (handle_client-ticks version cfg seen) in
      let (ended, shown) =
        watch_loop-due cfg ((clock, s) ∷ seen) texts rest
          (subst (Delivers from_str texts) replies h) in
      (refl, ended, shown)

  lines-on_socket :
      (json : Ipc.Reply → Text) (replies : List Ipc.Reply)
      → All (IsJson from_str json) replies
      → lines (on_socket json replies) ≡ map json replies
  unfolding send_reply
  lines-on_socket json [] h = unfold lines in refl
  lines-on_socket json (reply ∷ replies) ((is_line, parses), h) =
      ap lines (append_assoc (json reply) (10 ∷ []) (on_socket json replies))
      ∙ lines-line (json reply) (on_socket json replies) is_line
      ∙ ap (λ t. json reply ∷ t) (lines-on_socket json replies h)

  map-Delivers :
      (json : Ipc.Reply → Text) (replies : List Ipc.Reply)
      → All (IsJson from_str json) replies
      → Delivers from_str (map json replies) replies
  map-Delivers json [] h = tt
  map-Delivers json (reply ∷ replies) ((is_line, parses), h) = (parses, map-Delivers json replies h)

  -- Where the JSON of each reply is one line that reads back: the daemon answers a subscription on
  -- the socket, and `w3p-ups watch` reads the lines of it until Ctrl-C. Then the client prints an
  -- alert exactly for those of the states, the one at the subscription and those at the ticks, in
  -- which a power status is known and a shutdown is pending, in order, with the whole seconds
  -- since; its request is the subscription, and the command ends well.
  pub run_watch-on_socket :
      (version : Text) (cfg : OnBattCfg) (clock : Clock) (s : State) (seen : List (Clock × State))
      (json : Ipc.Reply → Text) (rest : List Wake)
      → let replies = handle_client version cfg (subscription clock s seen) false in
        All (IsJson from_str json) replies
        → let session =
            run_watch floats to_string from_str true true
              (until_ctrl_c (lines (on_socket json replies)) rest) in
          (session.written ≡ write_request to_string ask_subscribe ∷ [])
          × (session.ended ≡ success)
          × (alerts session.printed ≡ all_due ((clock, s) ∷ seen))
  run_watch-on_socket version cfg clock s seen json rest h =
      let replies = handle_client version cfg (subscription clock s seen) false in
      run_watch-due version cfg clock s seen (lines (on_socket json replies)) rest (
        subst (λ texts. Delivers from_str texts replies) (sym (lines-on_socket json replies h))
          (map-Delivers json replies h))
