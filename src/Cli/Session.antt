-- ===== src/Cli/Session.antt =====
-- The client's conversation with the daemon (src/cli.rs). The socket and signals are of the crate
-- tokio, and JSON is of serde_json: its two functions are parameters.
pub mod Alert
pub mod Watch
use web3_pi_ups_service.Prelude.{
  ℕ, Bool, true, false, if◌then◌else◌, List, [], ◌∷◌, ◌++◌, map, Text, ascii, Result, ok, err,
}
use web3_pi_ups_service.Cli.Format.{Floats}
use web3_pi_ups_service.Cli.Print.{print_snapshot}
use web3_pi_ups_service.Cli.Snapshot.{
  Request, ask_snapshot, ask_subscribe, Reply, snapshot, version, error,
}

pub data Output : Type 0 where
  stdout stderr : Text → Output

-- `println!` and `eprintln!` add the end of the line.
abbrev pub println : Text → Output
println s = stdout (s ++ (10 ∷ []))

abbrev pub eprintln : Text → Output
eprintln s = stderr (s ++ (10 ∷ []))

-- How a command ends: the `?` that it returned from, if any. `waiting` has not ended.
pub data Ended : Type 0 where
  success connect_error write_error read_error parse_error waiting : Ended

-- The lines written to the socket, what is printed, and the end.
pub record Session : Type 0 where
  pub written : List Text
  pub printed : List Output
  pub ended : Ended

-- What `next_line` yields: a line, the end of the stream, or an error on it.
pub data Incoming : Type 0 where
  reply_line : Text → Incoming
  end_of_stream read_failed : Incoming

-- What wakes `watch`.
pub data Wake : Type 0 where
  incoming : Incoming → Wake
  ctrl_c : Wake

-- Clearing of the screen and cursor home.
abbrev pub clear : List Output
clear = stdout (27 ∷ ascii "[2J" ++ (27 ∷ ascii "[H")) ∷ []

-- The `match` of `print_reply`, on the reply that was parsed.
unfoldable pub print_parsed : Floats → Bool → Reply → List Output
unfolding print_snapshot
print_parsed floats refresh (snapshot s) =
    (if refresh then clear else []) ++ map println (print_snapshot floats s)
print_parsed floats refresh (version v) = println (ascii "daemon version: " ++ v) ∷ []
print_parsed floats refresh (error message) = eprintln (ascii "daemon error: " ++ message) ∷ []

-- The output of `print_reply`, or its error, from what was parsed.
unfoldable pub printed_or : Floats → Bool → Text → Result Reply Text → Result (List Output) Text
unfolding print_parsed
printed_or floats refresh line (ok reply) = ok (print_parsed floats refresh reply)
printed_or floats refresh line (err e) = err (ascii "parse IPC reply: " ++ line)

unfoldable pub print_reply :
    Floats → (Text → Result Reply Text) → Text → Bool → Result (List Output) Text
unfolding printed_or
print_reply floats from_str line refresh = printed_or floats refresh line (from_str line)

-- `write_request`, for the text of the request.
abbrev pub write_request : (Request → Text) → Request → Text
write_request to_string req = to_string req ++ (10 ∷ [])

-- The output of a reply and what is printed after it; an error ends the command.
abbrev pub or_failed : Result (List Output) Text → List Output × Ended → List Output × Ended
or_failed (ok out) (later, end) = (out ++ later, end)
or_failed (err e) later = ([], parse_error)

module _ (floats : Floats) (to_string : Request → Text) (from_str : Text → Result Reply Text) where
  -- The loop of `run_watch`.
  unfoldable pub watch_loop : List Wake → List Output × Ended
  unfolding print_reply
  watch_loop [] = ([], waiting)
  watch_loop (ctrl_c ∷ rest) = (println [] ∷ [], success)
  watch_loop (incoming end_of_stream ∷ rest) = ([], success)
  watch_loop (incoming read_failed ∷ rest) = ([], read_error)
  watch_loop (incoming (reply_line line) ∷ rest) =
      let later = watch_loop rest in or_failed (print_reply floats from_str line true) later

  unfoldable pub read_one : Incoming → List Output × Ended
  unfolding print_reply
  read_one end_of_stream = ([], success)
  read_one read_failed = ([], read_error)
  read_one (reply_line line) = or_failed (print_reply floats from_str line false) ([], success)

  -- A request on the socket, with what follows it; whether the connection and the writing succeed
  -- are arguments.
  unfoldable pub request : Request → Bool → Bool → List Output × Ended → Session
  request req connected wrote followed =
      if connected
      then (if wrote
          then record {
            written = write_request to_string req ∷ [];
            printed = followed.0;
            ended = followed.1;
          }
          else record { written = []; printed = []; ended = write_error })
      else record { written = []; printed = []; ended = connect_error }

  unfoldable pub run_status : Bool → Bool → Incoming → Session
  unfolding request read_one
  run_status connected wrote next = request ask_snapshot connected wrote (read_one next)

  unfoldable pub run_watch : Bool → Bool → List Wake → Session
  unfolding request watch_loop
  run_watch connected wrote wakes = request ask_subscribe connected wrote (watch_loop wakes)
