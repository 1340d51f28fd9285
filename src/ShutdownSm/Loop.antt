-- ===== src/ShutdownSm/Loop.antt =====
-- The task around the shutdown state machine (src/shutdown_sm.rs).
use web3_pi_ups_service.Prelude.{
  ◌≡◌, ◌⊎◌, inl, inr, refl, sym, ap, ◌∙◌, Bool, true, false, List, [], ◌∷◌, ◌++◌, All, All-append,
  append-nil, append_assoc,
}
use web3_pi_ups_service.Config.{BatteryConfig, ShutdownConfig}
use web3_pi_ups_service.State.{State}
use web3_pi_ups_service.World.{Env, Effect}
use web3_pi_ups_service.ShutdownSm.{step}
use web3_pi_ups_service.ShutdownSm.Countdown.{
  Input, tick, power, power_event, net, hello, host_sample, seq, apply,
}
use web3_pi_ups_service.ShutdownSm.Decisions.{IsShutdown, IsSend, step-Permitted}

module _ (battery : BatteryConfig) (shutdown : ShutdownConfig) where
  -- The loop among the writes of the other tasks. Once a step has initiated shutdown, the task
  -- waits for ever: `waits` says that it does, and a tick then does nothing.
  unfoldable pub shutdown_sm_loop : List Input → Bool → State → State × List Effect
  shutdown_sm_loop [] waits s = (s, [])
  shutdown_sm_loop (tick env ∷ is) true s = shutdown_sm_loop is true s
  shutdown_sm_loop (tick env ∷ is) false s =
      let o = step env battery shutdown s in
      let rest = shutdown_sm_loop is o.initiated o.state in (rest.0, o.effects ++ rest.1)
  shutdown_sm_loop (i ∷ is) waits s = shutdown_sm_loop is waits (apply battery shutdown i s)

  waiting_silent : (is : List Input) (s : State) → (shutdown_sm_loop is true s).1 ≡ []
  unfolding shutdown_sm_loop
  waiting_silent [] s = refl
  waiting_silent (tick env ∷ is) s = waiting_silent is s
  waiting_silent (power now p ∷ is) s = waiting_silent is _
  waiting_silent (power_event now e ∷ is) s = waiting_silent is _
  waiting_silent (net now n ∷ is) s = waiting_silent is _
  waiting_silent (hello src h ∷ is) s = waiting_silent is _
  waiting_silent (host_sample now m ∷ is) s = waiting_silent is _
  waiting_silent (seq dst ∷ is) s = waiting_silent is _

  -- Frames only, or frames and then one attempt to shut down, with nothing behind it.
  abbrev pub IsOneShutdown : List Effect → Type 0
  IsOneShutdown effects =
      All IsSend effects
      ⊎ ((front last : List Effect) × (env : Env) × (effects ≡ front ++ last)
          × All IsSend front
          × IsShutdown env shutdown last)

  sends-IsOneShutdown :
      (front effects : List Effect)
      → All IsSend front
      → IsOneShutdown effects
      → IsOneShutdown (front ++ effects)
  sends-IsOneShutdown front effects a (inl b) = inl (All-append IsSend front effects a b)
  sends-IsOneShutdown front effects a (inr (xs, last, env, e, b, c)) = inr (
    front ++ xs,
    last,
    env,
    ap (λ t. front ++ t) e ∙ sym (append_assoc front xs last),
    All-append IsSend front xs a b,
    c,
  )

  -- Whatever the other tasks write in between, the task attempts to shut down at most once, and it
  -- neither sends nor starts anything after that.
  pub shutdown_sm_loop-IsOneShutdown :
      (is : List Input) (s : State) → IsOneShutdown (shutdown_sm_loop is false s).1
  unfolding shutdown_sm_loop
  shutdown_sm_loop-IsOneShutdown [] s = inl tt
  shutdown_sm_loop-IsOneShutdown (tick env ∷ is) s =
      let o = step env battery shutdown s in
      elim (step-Permitted env battery shutdown s) [
        | inl (begun, over) ↦
            rw (begun, waiting_silent is o.state, append-nil o.effects)
              (inr ([], o.effects, env, refl, tt, over))
        | inr (not_yet, sends) ↦ rw not_yet (
            sends-IsOneShutdown o.effects (shutdown_sm_loop is false o.state).1 sends
              (shutdown_sm_loop-IsOneShutdown is o.state))
      ]
  shutdown_sm_loop-IsOneShutdown (power now p ∷ is) s = shutdown_sm_loop-IsOneShutdown is _
  shutdown_sm_loop-IsOneShutdown (power_event now e ∷ is) s = shutdown_sm_loop-IsOneShutdown is _
  shutdown_sm_loop-IsOneShutdown (net now n ∷ is) s = shutdown_sm_loop-IsOneShutdown is _
  shutdown_sm_loop-IsOneShutdown (hello src h ∷ is) s = shutdown_sm_loop-IsOneShutdown is _
  shutdown_sm_loop-IsOneShutdown (host_sample now m ∷ is) s = shutdown_sm_loop-IsOneShutdown is _
  shutdown_sm_loop-IsOneShutdown (seq dst ∷ is) s = shutdown_sm_loop-IsOneShutdown is _
