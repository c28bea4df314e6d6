-- ===== src/Relayer/Fdc/Gate.antt =====
-- fdc.ts: attestationGate, which lets one request of the process run at a time, as `serialize` does in
-- the server.
use xrpl.Prelude.{ℕ, ◌≡◌, List, [], Option, some, map}
use xrpl.Js.Text.{Text}
use xrpl.Js.Outcome.{Outcome}
use xrpl.Base.Queue.{Job, Event, called, started, ended, Queue, steps}
use xrpl.Base.Queue.Order.{InOrder, steps-InOrder}
use xrpl.Base.Queue.Drain.{Drains, steps-drain}
use xrpl.Relayer.Chain.{Chain}
use xrpl.Relayer.Fdc.{Submitted, request_attestation}

-- What happens at the gate: a call with a request, and the start and the end of the i-th run.
pub data GateEvent : Type 0 where
  asked : Text → GateEvent
  run_started : ℕ → GateEvent
  run_ended : ℕ → GateEvent

module _ {W : Type 0} (c : Chain W) where
  -- `run`
  unfoldable pub request_job : Text → Job W (Outcome Submitted)
  request_job request w =
      let out = request_attestation c request (record { world = w; acts = [] }) in
      (out.0, out.1.world)

  unfoldable pub event_of : GateEvent → Event W (Outcome Submitted)
  event_of (asked request) = called (request_job request)
  event_of (run_started i) = started i
  event_of (run_ended i) = ended i

  -- The gate of a process that has just been started.
  unfoldable pub attestation_gate : W → Queue W (Outcome Submitted)
  attestation_gate w = record { calls = []; state = w }

  -- The calls that a sequence of events leaves; `none` where it cannot happen.
  unfoldable pub gated : List GateEvent → W → Option (Queue W (Outcome Submitted))
  gated es w = steps (map event_of es) (attestation_gate w)

  -- The runs that have settled did so one after the other, and what is left can settle after them, each
  -- on the world that the run before has left.
  pub gated-InOrder :
      (es : List GateEvent) (w : W) (q : Queue W (Outcome Submitted))
      → gated es w ≡ some q
      → InOrder w q.calls q.state × Drains w q
  unfolding gated attestation_gate
  gated-InOrder es w q h =
      (steps-InOrder (map event_of es) w q h, steps-drain (map event_of es) w q h)
