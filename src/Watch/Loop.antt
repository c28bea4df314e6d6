-- ===== src/Watch/Loop.antt =====
-- scripts/ai-agent/drift-monitor.ts and health-monitor.ts: the loop of cycles that both run, on fuel.
pub mod Ends
use xrpl.Prelude.{ℕ, zero, suc, ◌+◌, Bool, true, false, ◌&&◌}
use xrpl.Js.Text.{Text}
use xrpl.Js.Number.{Number, of_ℕ, lt, le}
use xrpl.Js.Outcome.{Outcome}
use xrpl.Js.Task.{Run, Task, ◌>>=◌, ◌>>◌, pure, perform}

pub data WatchAct : Type 0 where
  alerted : (kind lead message : Text) → WatchAct
  asked_pool : Text → WatchAct
  slept : WatchAct

-- `maxCycles > 0 && i >= maxCycles`
unfoldable pub is_last : Number → ℕ → Bool
unfolding lt le
is_last max_cycles i = lt (of_ℕ 0) max_cycles && le max_cycles (of_ℕ i)

module _ {W : Type 0} (cycle : ℕ → Task W WatchAct (Unit {0})) (sleep : W → Outcome (Unit {0}) × W)
    (max_cycles : Number) where
  -- The cycles from the `i`-th on; `false` is that the fuel ran out.
  unfoldable pub run_cycles : ℕ → ℕ → Task W WatchAct Bool
  run_cycles zero i = pure false
  run_cycles (suc n) i = do
    cycle i
    elim (is_last max_cycles (i + 1)) [
      | true ↦ pure true
      | false ↦ perform (λ _. slept) sleep >> run_cycles n (i + 1)
    ]
