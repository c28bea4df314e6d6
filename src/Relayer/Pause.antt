-- ===== src/Relayer/Pause.antt =====
-- scripts/relayer/pause-stale-matching-tee.ts: the stale machine is paused, and the live one stays.
pub mod Safe
use xrpl.Prelude.{ℕ, Bool, true, false, not, ◌||◌, List, [], ◌∷◌, ◌++◌, Option, none, some, map}
use xrpl.Js.Text.{Text, lit, same, is_empty, to_lower_case}
use xrpl.Js.Outcome.{Outcome, ok, throw, message}
use xrpl.Js.Task.{Run, Task, ◌>>=◌, ◌>>◌, pure, raise, perform, lift}

abbrev pub live_tee : Text
live_tee = lit "0xcC9c254C7aBF94A1654926B5fe4785861491Aff3"

abbrev pub stale_tee : Text
stale_tee = lit "0xd35Ee5Cc9e2a0fbbaFd3DCd754304ed3E9eEC4f0"

-- The registry of machines.
pub record Machines (W : Type 0) : Type 0 where
  pub env : Text → Option Text
  -- the addresses of `getActiveTeeMachines`
  pub active_machines : W → Outcome (List Text) × W
  -- the transaction of `pause`
  pub pause : Text → W → Outcome Text × W
  -- the status of a receipt
  pub receipt_status : Text → W → Outcome Text × W

pub data PauseAct : Type 0 where
  listed : Outcome (List Text) → PauseAct
  paused : Text → PauseAct
  awaited : Text → PauseAct

-- `ids.includes(id)`, in lower case
unfoldable pub has_machine : Text → List Text → Bool
has_machine id [] = false
has_machine id (a ∷ ids) = same (to_lower_case a) (to_lower_case id) || has_machine id ids

abbrev key_or_throw : Option Text → Outcome Text
key_or_throw none = throw (message (lit "missing deployer key"))
key_or_throw (some pk) = elim (is_empty pk) [
  | true ↦ throw (message (lit "missing deployer key"))
  | false ↦ ok pk
]

module _ {W : Type 0} (h : Machines W) where
  unfoldable pub list_machines : Task W PauseAct (List Text)
  list_machines = perform listed h.active_machines

  -- What is checked behind the transaction.
  unfoldable pub check_after : List Text → Task W PauseAct (Unit {0})
  check_after ids = elim (has_machine stale_tee ids) [
    | true ↦ raise (message (lit "stale still active after pause"))
    | false ↦ elim (has_machine live_tee ids) [
      | true ↦ pure tt
      | false ↦ raise (message (lit "live tee missing after pause"))
    ]
  ]

  unfoldable pub pause_now : Task W PauseAct (Unit {0})
  pause_now = do
    hash ← perform (λ _. paused stale_tee) (h.pause stale_tee)
    status ← perform (λ _. awaited hash) (h.receipt_status hash)
    elim (same status (lit "success")) [
      | false ↦ raise (message (lit "pause reverted"))
      | true ↦ list_machines >>= check_after
    ]

  unfoldable pub pause_if_stale : List Text → Task W PauseAct (Unit {0})
  pause_if_stale ids = elim (has_machine live_tee ids) [
    | false ↦ raise (
        message
          (lit "live tee " ++ live_tee ++ lit " is not active " ++ 0x2014 ∷ lit " do not pause"))
    | true ↦ elim (has_machine stale_tee ids) [ false ↦ pure tt | true ↦ pause_now ]
  ]

  -- `main`
  unfoldable pub pause_stale : Task W PauseAct (Unit {0})
  pause_stale = do
    lift (key_or_throw (h.env (lit "DEPLOYER_PRIVATE_KEY")))
    ids ← list_machines
    pause_if_stale ids
