-- ===== src/Matching/OutcomeLog.antt =====
-- fce-matching-engine/typescript/src/app/outcomeLog.ts: the private outcome log.
pub mod Bound
use xrpl.Prelude.{ℕ, ◌-◌, List, [], ◌∷◌, ◌++◌, length, drop, filter, ltb, if◌then◌else◌}
use xrpl.Js.Text.{Text, lit, same, to_lower_case}
use xrpl.Js.Number.{Number}

pub data Direction : Type 0 where
  buy sell : Direction

abbrev pub direction_text : Direction → Text
direction_text buy = lit "BUY"
direction_text sell = lit "SELL"

pub record OutcomeRecord : Type 0 where
  pub lead : Text
  pub timestamp : ℕ
  pub pnl_bps : Number
  pub direction : Direction
  pub size_pct : Number

abbrev pub Log : Type 0
Log = List OutcomeRecord

-- `MAX_ENTRIES`
abbrev pub max_entries : ℕ
max_entries = 10000

-- `push`, and `splice(0, log.length - MAX_ENTRIES)` where the log has grown too long.
unfoldable pub append_outcome : OutcomeRecord → Log → Log
append_outcome rec log =
    let pushed = log ++ rec ∷ [] in
    if ltb max_entries (length pushed) then drop (length pushed - max_entries) pushed else pushed

unfoldable pub get_outcomes_for_lead : Text → Log → Log
get_outcomes_for_lead lead log = filter (λ e. same (to_lower_case e.lead) (to_lower_case lead)) log

unfoldable pub get_all_outcomes : Log → Log
get_all_outcomes log = log

unfoldable pub clear_outcome_log : Log → Log
clear_outcome_log log = []
