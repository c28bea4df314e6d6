-- ===== src/Base/Server/Echoes.antt =====
-- server.ts: the answer that echoes the result of a handler.
use xrpl.Prelude.{◌≡◌, refl, ℕ, zero, suc, Option, some, none, arith, if◌then◌else◌, ◌==◌}
use xrpl.Js.Text.{Text, lit}
use xrpl.Js.Outcome.{Outcome, ok, throw}
use xrpl.Js.Json.{Json}
use xrpl.Base.Framework.{HandlerResult, Failure, LogLine, failed, done, pending}
use xrpl.Base.Server.{Reply, result, Request, answered, log_line, answer}

-- The line of the log: an error for 0, `ok` for 1, and `pending` for the rest.
abbrev pub logged : ℕ → Option Failure → LogLine
logged zero e = failed e
logged (suc zero) e = done
logged (suc (suc n)) e = pending

-- The answer with status 200 that echoes a result, or what was thrown.
abbrev pub echoed :
    (version : Text) (id submission_tag : Option Json) (op_type : Json) (op_command : Option Json)
    → Outcome HandlerResult
    → Outcome Reply
echoed version id submission_tag op_type op_command (throw e) = throw e
echoed version id submission_tag op_type op_command (ok r) = ok (record {
  status = 200;
  body = result (record {
    id = id;
    submission_tag = submission_tag;
    status = r.status;
    log = logged r.status r.error;
    op_type = op_type;
    op_command = op_command;
    additional_result_status = lit "0x";
    version = version;
    payload = elim r.payload [ none ↦ lit "0x" | some t ↦ t ];
  });
})

log_line_lem : (r : HandlerResult) → log_line r ≡ logged r.status r.error
log_line_lem r = at_status r.status
  where
    at_status :
        (n : ℕ)
        → (if n == 0 then failed r.error else if n == 1 then done else pending) ≡ logged n r.error
    at_status zero = refl
    at_status (suc zero) = refl
    at_status (suc (suc n)) = ground arith

pub answered-echoed :
    {S : Type 0} (version : Text) (q : Request S) (out : Outcome HandlerResult)
    → answered version q out ≡ echoed version q.id q.submission_tag q.op_type q.op_command out
unfolding answer
answered-echoed version q (throw e) = refl
answered-echoed version q (ok r) = ground (arith, log_line_lem r)
