-- ===== src/Relayer/Tests/Onboarded.antt =====
-- A whole run of a payment on the chain of World, from the request for its attestation on.
use xrpl.Prelude.{ℕ, ◌≡◌, refl, false, [], none}
use xrpl.Js.Text.{lit, same, is_empty, starts_with}
use xrpl.Js.Number.{round}
use xrpl.Js.Json.{str, obj, field, end, property, lookup}
use xrpl.Js.Outcome.{ok}
use xrpl.Js.Task.{Run, ◌>>=◌, pure, raise, perform, catch, outcome}
use xrpl.Js.Task.Returns.{Returns-of}
use xrpl.Relayer.Chain.{Act}
use xrpl.Relayer.Abi.{names, named, position, by_name, by_position, pick, to_big, to_num, to_bool}
use xrpl.Relayer.Monitor.{PaymentStatus, requesting}
use xrpl.Relayer.Monitor.Run.{RunAct, minting, active, run_process_payment}
use xrpl.Relayer.Payment.Shapes.{decoded}
use xrpl.Relayer.Onboarding.{Vault, services, onboard}
use xrpl.Js.Json.Parse.{parse}
use xrpl.Js.BigInt.{number_of, minus, over, big_int}
use xrpl.Base.Server.{truthy}
use xrpl.Relayer.Wire.{prepare_payment_request, with_0x}
use xrpl.Relayer.Fdc.{
  request_attestation, send_request, settle_round, registry_address, count_transactions,
  wait_for_nonce, attempt, submit, estimate, system_uint, round_of, first_bid, request_of,
}
use xrpl.Relayer.DaProof.{
  has_response, response_of, merkle_of, await_final, poll, fetch_proof, wait_for_da_proof,
}
use xrpl.Relayer.EvmTx.{decode_response}
use xrpl.Relayer.Attest.{
  clients_from_env, prepare_until, finish_payment, attest_xrpl_payment,
  resolve_master_account_controller,
}
use xrpl.Relayer.Payment.{to_payment_proof_arg, request_body_of, response_body_of}
use xrpl.Relayer.Operator.{
  operator_key, instruction_fee, value_for, personal_account_of, execute_now, execution_of,
  execute_instruction_on_mac,
}
use xrpl.Relayer.Monitor.Run.{persist_status, check_vault}
use xrpl.Relayer.Onboarding.Active.{IsOnboarded, onboard-IsOnboarded}
use xrpl.Relayer.Tests.World.{chain, fresh}
use xrpl.Relayer.Tests.Execution.{payment, mac, executed_it}

abbrev vault : Vault ℕ
vault = record {
  read_config = λ w. (
    ok (obj (field (lit "contracts") (obj (field (lit "mirrorVault") (str (lit "0xv")) end)) end)),
    w,
  );
  get_address = λ t. ok (lit "0xv");
  address_of_text = λ t. ok t;
  balance = λ vault account lead w. (ok 0, w);
  wording = λ e. lit "error";
  decode = λ hex. ok (decoded names payment);
}

abbrev start : Run (Run ℕ Act) RunAct
start = record { world = fresh; acts = [] }

abbrev onboarded : PaymentStatus
onboarded =
    active (minting (requesting (lit "rA") (lit "ab") (lit "now")) (round false 10 1)) executed_it 0

returned : (onboard chain mac vault (lit "rA") (lit "ab") none (lit "now") start).0 ≡ ok onboarded
unfolding onboard run_process_payment services persist_status attest_xrpl_payment clients_from_env
    prepare_until prepare_payment_request parse truthy property lookup same is_empty
    request_attestation send_request settle_round registry_address count_transactions wait_for_nonce
    attempt submit estimate system_uint round_of first_bid request_of number_of minus over big_int
    wait_for_da_proof await_final fetch_proof poll has_response response_of merkle_of finish_payment
    decode_response decoded starts_with with_0x execute_instruction_on_mac execution_of operator_key
    resolve_master_account_controller instruction_fee value_for execute_now personal_account_of
    to_payment_proof_arg request_body_of response_body_of pick named position by_name by_position
    to_big to_num to_bool check_vault ◌>>=◌ pure raise perform catch outcome
returned = refl

onboard-IsOnboarded_example : IsOnboarded chain mac vault (lit "rA") (lit "ab") fresh onboarded
onboard-IsOnboarded_example =
    onboard-IsOnboarded chain mac vault (lit "rA") (lit "ab") (lit "now") none start
      (onboard chain mac vault (lit "rA") (lit "ab") none (lit "now") start).1 onboarded
      (Returns-of (onboard chain mac vault (lit "rA") (lit "ab") none (lit "now")) start onboarded
        returned)
