-- ===== src/Relayer/Tests/Execution.antt =====
-- An attested payment on a controller, and the run of a payment.
use xrpl.Prelude.{ℕ, ◌≡◌, refl, true, List, [], ◌∷◌, none}
use xrpl.Js.Text.{lit, same, is_empty}
use xrpl.Js.Number.{of_ℕ}
use xrpl.Js.BigInt.{pos}
use xrpl.Js.Json.{str, obj, field, end}
use xrpl.Js.Outcome.{Outcome, ok, throw, external}
use xrpl.Js.Task.{Run, ◌>>=◌, pure, raise, perform, catch}
use xrpl.Js.Task.Acts.{EachAct}
use xrpl.Js.Task.Returns.{Returns-of}
use xrpl.Relayer.Chain.{Act}
use xrpl.Relayer.Abi.{
  names, positions, named, position, by_name, by_position, pick, to_big, to_num, to_bool,
}
use xrpl.Relayer.Payment.{to_payment_proof_arg, request_body_of, response_body_of}
use xrpl.Relayer.Payment.Shapes.{Payment, decoded, argument_of, to_payment_proof_arg-decoded}
use xrpl.Relayer.Fdc.{registry_address}
use xrpl.Relayer.Attest.{PaymentProof, resolve_master_account_controller}
use xrpl.Relayer.Operator.{
  Mac, Executed, operator_key, instruction_fee, value_for, personal_account_of, execute_now,
  execution_of, execute_instruction_on_mac,
}
use xrpl.Relayer.Operator.Executes.{
  IsFor, HowExecuted, execute_instruction_on_mac-IsFor, execute_instruction_on_mac-Returns,
}
use xrpl.Relayer.Monitor.{PaymentStatus}
use xrpl.Relayer.Monitor.Run.{RunAct, Services, run_process_payment}
use xrpl.Relayer.Monitor.Run.Statuses.{Course, asked_for, run_process_payment-Course}
use xrpl.Relayer.Tests.World.{chain, fresh}

abbrev pub payment : Payment
payment = record {
  attestation_type = lit "0x50";
  source_id = lit "0x51";
  voting_round = pos 10;
  lowest_used_timestamp = pos 900;
  transaction_id = lit "0xab";
  in_utxo = pos 0;
  utxo = pos 0;
  block_number = pos 5;
  block_timestamp = pos 1000;
  source_address_hash = lit "0x1";
  source_addresses_root = lit "0x2";
  receiving_address_hash = lit "0x3";
  intended_receiving_address_hash = lit "0x4";
  spent_amount = pos 100;
  intended_spent_amount = pos 100;
  received_amount = pos 99;
  intended_received_amount = pos 99;
  standard_payment_reference = lit "0x5";
  one_to_one = true;
  status = of_ℕ 0;
}

to_payment_proof_arg-decoded_example :
    to_payment_proof_arg (decoded positions payment) ≡ ok (argument_of payment)
to_payment_proof_arg-decoded_example = to_payment_proof_arg-decoded positions payment

abbrev proof : PaymentProof
proof = record {
  merkle_proof = str (lit "0x6") ∷ [];
  payment = decoded names payment;
  response_hex = lit "0x7";
  round_id = of_ℕ 10;
  abi_encoded_request = lit "0x02";
}

abbrev pub mac : Mac ℕ
mac = record {
  simulate = λ x w. (ok none, w);
  execute = λ x w. (ok (lit "0xe"), w);
  decode_error = λ t. throw (external (lit "unknown"));
}

execute_instruction_on_mac-IsFor_example :
    EachAct (IsFor proof (lit "rA")) (execute_instruction_on_mac chain mac proof (lit "rA"))
execute_instruction_on_mac-IsFor_example =
    execute_instruction_on_mac-IsFor chain mac proof (lit "rA")

abbrev pub executed_it : Executed
executed_it = record { hash = lit "0xe"; personal_account = lit "0xc" }

returned : (execute_instruction_on_mac chain mac proof (lit "rA") fresh).0 ≡ ok executed_it
unfolding execute_instruction_on_mac execution_of operator_key resolve_master_account_controller
    registry_address instruction_fee value_for execute_now personal_account_of to_payment_proof_arg
    request_body_of response_body_of decoded pick named position by_name by_position same is_empty
    to_big to_num to_bool ◌>>=◌ pure raise perform catch
returned = refl

execute_instruction_on_mac-Returns_example :
    (before : List Act) × HowExecuted chain mac proof
      (lit "rA")
      executed_it
      before
      (execute_instruction_on_mac chain mac proof (lit "rA") fresh).1.acts
execute_instruction_on_mac-Returns_example =
    execute_instruction_on_mac-Returns chain mac proof (lit "rA") fresh
      (execute_instruction_on_mac chain mac proof (lit "rA") fresh).1 executed_it
      (Returns-of (execute_instruction_on_mac chain mac proof (lit "rA")) fresh executed_it
        returned)

abbrev services : Services ℕ
services = record {
  attest = λ tx w. (ok proof, w);
  execute = λ p address w. (ok executed_it, w);
  read_config = λ w. (
    ok (obj (field (lit "contracts") (obj (field (lit "mirrorVault") (str (lit "0xv")) end)) end)),
    w,
  );
  get_address = λ v. ok (lit "0xv");
  address_of_text = λ t. ok t;
  vault_balance = λ vault account lead w. (ok 0, w);
  wording = λ e. lit "error";
}

abbrev onboarding : Outcome PaymentStatus × Run ℕ RunAct
onboarding =
    run_process_payment services (lit "rA") (lit "ab") none (lit "now")
      (record { world = 0; acts = [] })

run_process_payment-Course_example :
    Course services.wording
      (asked_for (lit "rA") (lit "ab") (lit "now"))
      onboarding.0
      onboarding.1.acts
run_process_payment-Course_example =
    run_process_payment-Course services (lit "rA") (lit "ab") (lit "now") none 0
