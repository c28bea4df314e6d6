-- ===== src/Relayer/Tests/World.antt =====
-- A chain whose world is the clock, in milliseconds.
use xrpl.Prelude.{ℕ, ◌+◌, true, [], none, some, arith, refl}
use xrpl.Js.Text.{lit}
use xrpl.Js.Outcome.{ok}
use xrpl.Js.Task.{Run}
use xrpl.Relayer.Chain.{Chain, Act}
use xrpl.Relayer.DaProof.Ends.{IsTimed}

abbrev pub chain : Chain ℕ
chain = record {
  account = lit "0xa";
  read_text = λ address name args w. (ok (lit "0xc"), w);
  read_uint = λ address name args w. (ok 90, w);
  read_bool = λ address name args w. (ok true, w);
  transaction_count = λ address tag w. (ok 7, w);
  estimate_fees = λ w. (ok (record { max_fee_per_gas = none; max_priority_fee_per_gas = none }), w);
  write_contract = λ tx w. (ok (lit "0xh"), w);
  receipt_of = λ hash w. (ok (record { status = lit "success"; block_number = 5 }), w);
  block_timestamp = λ block w. (ok 1000, w);
  post = λ url key body w. (
    ok (record {
      is_ok = true;
      status = 200;
      status_text = lit "OK";
      body = lit "{\"response_hex\":\"0x01\",\"abiEncodedRequest\":\"0x02\",\"proof\":[\"0x6\"]}";
    }),
    w,
  );
  get = λ url key w.
      (ok (record { is_ok = true; status = 200; status_text = lit "OK"; body = lit "[]" }), w);
  now = λ w. (ok w, w);
  sleep = λ ms w. (ok tt, w + ms);
  env = λ name. some (lit "k");
}

pub chain-IsTimed : IsTimed chain (λ w. w)
chain-IsTimed = record {
  now_reads = λ w. refl;
  sleep_passes = λ ms w. omega arith;
  read_goes_on = λ address function args w. omega arith;
}

abbrev pub fresh : Run ℕ Act
fresh = record { world = 0; acts = [] }
