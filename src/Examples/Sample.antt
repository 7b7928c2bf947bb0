-- ===== src/Examples/Sample.antt =====
-- A daemon with one configured asset, an intent in its queue, and the world of one call.
use spellbook.Prelude.{none, some, List, [], ◌∷◌, true}
use spellbook.Policy.{Policy}
use spellbook.Daemon.Data.{Params, Config, Daemon, World, Outcome, Item, Value, Leg}
use spellbook.Daemon.Handle.{Request, queue_approve}
use spellbook.Daemon.Spend.{Fields}

-- 4 units may leave on the policy's word, 10 in one spend and 12 in a day.
abbrev pub small_policy : Policy
small_policy = record {
  per_spend_cap = (("evm-1", "native"), 10) ∷ [];
  approval_threshold = [];
  auto_approve_below = (("evm-1", "native"), 4) ∷ [];
  daily_velocity_cap = (("evm-1", "native"), 12) ∷ [];
  destination_allowlist = (("evm-1", "native"), "0xa" ∷ []) ∷ [];
}

abbrev pub config : Config
config = record {
  request_token = 1 ∷ 2 ∷ [];
  approve_token = 3 ∷ 4 ∷ [];
  allowed_request_uids = some (1000 ∷ []);
  allowed_approve_uids = some (1001 ∷ []);
  solana_network = "devnet";
}

abbrev pub held : Item
held = record {
  params = Params.did_transfer "chia-mainnet" 5 ("abc" ∷ []);
  muse_id = "muse";
  queued_at = 99000;
}

abbrev pub daemon : Daemon
daemon = record {
  cfg = config;
  policy = small_policy;
  queue = (1, held) ∷ [];
  next_qid = 2;
  queue_file = some (2, (1, held) ∷ []);
  velocity = record { ts = 99000; chain = "evm-1"; asset = "native"; amount = 9 } ∷ [];
  velocity_file = record { ts = 99000; chain = "evm-1"; asset = "native"; amount = 9 } ∷ [];
  ledger = [];
}

-- Every execution submits a transaction.
abbrev pub world : World
world = record {
  now = 100000;
  lag = λ c a. 1;
  digest = λ p. "digest";
  digest_redacted = λ r. "redacted";
  execute = λ p. Outcome.done (record { submitted = true; tx_hash = "0x1"; offer_id = none });
}

abbrev pub spend_three : Fields
spend_three =
    ("chain", Value.text "evm-1")
    ∷ ("destination", Value.text "0xa")
    ∷ ("amount_wei", Value.int 3)
    ∷ []

-- The requester asks for an approval.
abbrev pub forged : Request
forged = record {
  token = some (1 ∷ 2 ∷ []);
  muse_id = "muse";
  peer_uid = some 1000;
  call = queue_approve (some 1);
}

abbrev pub offer_legs : List Leg
offer_legs =
    record { asset = "native"; amount_mojos = 3 } ∷ record { asset = "ab"; amount_mojos = 2 } ∷ []
