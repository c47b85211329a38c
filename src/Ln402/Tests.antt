-- ===== src/Ln402/Tests.antt =====
-- btcsoq/ln402.ts against a provider with one open channel, whose state is what the payments made of
-- it, and a seller who answers.
use soqtec.Base.{
  ℕ, ◌≡◌, refl, true, Option, none, some, List, [], ◌∷◌, Text, text, Result, ok, err, if◌then◌else◌,
  ◌===◌, ===_refl, arith,
}
use soqtec.Base.Int.{ℤ, pos, negsuc}
use soqtec.Attestation.{number}
use soqtec.Ln402.{Ln402Config, Channel, Calls, Lsp, Client, LspAnswer, SellerAnswer, pay}
use soqtec.Ln402.Receipt.{SignedReceipt}
use soqtec.Ln402.Pays.{
  ClientOp, do_ask, do_pay, do_status, IsExactTrace, run_ops, run_ops-IsExactTrace,
}
use soqtec.Ln402.Race.{
  View, view_of, view_after, race, channel_view, run_laps, new_invoice, pay_lap, pay_invoice_fast,
}
use soqtec.Ln402.Calls.{send_pay, bump}
use soqtec.Ln402.View.{IsLedger, race-held}

-- The last payment is the state; at first the initiator has everything.
abbrev held : Calls → Text → View
held [] id = record { state_index = 0; initiator_bal = pos 100000; peer_bal = 0 }
held (pay req ∷ t) id =
    let rest = held t id in if req.channel_id === id then view_after req else rest
held (_ ∷ t) id = held t id

abbrev receipt : SignedReceipt
receipt = record {
  receipt = record {
    v = 1;
    invoice_id = text "inv";
    amount_sat = 333;
    model = text "m";
    request_sha256 = [];
    response_sha256 = [];
    prompt_tokens = 1;
    completion_tokens = 1;
    issued_at = number 5;
    seller_pub = text "ab";
  };
  sig = [];
}

abbrev seller : Option Text → SellerAnswer
seller none = record {
  status = 402;
  payment = some (record { invoice_id = text "inv"; amount_sat = 333; seller_pub = text "ab" });
  answer = [];
  model = none;
  receipt = none;
}
seller (some id) = record {
  status = 200;
  payment = none;
  answer = text "yes";
  model = none;
  receipt = some receipt;
}

-- The channel is shown while the initiator is not in debt.
abbrev channel_from : ℕ → ℤ → ℕ → Result Text Channel
channel_from index (negsuc n) peer = err (text "debt")
channel_from index (pos n) peer = ok (record {
  state = text "open";
  state_index = index;
  initiator_balance_sat = n;
  peer_balance_sat = peer;
})

abbrev channel_of : View → Result Text Channel
channel_of v = channel_from v.state_index v.initiator_bal v.peer_bal

abbrev opened : LspAnswer
opened = record { accepted = true; channel_id = some (text "c1"); reject_reason = [] }

abbrev env : Lsp
env = record {
  crypto = record { sha256 = λ m. []; ml_dsa44_verify = λ s d p. ok true };
  now = λ t. 1000;
  get_invoice = λ t id. ok (record { status = text "pending"; amount_sat = 333 });
  get_channel = λ t id. channel_of (held t id);
  faucet = λ t. ok opened;
  open_channel = λ t k a c. ok opened;
  create_invoice = λ t c n. ok (some (text "inv"));
  pay = λ t req. ok (record { accepted = true; channel_id = none; reject_reason = [] });
  seller = λ t id q u. ok (seller id);
  write_file = λ t s. ok tt;
}

abbrev config : Ln402Config
config = record {
  question = text "q";
  seller_url = text "u";
  channel_address = text "ssq1";
  channel_pubkey_hex = text "ab";
  channel_capacity_shors = 100000;
}

abbrev fresh : Client
fresh = record {
  channel = none;
  channel_file = err (text "ENOENT");
  payee = none;
  payee_file = err (text "ENOENT");
  calls = [];
}

abbrev ops : List ClientOp
ops = do_ask (text "q") (text "u") ∷ do_status (text "inv") ∷ do_pay (text "inv") ∷ []

run_ops-IsExactTrace_example : IsExactTrace env (run_ops env config ops fresh).calls
run_ops-IsExactTrace_example = run_ops-IsExactTrace env config ops fresh tt

shown :
    (index : ℕ) (bal : ℤ) (peer : ℕ) (ch : Channel)
    → channel_from index bal peer ≡ ok ch
    → view_of ch ≡ record { state_index = index; initiator_bal = bal; peer_bal = peer }
shown index (negsuc n) peer ch h = absurd (ground arith)
shown index (pos n) peer ch h = grind arith

ledger : IsLedger env held
ledger = record {
  shows = λ t id ch e.
      shown (held t id).state_index (held t id).initiator_bal (held t id).peer_bal ch e;
  applies = λ t req a e taken. rw (===_refl req.channel_id) refl;
  reads = λ t i id. refl;
  invoices = λ t i n id. refl;
}

abbrev last_view : View
last_view = record { state_index = 3; initiator_bal = pos 97000; peer_bal = 3000 }

race-held_example :
    last_view ≡ held (race env config 3 (text "c1") (text "c2") fresh).1.calls (text "c1")
unfolding race channel_view ◌===◌ run_laps new_invoice pay_lap pay_invoice_fast send_pay bump
race-held_example = race-held env config held ledger 3 (text "c1") (text "c2") last_view fresh refl
