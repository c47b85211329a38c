-- ===== src/Ln402/Receipt.antt =====
-- btcsoq/ln402.ts, `verifyReceipt`: the check of a seller's receipt. JSON.stringify is written out;
-- the hash and the ML-DSA-44 check are parameters, and the check may throw.
use soqtec.Base.{
  ℕ, ◌≡◌, ap, ◌∙◌, subst, Bool, true, false, ◌||◌, not, List, [], ◌∷◌, Text, text, Result, ok, err,
  ◌==◌, ◌===◌, ===_iff, if◌then◌else◌, Result-cases, inl, inr, arith,
}
use soqtec.Attestation.{DetailValue, json_object, json_field, json_value, json_string, decimal}
use soqtec.Receipt.Bytes.{from_hex}

pub record SellerReceipt : Type 0 where
  pub v : ℕ
  pub invoice_id : Text
  pub amount_sat : ℕ
  pub model : Text
  pub request_sha256 : Text
  pub response_sha256 : Text
  pub prompt_tokens : ℕ
  pub completion_tokens : ℕ
  pub issued_at : DetailValue
  pub seller_pub : Text

pub record SignedReceipt : Type 0 where
  pub receipt : SellerReceipt
  pub sig : Text

pub record Crypto : Type 0 where
  pub sha256 : List ℕ → List ℕ
  pub ml_dsa44_verify : List ℕ → List ℕ → List ℕ → Result Text Bool

unfoldable pub canonical : SellerReceipt → Text
canonical r = json_object (
    json_field (text "v") (decimal r.v)
    ∷ json_field (text "invoice_id") (json_string r.invoice_id)
    ∷ json_field (text "amount_sat") (decimal r.amount_sat)
    ∷ json_field (text "model") (json_string r.model)
    ∷ json_field (text "request_sha256") (json_string r.request_sha256)
    ∷ json_field (text "response_sha256") (json_string r.response_sha256)
    ∷ json_field (text "prompt_tokens") (decimal r.prompt_tokens)
    ∷ json_field (text "completion_tokens") (decimal r.completion_tokens)
    ∷ json_field (text "issued_at") (json_value r.issued_at)
    ∷ json_field (text "seller_pub") (json_string r.seller_pub)
    ∷ [])

-- A check that throws is a check that fails.
abbrev passes : Result Text Bool → Bool
passes (err message) = false
passes (ok b) = b

unfoldable pub verify_receipt : Crypto → SignedReceipt → Text → Bool
verify_receipt crypto signed expected =
    let r = signed.receipt in
    if not (r.v == 1) || not (r.seller_pub === expected)
    then false
    else passes (
        crypto.ml_dsa44_verify (from_hex signed.sig) (crypto.sha256 (canonical r))
          (from_hex r.seller_pub))

-- A receipt that passes the check is of version 1, names the seller that was expected, and carries a
-- signature that ML-DSA-44 accepts, under this seller's key, for the hash of its canonical text.
pub verify_receipt_lem :
    (crypto : Crypto) (signed : SignedReceipt) (expected : Text)
    → verify_receipt crypto signed expected ≡ true
    → (signed.receipt.v ≡ 1)
      × (signed.receipt.seller_pub ≡ expected)
      × (crypto.ml_dsa44_verify
            (from_hex signed.sig)
            (crypto.sha256 (canonical signed.receipt))
            (from_hex expected)
          ≡ ok true)
unfolding verify_receipt
verify_receipt_lem crypto signed expected h =
    let r = signed.receipt in
    let check = λ (key : Text).
      crypto.ml_dsa44_verify (from_hex signed.sig) (crypto.sha256 (canonical r)) (from_hex key) in
    elim (Result-cases (check r.seller_pub)) [
      | inr (message, e) ↦ absurd (grind arith)
      | inl (answer, e) ↦
          let version : r.v ≡ 1 = grind arith in
          let seller : r.seller_pub ≡ expected = (===_iff r.seller_pub expected).0 (grind arith) in
          let accepted : answer ≡ true = grind arith in
          (version, seller, subst (λ key. check key ≡ ok true) seller (e ∙ ap ok accepted))
    ]
