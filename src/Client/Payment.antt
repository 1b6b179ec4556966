-- ===== src/Client/Payment.antt =====
-- How the local node makes the voucher of a payment
-- (guillotine-local-node/express/src/payments/payPaymentRequest.js).
pub mod Refused
use Prim.Native.String.{String}
use guillotine.Base.{ℕ, List, Option, none, some, Bytes, Result, ◌>>=◌, ok_or, ◌==◌, if◌then◌else◌}
use guillotine.Client.{slot, oracle_block, no_redeem_before_block}
use guillotine.Client.Packing.{Hex, VoucherData, digits, Toolkit, pack_and_sign_voucher}

-- The session that the caller passes, as far as it is read.
pub record SessionInfo : Type 0 where
  pub self_pubkey : Hex
  pub sesh : ℕ
  pub difficulty : ℕ
  pub price_list_commit : Hex

-- The constants of the module, and library calls: `blake2AsHex` of `JSON.stringify` of a price
-- list, `blake2AsHex` twice, and `parseInt(nonce, 16)`.
pub record Surroundings : Type 0 where
  pub self_pubkey : Hex
  pub remote_pubkey : Hex
  pub sesh : ℕ
  pub default_commit : Hex
  pub double_blake2 : String → Hex
  pub parse_int : Hex → ℕ

-- The default of the parameter `session`.
unfoldable pub session_or_default : Surroundings → Option SessionInfo → SessionInfo
session_or_default W (some session) = session
session_or_default W none = record {
  self_pubkey = W.self_pubkey;
  sesh = W.sesh;
  difficulty = 5000;
  price_list_commit = W.default_commit;
}

-- `paymentRequest.amountRequested || 12345`
unfoldable pub amount_or_default : Option ℕ → ℕ
amount_or_default none = 12345
amount_or_default (some n) = if n == 0 then 12345 else n

-- `cache || {url:'http:/blah.bla'}`
unfoldable pub url_or_default : Option String → String
url_or_default none = "http:/blah.bla"
url_or_default (some url) = url

-- `voucherData`. Its recipient is the constant of the module, whatever the session.
unfoldable pub voucher_data : Surroundings → SessionInfo → ℕ → String → List ℕ → VoucherData
voucher_data W session amount url current_block =
    let nonce = W.double_blake2 url in
    record {
      oracle_block = oracle_block current_block (slot session.sesh (W.parse_int nonce));
      difficulty = session.difficulty;
      no_redeem_before_block = digits (no_redeem_before_block current_block);
      value_if_paid = amount;
      price_list_commit = session.price_list_commit;
      sender_pub_key = session.self_pubkey;
      recipient_pub_key = W.remote_pubkey;
      nonce = nonce;
    }

-- `payPaymentRequest`, up to the voucher, which it logs; it returns nothing. The number of the
-- head block is a text of decimal digits, or `none` where it cannot be fetched.
unfoldable pub pay_payment_request :
    Toolkit
    → Surroundings
    → Option SessionInfo
    → Option ℕ
    → Option String
    → Option (List ℕ)
    → Result String Bytes
pay_payment_request T W session amount url head = do
  current_block ← ok_or head "fetch failed"
  let d =
      voucher_data W (session_or_default W session) (amount_or_default amount) (url_or_default url)
        current_block
  pack_and_sign_voucher T d "sr25519"
