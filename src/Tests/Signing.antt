-- ===== src/Tests/Signing.antt =====
-- Two signatures of the same contract call, with a text for one byte.
use inazuma_core.Base.{ℕ, ◌≡◌, refl, ap, true, some, List, [], ◌∷◌, arith}
use inazuma_core.Transactions.{Transaction}
use inazuma_core.Signing.{canonical_signing_bytes}
use inazuma_core.Signing.Unambiguous.{Fits, canonical_signing_bytes-injective}
use inazuma_core.Tests.Execution.{spend_tx}

abbrev one_byte : ℕ → List ℕ
one_byte t = t ∷ []

abbrev first_of : List ℕ → ℕ
first_of [] = 0
first_of (b ∷ bs) = b

abbrev with_payload : Transaction
with_payload = record spend_tx {
  payload = some (record {
    token = 1;
    symbol = 2;
    name = 3;
    decimals = 9;
    mintable = true;
    code = 4;
    args = 5;
  });
}

abbrev signed_again : Transaction
signed_again = record with_payload { signature = 77 }

fits : Fits one_byte with_payload
fits = record {
  chain_id = omega arith;
  from_pubkey = omega arith;
  to = omega arith;
  amount = omega arith;
  fee = omega arith;
  nonce = omega arith;
  payload = (omega arith, omega arith, omega arith, omega arith, omega arith);
  shielded = (
    omega arith,
    (omega arith, (omega arith, tt)),
    omega arith,
    (omega arith, (omega arith, tt)),
    omega arith,
    omega arith,
    omega arith,
  );
}

fits_again : Fits one_byte signed_again
fits_again = record {
  chain_id = fits.chain_id;
  from_pubkey = fits.from_pubkey;
  to = fits.to;
  amount = fits.amount;
  fee = fits.fee;
  nonce = fits.nonce;
  payload = fits.payload;
  shielded = fits.shielded;
}

same_bytes :
    canonical_signing_bytes one_byte with_payload ≡ canonical_signing_bytes one_byte signed_again
unfolding canonical_signing_bytes
same_bytes = refl

canonical_signing_bytes-injective_example :
    record with_payload { signature = 0 } ≡ record signed_again { signature = 0 }
canonical_signing_bytes-injective_example =
    canonical_signing_bytes-injective one_byte (λ t u e. ap first_of e) with_payload signed_again
      fits fits_again same_bytes
