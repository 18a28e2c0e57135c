-- ===== src/TCertHandler/Caller.antt =====
-- The certificate that cli/server/tcert.go reads from a token, against the one that cli/server/auth.go
-- verified.
use copfvtci.Prelude.{◌≡◌, refl, Bool, false, Option, none, some, [], ◌∷◌, Text, is_empty}
use copfvtci.Errors.{Result, ok, err}
use copfvtci.Auth.{Checks}
use copfvtci.Token.{Crypto, decode_token, verify_token}
use copfvtci.Token.Soundness.{after-eq-ok}

-- `x, err := …`, where only whether there was an error matters
abbrev pub option_of : {A : Type 0} → Result A → Option A
option_of (ok a) = some a
option_of (err e) = none

module _ {Cert Pub Priv : Type 0} (c : Crypto Cert Pub Priv) where
  decode_token-ok :
      (token : Text) (y : Cert × Text × Text) → decode_token c token ≡ ok y → is_empty token ≡ false
  unfolding decode_token
  decode_token-ok [] y h = absurd (cc)
  decode_token-ok (b ∷ token) y h = refl

  pub verify_token-ok :
      (token body : Text) (x : Cert) → verify_token c token body ≡ ok x → is_empty token ≡ false
  unfolding verify_token
  verify_token-ok token body x h =
      let (y, decoded, h1) = after-eq-ok (decode_token c token) _ x h in
      decode_token-ok token y decoded

  -- the checks of auth.go, with VerifyToken for the check of a token
  abbrev pub checks_with :
      (Text → Option (Text × Text)) → (Cert → Bool) → (Cert → Bool) → (Cert → Text) → Checks Cert
  checks_with basic_auth revoked_or_expired checked common_name = record {
    basic_auth = basic_auth;
    verify_token = λ token body. option_of (verify_token c token body);
    revoked_or_expired = revoked_or_expired;
    checked = checked;
    common_name = common_name;
  }
