-- ===== src/Client/Unsupported.antt =====
-- What the client library leaves out: the operations of lib/client.go, identity.go, signer.go, verifier.go and
-- temporalsigner.go that return the error NotImplemented, and the plain accessors beside them.
use copfvtci.Prelude.{Option, List, [], ◌∷◌, Text, codes}
use copfvtci.Errors.{Result, err, Method, ◌>>=◌, ◌>>◌, pure, lift, not_yet_implemented}
use copfvtci.Token.{Crypto}
use copfvtci.Client.Url.{NetLib}
use copfvtci.Client.Http.{Network}
use copfvtci.Client.Identity.{Identity, ClientJson, RegistrationRequest, post, or_library_error}

-- idp.Capability, as far as Capabilities lists it
pub data Capability : Type 0 where
  registration enrollment attributes anonymity unlinkability : Capability

pub capabilities : List Capability
capabilities = registration ∷ enrollment ∷ attributes ∷ anonymity ∷ unlinkability ∷ []

-- Client
unfoldable pub register_and_enroll : RegistrationRequest → Result Identity
register_and_enroll req = err not_yet_implemented

unfoldable pub import_signer : {Req Signer : Type 0} → Req → Result Signer
import_signer req = err not_yet_implemented

-- Identity
abbrev pub get_name : Identity → Text
get_name i = i.name

abbrev pub get_my_cert : Identity → Option Text
get_my_cert i = i.cert

abbrev pub get_my_key : Identity → Option Text
get_my_key i = i.key

unfoldable pub get_attribute_names : Identity → Result (List Text)
get_attribute_names i = err not_yet_implemented

unfoldable pub delete : Identity → Result (Unit {0})
delete i = err not_yet_implemented

-- GetPrivateSigners: the answer of the server is not read. `marshal` encodes the request.
unfoldable pub get_private_signers :
    {W Cert Pub Priv Req Signer : Type 0}
    → NetLib
    → Network W
    → Crypto Cert Pub Priv
    → ClientJson
    → (Req → Option Text)
    → Identity
    → Req
    → Method W (List Signer)
get_private_signers lib net c json marshal i req = do
  body ← lift (or_library_error (marshal req))
  post lib net c json i (codes "tcert") body
  pure []

-- Signer
unfoldable pub sign : Identity → Text → Result Text
sign i msg = err not_yet_implemented

unfoldable pub sign_opts : {Opts : Type 0} → Identity → Text → Opts → Result Text
sign_opts i msg opts = err not_yet_implemented

unfoldable pub new_attribute_proof : {Spec : Type 0} → Identity → Spec → Result Text
new_attribute_proof i spec = err not_yet_implemented

-- Verifier
unfoldable pub verify_self : Identity → Result (Unit {0})
verify_self i = err not_yet_implemented

unfoldable pub verify : Identity → Text → Text → Result (Unit {0})
verify i msg sig = err not_yet_implemented

unfoldable pub verify_opts : {Opts : Type 0} → Identity → Text → Text → Opts → Result (Unit {0})
verify_opts i msg sig opts = err not_yet_implemented

unfoldable pub verify_attributes : {Spec : Type 0} → Identity → List Text → Spec → Result (Unit {0})
verify_attributes i proof spec = err not_yet_implemented

-- TemporalSigner
unfoldable pub renew : Identity → Result (Unit {0})
renew i = err not_yet_implemented

unfoldable pub revoke_signer : Identity → Result (Unit {0})
revoke_signer i = err not_yet_implemented
