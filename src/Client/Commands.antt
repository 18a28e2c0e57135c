-- ===== src/Client/Commands.antt =====
-- The commands of cli/client: register.go, enroll.go, reenroll.go and revoke.go, with NewClient of
-- cli/client/util.go and LoadCSRInfo of lib/client.go. The state is the disk and the network. JSON is a
-- parameter. What is printed is the result, and log messages are not.
use copfvtci.Prelude.{
  ◌&&◌, Option, none, some, List, [], ◌∷◌, ◌++◌, Text, codes, is_empty, if◌then◌else◌,
}
use copfvtci.Prelude.Int.{pos}
use copfvtci.Errors.{
  Result, ok, err, Method, ◌>>=◌, pure, lift, library_error, Outcome, returned, failed, panicked,
}
use copfvtci.Token.{Crypto}
use copfvtci.Client.Url.{NetLib}
use copfvtci.Client.Http.{Client, Network}
use copfvtci.Client.Identity.{Identity, RegistrationRequest, ClientJson, register, revoke}
use copfvtci.Client.Enrolling.{CsrInfo, EnrollmentRequest, EnrollLib, enroll, reenroll}
use copfvtci.Client.Files.{Env, Disk, content, read_file, new_client, store, load_my_identity}

-- cli.PopFirstArgument
abbrev pop_first_argument : List Text → Result (Text × List Text)
pop_first_argument [] = err library_error
pop_first_argument (arg ∷ args) = ok (arg, args)

abbrev of_option : {A : Type 0} → Option A → Result A
of_option none = err library_error
of_option (some a) = ok a

-- `fmt.Errorf(…, err)`: another error, without a code
abbrev errorf : {A : Type 0} → Result A → Result A
errorf (ok a) = ok a
errorf (err e) = err library_error

abbrev worded : {A : Type 0} → Method Disk A → Method Disk A
worded m d = let (r, d') = m d in (errorf r, d')

abbrev reworded : {A W : Type 0} → (W → Outcome A × W) → W → Outcome A × W
reworded m w = let (r, w') = m w in (outcome_errorf r, w')
  where
    outcome_errorf : {A : Type 0} → Outcome A → Outcome A
    outcome_errorf (returned a) = returned a
    outcome_errorf (failed e) = failed library_error
    outcome_errorf panicked = panicked

-- ioutil.ReadFile
abbrev read_all : Text → Method Disk Text
read_all path d = (of_option (content path d.files), d)

-- the JSON of a registration request and of a CSR, and the configuration of a client
pub record CommandJson : Type 0 where
  pub registration : Text → Option RegistrationRequest
  pub csr_info : Text → Option CsrInfo
  pub client : Text → Client → Option Client

module _ {W Cert Pub Priv : Type 0} (env : Env) (lib : NetLib) (net : Network W)
    (c : Crypto Cert Pub Priv) (common_name : Cert → Text) (json : ClientJson) (el : EnrollLib)
    (cj : CommandJson) where
  abbrev pub Command : Type 0 → Type 0
  Command A = Disk × W → Outcome A × (Disk × W)

  abbrev pub then_do :
      {A B : Type 0} → Outcome A → Disk × W → (A → Command B) → Outcome B × (Disk × W)
  then_do (returned a) s rest = rest a s
  then_do (failed e) s rest = (failed e, s)
  then_do panicked s rest = (panicked, s)

  abbrev outcome_of : {A : Type 0} → Result A → Outcome A
  outcome_of (ok a) = returned a
  outcome_of (err e) = failed e

  abbrev given : {A B : Type 0} → Result A → (A → Command B) → Command B
  given r rest s = then_do (outcome_of r) s rest

  abbrev on_disk : {A B : Type 0} → Method Disk A → (A → Command B) → Command B
  on_disk m rest (d, w) = let (r, d') = m d in then_do (outcome_of r) (d', w) rest

  abbrev on_net : {A B : Type 0} → (W → Outcome A × W) → (A → Command B) → Command B
  on_net m rest (d, w) = let (r, w') = m w in then_do r (d, w') rest

  -- client.NewClient
  unfoldable pub client_for : Text → Result Client
  client_for url = new_client env cj.client (codes "{\"serverURL\":\"" ++ url ++ codes "\"}")

  -- LoadCSRInfo of the file that is named, if one is
  unfoldable pub csr_of : List Text → Method Disk (Option CsrInfo)
  csr_of [] = pure none
  csr_of (path ∷ args) = do
    buf ← read_all path
    info ← lift (of_option (cj.csr_info buf))
    pure (some info)

  -- registerMain; the printed password
  unfoldable pub register_main : List Text → Command Text
  register_main args = given (pop_first_argument args) λ (file, rest).
      on_disk (read_file file) λ buf. given (of_option (cj.registration buf)) λ req.
        given (pop_first_argument rest) λ (server, left). given (client_for server) λ client.
          on_disk (load_my_identity env c common_name client) λ id.
            on_net (register lib net c json (record req { registrar = some id }))
              λ secret s. (returned (el.b64_decoded secret), s)

  abbrev pub enrollment : Text → Text → Option CsrInfo → EnrollmentRequest
  enrollment id secret csr = record {
    name = id;
    secret = secret;
    hosts = [];
    profile = [];
    label = [];
    csr = csr;
  }

  -- ID.Store
  abbrev stored : Identity → Command (Unit {0})
  stored id = on_disk (store env id) λ u s. (returned tt, s)

  abbrev pub stored_worded : Identity → Command (Unit {0})
  stored_worded id = on_disk (worded (store env id)) λ u s. (returned tt, s)

  -- enrollMain
  unfoldable pub enroll_main : List Text → Command (Unit {0})
  enroll_main args = given (pop_first_argument args) λ (id, args1).
      given (pop_first_argument args1) λ (secret, args2).
        given (pop_first_argument args2) λ (server, args3). given (client_for server) λ client.
          on_disk (csr_of args3)
            λ csr. on_net (enroll el lib net c client (enrollment id secret csr)) stored_worded

  -- reenrollMain
  unfoldable pub reenroll_main : List Text → Command (Unit {0})
  reenroll_main args = given (pop_first_argument args) λ (server, args1).
      given (client_for server) λ client.
        on_disk (worded (load_my_identity env c common_name client)) λ id.
          on_disk (csr_of args1) λ csr.
            on_net
              (reworded (
                reenroll el lib net c json client
                  (record { id = some id; hosts = []; profile = []; label = []; csr = csr })))
              stored

  abbrev first_or_empty : List Text → Text
  first_or_empty [] = []
  first_or_empty (arg ∷ args) = arg

  -- revokeMain; `serial` and `aki` are flags, and the flag for a reason is not read
  unfoldable pub revoke_main : Text → Text → List Text → Command (Unit {0})
  revoke_main serial aki args = given (pop_first_argument args) λ (server, args1).
      given (client_for server) λ client. on_disk (load_my_identity env c common_name client) λ id.
        if is_empty (first_or_empty args1) && is_empty serial
        then (λ s. (failed library_error, s))
        else on_net
            (λ w.
              let (r, w') =
                revoke lib net c json id
                  (record {
                    name = first_or_empty args1;
                    serial = serial;
                    aki = aki;
                    reason = pos 0;
                  })
                  w in
              (outcome_of r, w'))
            (λ u s. (returned tt, s))
