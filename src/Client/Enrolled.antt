-- ===== src/Client/Enrolled.antt =====
-- What the command "enroll" leaves on the disk for the commands after it.
use copfvtci.Prelude.{
  ◌≡◌, ◌≢◌, refl, sym, ap, ◌∙◌, inl, inr, Bool, true, false, none, some, [], ◌∷◌, Text, text_eq,
  text_eq_refl, text_eq_iff, Bool-cases, Option-cases,
}
use copfvtci.Errors.{Result, ok, err, Outcome, returned, failed, panicked, Result-cases}
use copfvtci.Token.{Crypto}
use copfvtci.Client.Url.{NetLib}
use copfvtci.Client.Http.{Client, Network}
use copfvtci.Client.Identity.{
  Identity, ClientJson, new_identity, JsonValue, json_string, json_other, json_null,
}
use copfvtci.Client.Enrolling.{
  EnrollLib, EnrollmentRequest, identity_in, from_response, enroll, new_identity_from_response,
}
use copfvtci.Client.Files.{
  Env, Disk, content, read_file, write_file, get_my_key_file, get_my_cert_file, store_my_identity,
  store, load_my_identity, load_identity, identity_from,
}
use copfvtci.Client.Commands.{
  CommandJson, then_do, stored_worded, client_for, csr_of, enrollment, enroll_main,
}

returned-injective : {A : Type 0} {a b : A} → returned a ≡ returned b → a ≡ b
returned-injective h = cc

module _ (env : Env) {Cert Pub Priv : Type 0} (c : Crypto Cert Pub Priv)
    (common_name : Cert → Text) where
  store-load :
      (client : Client) (name key cert : Text) (d : Disk)
      → get_my_key_file env client ≢ get_my_cert_file env client
      → (store env (new_identity client name (some key) (some cert)) d).0 ≡ ok tt
      → (load_my_identity env c common_name client
          (store env (new_identity client name (some key) (some cert)) d).1).0
        ≡ identity_from env c common_name client key cert
  unfolding store store_my_identity load_my_identity load_identity read_file write_file content
  store-load client name key cert d differ h =
      let key_file = get_my_key_file env client in
      let cert_file = get_my_cert_file env client in
      elim (Bool-cases (d.refuses key_file)) [
        | inl e ↦ absurd (cc (sym (rw e at h)))
        | inr e ↦ elim (Bool-cases (d.refuses cert_file)) [
          | inl f ↦ absurd (cc (sym (rw (e, f) at h)))
          | inr f ↦ elim (Bool-cases (text_eq cert_file key_file)) [
            | inl g ↦ absurd (differ (sym ((text_eq_iff cert_file key_file).0 g)))
            | inr g ↦ rw (e, f) (rw (g, text_eq_refl key_file, text_eq_refl cert_file) refl)
          ]
        ]
      ]

module _ (el : EnrollLib) where
  new_identity_from_response_sound :
      (client : Client) (id buf key : Text) (i : Identity)
      → new_identity_from_response el client id buf key ≡ returned i
      → (cert : Text) × (i ≡ new_identity client id (some key) (some cert))
  unfolding new_identity_from_response
  new_identity_from_response_sound client id buf key i h = elim (Option-cases (el.response buf)) [
    | inl e ↦ absurd (cc (sym (rw e at h)))
    | inr (resp, e) ↦ result_sound client id key i resp.success resp.result (rw e at h)
  ]
    where
      result_sound :
          (client : Client) (id key : Text) (i : Identity) (success : Bool) (result : JsonValue)
          → identity_in el client id key (some (record { success = success; result = result }))
            ≡ returned i
          → (cert : Text) × (i ≡ new_identity client id (some key) (some cert))
      result_sound client id key i true (json_string s) h =
          (el.b64_decoded s, sym (returned-injective h))
      result_sound client id key i false (json_string s) h = absurd (cc (sym h))
      result_sound client id key i success json_other h = absurd (cc (sym h))
      result_sound client id key i success json_null h = absurd (cc (sym h))

module _ {W Cert Pub Priv : Type 0} (env : Env) (lib : NetLib) (net : Network W)
    (c : Crypto Cert Pub Priv) (common_name : Cert → Text) (json : ClientJson) (el : EnrollLib)
    (cj : CommandJson) where
  from_response_sound :
      (client : Client) (id : Text) (r : Result (Text × Text)) (i : Identity)
      → from_response el client id r ≡ returned i
      → (key cert : Text) × (i ≡ new_identity client id (some key) (some cert))
  from_response_sound client id (err e) i h = absurd (cc (sym h))
  from_response_sound client id (ok (buf, key)) i h =
      let (cert, same) = new_identity_from_response_sound el client id buf key i h in
      (key, cert, same)

  enroll_sound :
      (client : Client) (req : EnrollmentRequest) (w : W) (i : Identity)
      → (enroll el lib net c client req w).0 ≡ returned i
      → (key cert : Text) × (i ≡ new_identity client req.name (some key) (some cert))
  unfolding enroll
  enroll_sound client req w i h = from_response_sound client req.name _ i h

  storing :
      (r : Outcome Identity) (d d' : Disk) (w w' : W)
      → then_do env lib net c common_name json el cj r
          (d, w)
          (stored_worded env lib net c common_name json el cj)
        ≡ (returned tt, (d', w'))
      → (i : Identity) × (r ≡ returned i) × ((store env i d).0 ≡ ok tt) × ((store env i d).1 ≡ d')
  storing (returned i) d d' w w' h = elim (Result-cases (store env i d).0) [
    | inl (u, e) ↦ (i, refl, e, ap (λ (p : Outcome (Unit {0}) × (Disk × W)). p.1.0) (rw e at h))
    | inr (x, e) ↦ absurd (cc (sym (ap (λ (p : Outcome (Unit {0}) × (Disk × W)). p.0) (rw e at h))))
  ]
  storing (failed e) d d' w w' h =
      absurd (cc (sym (ap (λ (p : Outcome (Unit {0}) × (Disk × W)). p.0) h)))
  storing panicked d d' w w' h =
      absurd (cc (sym (ap (λ (p : Outcome (Unit {0}) × (Disk × W)). p.0) h)))

  -- If the command "enroll" succeeds, with an identity, a secret and a server for its arguments, then
  -- Enroll returned an identity of that name with a key and a certificate, and the command left them on
  -- the disk: LoadMyIdentity, with which the other commands begin, then reads that key and certificate,
  -- whatever was there before. The two have different files.
  pub load_my_identity-enroll_main :
      (id secret server : Text) (client : Client) (d d' : Disk) (w w' : W)
      → client_for env lib net c common_name json el cj server ≡ ok client
      → get_my_key_file env client ≢ get_my_cert_file env client
      → enroll_main env lib net c common_name json el cj (id ∷ secret ∷ server ∷ []) (d, w)
        ≡ (returned tt, (d', w'))
      → (key cert : Text) × ((enroll el lib net c client
            (enrollment env lib net c common_name json el cj id secret none)
            w).0
          ≡ returned (new_identity client id (some key) (some cert)))
        × ((load_my_identity env c common_name client d').0
            ≡ identity_from env c common_name client key cert)
  unfolding enroll_main csr_of
  load_my_identity-enroll_main id secret server client d d' w w' chosen differ h =
      let req = enrollment env lib net c common_name json el cj id secret none in
      let r = enroll el lib net c client req w in
      let (i, enrolled, kept, left) = storing r.0 d d' r.1 w' (rw chosen at h) in
      let (key, cert, same) = enroll_sound client req w i enrolled in
      (
        key,
        cert,
        enrolled ∙ ap returned same,
        ap (λ t. (load_my_identity env c common_name client t).0)
              (sym left ∙ ap (λ j. (store env j d).1) same)
            ∙ store-load env c common_name client id key cert d differ
                (ap (λ j. (store env j d).0) (sym same) ∙ kept),
      )
