-- ===== src/Ldap/Server.antt =====
-- The server's handlers (cli/server/auth.go, register.go, revoke.go) over the registry of
-- cli/server/ldap/client.go.
use copfvtci.Prelude.{
  ◌≡◌, ◌≢◌, ◌⊎◌, inl, inr, true, not, ◌&&◌, some, List, [], Text, is_empty, arith, Bool-cases,
  Option-cases,
}
use copfvtci.Prelude.Int.{ℤ}
use copfvtci.Errors.{ok, Method, ◌>>◌, Result-cases, when}
use copfvtci.Spi.{Attribute}
use copfvtci.Register.{
  register_user, can_register, validate_id, register_user_id, user_has_attribute,
}
use copfvtci.Revoke.{
  RevocationRequest, success, CertStore, Reads, hf_revoker, revoke, handle_revoke,
}
use copfvtci.Ldap.{LdapClient, Directory, LdapState, ldap_registry, get_user}

-- a method that never succeeds, and what follows one
abbrev Never : {S A : Type 0} → Method S A → Type 0
Never {S} {A} m = (s : S) (a : A) → (m s).0 ≢ ok a

then-Never : {S A B : Type 0} (m : Method S A) (n : Method S B) → Never n → Never (m >> n)
then-Never m n never s b h = elim (Result-cases (m s).0) [
  | inl (a, e) ↦ never (m s).1 b (rw e at h)
  | inr (x, e) ↦ absurd (ground arith)
]

module _ (dir : Directory) (lc : LdapClient) where
  register_user_id-Never :
      (max : ℤ) (random id user_type group : Text) (attributes : List Attribute) (opt : List Text)
      → Never (register_user_id (ldap_registry dir lc) max random id user_type group attributes opt)
  unfolding register_user_id
  register_user_id-Never max random id user_type group attributes opt s tok h =
      elim (Result-cases (get_user dir lc id [] s).0) [
        | inl (u, e) ↦ absurd (ground arith)
        | inr (x, e) ↦ absurd (ground arith)
      ]

  -- With LDAP for the user registry, no registration ever succeeds.
  pub register_user_ldap :
      (max : ℤ) (random id user_type group : Text) (attributes : List Attribute) (registrar : Text)
      (opt : List Text) (s : LdapState) (tok : Text)
      → (register_user
          (ldap_registry dir lc)
          max
          random
          id
          user_type
          group
          attributes
          registrar
          opt
          s).0
        ≢ ok tok
  unfolding register_user
  register_user_ldap max random id user_type group attributes registrar opt s tok =
      let reg = ldap_registry dir lc in
      let allowed = when (not (is_empty registrar)) (can_register reg registrar user_type) in
      let valid = validate_id reg user_type group in
      let rest = register_user_id reg max random id user_type group attributes opt in
      then-Never allowed (valid >> rest)
        (then-Never valid rest
          (register_user_id-Never max random id user_type group attributes opt))
        s tok

  revoke_ldap :
      {Cert : Type 0} (certs : CertStore LdapState) (reads : Reads Cert) (req : RevocationRequest)
      (s : LdapState)
      → (is_empty req.serial ≡ true) ⊎ (is_empty req.aki ≡ true)
      → (revoke (ldap_registry dir lc) certs reads req s).0 ≢ success
  unfolding revoke
  revoke_ldap certs reads req s missing =
      elim (Bool-cases (not (is_empty req.serial) && not (is_empty req.aki))) [
        | inl e ↦ absurd (ground arith)
        | inr e ↦ elim (Bool-cases (is_empty req.name)) [
          | inl f ↦ rw (e, f) (ground arith)
          | inr f ↦ elim (Result-cases (get_user dir lc req.name [] s).0) [
            | inl (u, g) ↦ rw (e, f, g) (ground arith)
            | inr (x, g) ↦ rw (e, f, g) (ground arith)
          ]
        ]
      ]

  -- With LDAP for the user registry, a request to revoke that does not name a certificate by its serial
  -- number and its authority key never succeeds, whoever sends it: a user's certificates cannot be
  -- revoked by the user's name.
  pub handle_revoke_ldap :
      {Cert : Type 0} (certs : CertStore LdapState) (reads : Reads Cert) (authorization text : Text)
      (req : RevocationRequest) (s : LdapState)
      → reads.parse text ≡ some req
      → (is_empty req.serial ≡ true) ⊎ (is_empty req.aki ≡ true)
      → (handle_revoke (ldap_registry dir lc) certs reads authorization (some text) s).0 ≢ success
  unfolding handle_revoke
  handle_revoke_ldap certs reads authorization text req s parsed missing =
      elim (Bool-cases (is_empty authorization)) [
        | inl e ↦ rw e (ground arith)
        | inr e ↦ elim (Option-cases (reads.verify_token authorization text)) [
          | inl f ↦ rw (e, f) (ground arith)
          | inr (cert, f) ↦
              let asked =
                user_has_attribute (ldap_registry dir lc) (reads.common_name cert) hf_revoker s in
              elim (Result-cases asked.0) [
                | inl (t, g) ↦ rw (e, f, g, parsed) (revoke_ldap certs reads req asked.1 missing)
                | inr (x, g) ↦ rw (e, f, g) (ground arith)
              ]
        ]
      ]
