-- ===== src/Revoke/Guards.antt =====
-- Who may revoke: what the handler of cli/server/revoke.go checks before it writes anything.
use copfvtci.Prelude.{
  ◌≡◌, ◌≢◌, ◌⊎◌, inl, inr, false, some, [], ◌∷◌, Text, is_empty, arith, Option-cases, Bool-cases,
}
use copfvtci.Errors.{ok, Result-cases}
use copfvtci.Spi.{User, UserRegistry}
use copfvtci.Register.{user_has_attribute}
use copfvtci.Revoke.{CertStore, Reads, success, hf_revoker, handle_revoke}

module _ {S Cert : Type 0} (reg : UserRegistry S) (certs : CertStore S) (reads : Reads Cert) where
  -- the caller showed a token that verifies over the body, for a user with a value of hf.Revoker
  abbrev pub MayRevoke : Text → Text → S → Type 0
  MayRevoke authorization text s =
      (cert : Cert) × (u : User S) × (reads.verify_token authorization text ≡ some cert)
      × ((reg.get_user (reads.common_name cert) (hf_revoker ∷ []) s).0 ≡ ok u)
      × (is_empty (u.get_attribute hf_revoker) ≡ false)

  has_attribute :
      (name attr : Text) (s : S) (t : Unit {0})
      → (user_has_attribute reg name attr s).0 ≡ ok t
      → (u : User S) × ((reg.get_user name (attr ∷ []) s).0 ≡ ok u)
        × (is_empty (u.get_attribute attr) ≡ false)
  unfolding user_has_attribute
  has_attribute name attr s t h = elim (Result-cases (reg.get_user name (attr ∷ []) s).0) [
    | inl (u, found) ↦ (u, found, ground arith)
    | inr (e, failed) ↦ absurd (ground arith)
  ]

  attribute_state :
      (name attr : Text) (s : S)
      → (user_has_attribute reg name attr s).1 ≡ (reg.get_user name (attr ∷ []) s).1
  unfolding user_has_attribute
  attribute_state name attr s = elim (Result-cases (reg.get_user name (attr ∷ []) s).0) [
    | inl (u, found) ↦ ground arith
    | inr (e, failed) ↦ ground arith
  ]

  -- Whatever a request makes the handler do, it is answered with success, or changes anything beyond
  -- looking up the caller, only if the caller may revoke. Otherwise the registry and the certificates
  -- are as they were before the request, or as the lookup of the caller left them.
  pub handle_revoke_guarded :
      (authorization text : Text) (s : S)
      → MayRevoke authorization text s
        ⊎ (((handle_revoke reg certs reads authorization (some text) s).0 ≢ success)
            × (((handle_revoke reg certs reads authorization (some text) s).1 ≡ s)
                ⊎ ((cert : Cert) × ((handle_revoke reg certs reads authorization (some text) s).1
                      ≡ (reg.get_user (reads.common_name cert) (hf_revoker ∷ []) s).1))))
  unfolding handle_revoke
  handle_revoke_guarded authorization text s = elim (Bool-cases (is_empty authorization)) [
    | inl e ↦ inr (rw e (ground arith), inl (rw e))
    | inr e ↦ elim (Option-cases (reads.verify_token authorization text)) [
      | inl f ↦ inr (rw (e, f) (ground arith), inl (rw (e, f)))
      | inr (cert, f) ↦
          elim (Result-cases (user_has_attribute reg (reads.common_name cert) hf_revoker s).0) [
            | inl (t, g) ↦
                let (u, found, named) = has_attribute (reads.common_name cert) hf_revoker s t g in
                inl (cert, u, f, found, named)
            | inr (x, g) ↦ inr (
              rw (e, f, g) (ground arith),
              inr (cert, rw (e, f, g) (attribute_state (reads.common_name cert) hf_revoker s)),
            )
          ]
    ]
  ]
