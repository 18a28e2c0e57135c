-- ===== src/Server/Endpoints.antt =====
-- Which endpoints registerHandlers of cli/server/server.go enables, in whichever order Go takes the map.
use copfvtci.Prelude.{
  ◌≡◌, refl, inl, inr, Bool, true, false, not, ◌&&◌, Option, none, some, List, [], ◌∷◌, Text,
  is_empty, text_eq, All, Bool-cases,
}
use copfvtci.Prelude.Permuted.{Pairwise}
use copfvtci.Errors.{Result, ok, err, Run, finished, errored, crashed, exited, run_of}
use copfvtci.Auth.{AuthHandler, auth_wrapper, wrapped_path}
use copfvtci.Server.{
  Handler, file_server, tcert, sign, auth_sign, info, cert_generator, bundle, key_generator, scan,
  Setup, endpoints, made, with_signer, bundled,
}

-- the patterns of two endpoints differ
abbrev pub Apart : Text × Run Handler → Text × Run Handler → Type 0
Apart e f =
    (text_eq (wrapped_path e.0) (wrapped_path f.0) ≡ false)
    × (text_eq (wrapped_path f.0) (wrapped_path e.0) ≡ false)

-- the constructor returns, with a handler or with an error
abbrev pub Returns : {A : Type 0} → Run A → Type 0
Returns (finished h) = Unit
Returns (errored e) = Unit
Returns crashed = ⊥
Returns exited = ⊥

-- what stands under an endpoint's pattern: its handler behind its wrapper, or nothing if it is disabled
abbrev pub target : Text → Run Handler → Option (AuthHandler × Handler)
target path (finished h) = some (auth_wrapper path, h)
target path _ = none

-- the paths of a list differ, as a test
unfoldable differ : Text → List (Text × Run Handler) → Bool
differ p [] = true
differ p ((q, h) ∷ es) =
    not (text_eq (wrapped_path p) (wrapped_path q))
    && not (text_eq (wrapped_path q) (wrapped_path p))
    && differ p es

unfoldable all_differ : List (Text × Run Handler) → Bool
all_differ [] = true
all_differ ((p, h) ∷ es) = differ p es && all_differ es

both : (a b : Bool) → a && b ≡ true → (a ≡ true) × (b ≡ true)
both true true h = (refl, refl)
both true false h = absurd (cc)
both false b h = absurd (cc)

negated : (b : Bool) → not b ≡ true → b ≡ false
negated false h = refl
negated true h = absurd (cc)

differ-Apart :
    (e : Text × Run Handler) (es : List (Text × Run Handler))
    → differ e.0 es ≡ true
    → All (Apart e) es
unfolding differ
differ-Apart e [] h = tt
differ-Apart e ((q, k) ∷ es) h =
    let (ab, c) = both _ (differ e.0 es) h in
    let (a, b) = both _ _ ab in ((negated _ a, negated _ b), differ-Apart e es c)

all_differ-Apart : (es : List (Text × Run Handler)) → all_differ es ≡ true → Pairwise Apart es
unfolding all_differ
all_differ-Apart [] h = tt
all_differ-Apart (e ∷ es) h =
    let (a, b) = both _ _ h in (differ-Apart e es a, all_differ-Apart es b)

pub endpoints-Apart : (s : Setup) → Pairwise Apart (endpoints s)
unfolding endpoints wrapped_path text_eq all_differ differ
endpoints-Apart s = all_differ-Apart (endpoints s) refl

made-Returns : (r : Run (Unit {0})) (h : Handler) → Returns r → Returns (made r h)
made-Returns (finished u) h x = tt
made-Returns (errored e) h x = tt
made-Returns crashed h x = x
made-Returns exited h x = x

run_of-Returns : (r : Result (Unit {0})) → Returns (run_of r)
run_of-Returns (ok u) = tt
run_of-Returns (err e) = tt

with_signer-Returns :
    (s : Setup) (b : Bool) (r : Run Handler) → Returns r → Returns (with_signer s b r)
with_signer-Returns s true r x = x
with_signer-Returns s false r x = tt

bundled-Returns : (s : Setup) → Returns (bundled s)
bundled-Returns s =
    elim (Bool-cases (not (is_empty s.ca_bundle_file) && not (is_empty s.int_bundle_file))) [
      | inl e ↦ rw e (run_of-Returns _)
      | inr e ↦ rw e tt
    ]

pub endpoints-Returns : (s : Setup) → Returns s.new_tcert → All (λ e. Returns e.1) (endpoints s)
unfolding endpoints
endpoints-Returns s r =
    let of_result : (x : Result (Unit {0})) (h : Handler) → Returns (made (run_of x) h) =
      λ x h. made-Returns (run_of x) h (run_of-Returns x) in
    let signer : (x : Result (Unit {0})) (h : Handler)
        → Returns (with_signer s s.enroll_signer (made (run_of x) h)) =
      λ x h. with_signer-Returns s s.enroll_signer _ (of_result x h) in
    (
      tt,
      (
        tt,
        (
          tt,
          (
            tt,
            (
              made-Returns s.new_tcert tcert r,
              (
                signer s.new_sign sign,
                (
                  signer s.new_auth_sign auth_sign,
                  (
                    signer s.new_info info,
                    (
                      with_signer-Returns s s.enroll_signer _ tt,
                      (
                        with_signer-Returns s s.enroll_signer _
                            (made-Returns (bundled s) cert_generator (bundled-Returns s)),
                        (
                          of_result (s.new_bundle s.ca_bundle_file s.int_bundle_file) bundle,
                          (
                            of_result s.new_key key_generator,
                            (
                              tt,
                              (
                                of_result (s.new_scan s.ca_bundle_file) scan,
                                (
                                  tt,
                                  (
                                    tt,
                                    (
                                      with_signer-Returns s s.ocsp_signer _ tt,
                                      (of_result s.find_box file_server, tt),
                                    ),
                                  ),
                                ),
                              ),
                            ),
                          ),
                        ),
                      ),
                    ),
                  ),
                ),
              ),
            ),
          ),
        ),
      ),
    )
