-- ===== src/Util/CertSpec/Periods.antt =====
-- How long the certificates of parseCertificateRequest are valid (util/jsonprocessor.go, ValidateCert).
use copfvtci.Prelude.{
  ℕ, ◌+◌, ◌-◌, ◌*◌, ◌^◌, ◌≤◌, ◌<◌, ◌≡◌, ◌↔◌, sym, ap, ◌∙◌, true, false, Option, List, inl, inr,
  Text, codes, arith, Bool-cases,
}
use copfvtci.Prelude.Int.{ℤ, pos, negsuc}
use copfvtci.Errors.{finished, then_run-finished, finished-injective}
use copfvtci.Util.Validity.{Period, validate_cert, validate_cert_lem}
use copfvtci.Util.Json.{float64, Objects, get_from, as_float64}
use copfvtci.Util.CertSpec.{
  CertificateSpec, hours, add_time, string_at, number_at, parse_certificate_request,
}

hours_exact : (h : ℕ) → h ≤ 2562047 → hours (pos h) ≡ pos (h * 3600000000000)
unfolding hours
hours_exact h small = ground arith

hours_wrapped :
    (h : ℕ) → 2562048 ≤ h → h ≤ 5124095 → hours (pos h) ≡ negsuc (2 ^ 64 - 1 - h * 3600000000000)
unfolding hours
hours_wrapped h large small = ground arith

module _ {Pub Usage Ext F Map : Type 0} (lib : Objects F Map) (int64_of : F → ℤ) where
  abbrev pub period_of : CertificateSpec Pub Usage Ext F → Period
  period_of spec = record { not_before = spec.not_before; not_after = spec.not_after }

  -- the spec's period, and the number under the path of the validity period
  period_lem :
      (now : ℕ) (text : Text) (serial : ℕ) (key : Option Pub) (usage : Usage) (opt : List Ext)
      (spec : CertificateSpec Pub Usage Ext F) (f : F)
      → get_from lib
          (lib.new_map_from_json text)
          (codes "TCertBatchRequest.CerificateRequestData.validityPeriod")
        ≡ float64 f
      → parse_certificate_request lib int64_of now text serial key usage opt ≡ finished spec
      → (spec.not_before ≡ now) × (spec.not_after ≡ add_time now (hours (int64_of f)))
  unfolding parse_certificate_request
  period_lem now text serial key usage opt spec f e h =
      let doc = lib.new_map_from_json text in
      let (cn, _, h1) =
        then_run-finished (string_at lib doc (codes "TCertBatchRequest.CerificateRequestData.CN")) _
          spec h in
      let (c, _, h2) =
        then_run-finished (string_at lib doc (codes "TCertBatchRequest.CerificateRequestData.C")) _
          spec h1 in
      let (st, _, h3) =
        then_run-finished (string_at lib doc (codes "TCertBatchRequest.CerificateRequestData.ST")) _
          spec h2 in
      let (l, _, h4) =
        then_run-finished (string_at lib doc (codes "TCertBatchRequest.CerificateRequestData.L")) _
          spec h3 in
      let (o, _, h5) =
        then_run-finished (string_at lib doc (codes "TCertBatchRequest.CerificateRequestData.O")) _
          spec h4 in
      let (ou, _, h6) =
        then_run-finished (string_at lib doc (codes "TCertBatchRequest.CerificateRequestData.OU")) _
          spec h5 in
      let (g, at_path, h7) =
        then_run-finished
          (number_at lib doc (codes "TCertBatchRequest.CerificateRequestData.validityPeriod")) _
          spec h6 in
      let (kind, _, h8) =
        then_run-finished (number_at lib doc (codes "TCertBatchRequest.CertificateType")) _ spec
          h7 in
      let same : f ≡ g = finished-injective (ap as_float64 (sym e) ∙ at_path) in
      let made = finished-injective h8 in
      (
        sym (ap (λ s. s.not_before) made),
        sym (ap (λ s. s.not_after) made) ∙ ap (λ v. add_time now (hours (int64_of v))) (sym same),
      )

  -- A certificate with the period that parseCertificateRequest reads from a request, of `h` hours, at most
  -- 2562047 (292 years), passes ValidateCert exactly after the time of the request and before that
  -- time plus `h` hours.
  pub parse_certificate_request-validate_cert :
      (now : ℕ) (text : Text) (serial : ℕ) (key : Option Pub) (usage : Usage) (opt : List Ext)
      (spec : CertificateSpec Pub Usage Ext F) (f : F) (h : ℕ)
      → get_from lib
          (lib.new_map_from_json text)
          (codes "TCertBatchRequest.CerificateRequestData.validityPeriod")
        ≡ float64 f
      → int64_of f ≡ pos h
      → h ≤ 2562047
      → parse_certificate_request lib int64_of now text serial key usage opt ≡ finished spec
      → (later : ℕ)
      → (validate_cert later (period_of spec) ≡ true)
        ↔ ((now < later) × (later < now + h * 3600000000000))
  parse_certificate_request-validate_cert now text serial key usage opt spec f h e i small made
        later =
      let (before, after) = period_lem now text serial key usage opt spec f e made in
      let exact : spec.not_after ≡ now + h * 3600000000000 =
        after ∙ ap (λ v. add_time now (hours v)) i ∙ ap (add_time now) (hours_exact h small) in
      let (valid, back) = validate_cert_lem later (period_of spec) in
      (
        λ v. let (a, b) = valid v in (omega (arith, before, a), omega (arith, exact, b)),
        λ (a, b). back (omega (arith, before, a), omega (arith, exact, b)),
      )

  -- A certificate with the period that parseCertificateRequest reads from a request, of 2562048 to 5124095
  -- hours, never passes ValidateCert: the duration overflows and the certificate ends before it begins.
  pub parse_certificate_request-overflow :
      (now : ℕ) (text : Text) (serial : ℕ) (key : Option Pub) (usage : Usage) (opt : List Ext)
      (spec : CertificateSpec Pub Usage Ext F) (f : F) (h : ℕ)
      → get_from lib
          (lib.new_map_from_json text)
          (codes "TCertBatchRequest.CerificateRequestData.validityPeriod")
        ≡ float64 f
      → int64_of f ≡ pos h
      → 2562048 ≤ h
      → h ≤ 5124095
      → parse_certificate_request lib int64_of now text serial key usage opt ≡ finished spec
      → (later : ℕ) → validate_cert later (period_of spec) ≡ false
  parse_certificate_request-overflow now text serial key usage opt spec f h e i large small made
        later =
      let (before, after) = period_lem now text serial key usage opt spec f e made in
      let wrapped : spec.not_after ≡ now - (2 ^ 64 - 1 - h * 3600000000000 + 1) =
        after
        ∙ ap (λ v. add_time now (hours v)) i
        ∙ ap (add_time now) (hours_wrapped h large small) in
      elim (Bool-cases (validate_cert later (period_of spec))) [
        | inr invalid ↦ invalid
        | inl passes ↦
            let (a, b) = (validate_cert_lem later (period_of spec)).0 passes in
            absurd (omega (arith, before, wrapped, a, b))
      ]
