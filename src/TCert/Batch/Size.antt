-- ===== src/TCert/Batch/Size.antt =====
-- How many certificates GetBatch of lib/tcert/tcert.go makes, and that their indexes differ.
use mathlib.Core.List.{append_cancel_right}
use copfvtci.Prelude.{
  ℕ, zero, suc, ◌+◌, ◌*◌, ◌≤◌, ◌<◌, ◌≡◌, sym, ap, ◌∙◌, inl, inr, List, ◌++◌, Text, length, ◌==◌,
  arith, if◌then◌else◌,
}
use copfvtci.Prelude.Int.{max_int}
use copfvtci.Errors.{ok, err, library_error, Result-cases, ok-injective}
use copfvtci.TCert.Decimal.{itoa, itoa-injective}
use copfvtci.TCert.Extensions.{padding}
use copfvtci.TCert.Batch.{
  Mgr, GetBatchRequest, GetBatchResponse, TCert, Issuer, batch_size, rounds, tcert_index, issue,
  issue_all, get_batch,
}

batch_size-ok :
    (tm : Mgr) (count n : ℕ)
    → batch_size tm count ≡ ok n
    → (n ≡ (if count == 0 then tm.max_allowed_batch_size else count))
      × (n ≤ tm.max_allowed_batch_size)
unfolding batch_size
batch_size-ok tm count n h = ground arith

module _ (issuer : Issuer) (tm : Mgr) (req : GetBatchRequest)
    (common_name nonce kdf_key : Text) where
  length-issue_all :
      (n i : ℕ) (ts : List TCert)
      → issue_all issuer tm req common_name nonce kdf_key n i ≡ ok ts
      → length ts ≡ n
  unfolding issue_all
  length-issue_all zero i ts h = ground arith
  length-issue_all (suc n) i ts h =
      elim (Result-cases (issue issuer tm req common_name nonce kdf_key i)) [
        | inr (x, e) ↦ absurd (ground arith)
        | inl (t, e) ↦
            elim (Result-cases (issue_all issuer tm req common_name nonce kdf_key n (i + 1))) [
              | inr (x, f) ↦ absurd (ground arith)
              | inl (ts', f) ↦
                  ap length (sym (ok-injective (rw (e, f) at h)))
                  ∙ ap suc (length-issue_all n (i + 1) ts' f)
            ]
      ]

  -- A batch that is made has as many certificates as were requested, or the configured maximum if 0
  -- were requested, and never more than that maximum (which fits an int).
  pub get_batch-size :
      (random : ℕ) (resp : GetBatchResponse)
      → tm.max_allowed_batch_size ≤ max_int
      → get_batch issuer tm req common_name nonce kdf_key random ≡ ok resp
      → (length resp.tcerts ≡ (if req.count == 0 then tm.max_allowed_batch_size else req.count))
        × (length resp.tcerts ≤ tm.max_allowed_batch_size)
  unfolding get_batch
  get_batch-size random resp fits h = elim (Result-cases (batch_size tm req.count)) [
    | inr (x, e) ↦ absurd (ground arith)
    | inl (n, e) ↦
        elim (Result-cases (issue_all issuer tm req common_name nonce kdf_key (rounds n) 0)) [
          | inr (x, f) ↦ absurd (ground arith)
          | inl (ts, f) ↦
              let (size, most) = batch_size-ok tm req.count n e in
              let made =
                ap (λ (r : GetBatchResponse). length r.tcerts) (ok-injective (rw (e, f) at h)) in
              let all = length-issue_all (rounds n) 0 ts f in ground arith
        ]
  ]

  -- A request for more than the configured maximum makes no certificate.
  pub get_batch_too_many :
      (random : ℕ)
      → tm.max_allowed_batch_size < req.count
      → get_batch issuer tm req common_name nonce kdf_key random ≡ err library_error
  unfolding get_batch batch_size
  get_batch_too_many random many = ground arith

-- The certificates of one batch have different indexes: two that are equal stand at one position.
pub tcert_index-injective :
    (nonce : Text) (i j : ℕ) → tcert_index nonce i ≡ tcert_index nonce j → i ≡ j
unfolding tcert_index
tcert_index-injective nonce i j e =
    let same =
      itoa-injective (2 * i + 1) (2 * j + 1)
        (append_cancel_right (itoa (2 * i + 1)) (itoa (2 * j + 1)) (nonce ++ padding) e) in
    omega arith
