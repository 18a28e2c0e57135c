-- ===== src/TCert/Batch.antt =====
-- NewMgr, GetBatch and createHMACKey of lib/tcert/tcert.go. Random bytes, HMAC, AES, the curve, the clock and
-- x509.CreateCertificate are Go's: an `Issuer` holds them.
pub mod Size
use copfvtci.Prelude.{
  ℕ, zero, suc, ◌+◌, ◌*◌, Bool, true, false, not, ◌&&◌, Option, none, some, List, [], ◌∷◌, ◌++◌,
  Text, take, leb, ◌==◌, if◌then◌else◌,
}
use copfvtci.Prelude.Int.{ℤ, pos, leb_ℤ, max_int}
use copfvtci.Errors.{Result, ok, err, library_error}
use copfvtci.Accessor.{StrMap}
use copfvtci.TCert.Cbc.{Cbc, cbc_pkcs7_encrypt}
use copfvtci.TCert.Decimal.{itoa}
use copfvtci.TCert.Numbers.{gen_number, generate_int_uuid}
use copfvtci.TCert.Extensions.{Extension, AttrRequest, padding, generate_extensions}

-- Mgr, without the key and the certificate of the CA; a duration is in nanoseconds
pub record Mgr : Type 0 where
  pub validity_period : ℤ
  pub max_allowed_batch_size : ℕ

-- NewMgr: one year, and 1000 certificates
abbrev pub new_mgr : Mgr
new_mgr = record { validity_period = pos 31536000000000000; max_allowed_batch_size = 1000 }

pub record GetBatchRequest : Type 0 where
  pub count : ℕ
  pub attr_request : AttrRequest
  pub open attr_request use *
  pub requested_period : ℤ

pub record TCert : Type 0 where
  pub cert : Text
  pub keys : StrMap

pub record GetBatchResponse : Type 0 where
  pub id : ℕ
  pub ts : ℕ
  pub key : Text
  pub tcerts : List TCert

-- the fields of the x509.Certificate template that GetBatch sets anew
pub record Template : Type 0 where
  pub not_before : ℕ
  pub not_after : ℕ
  pub public_key : Text
  pub extensions : List Extension
  pub serial : ℕ

pub record Issuer : Type 0 where
  pub hmac : Text → Text → Text
  pub cbc : Cbc
  -- the order of the iteration over the attributes header
  pub order : List (Text × ℕ) → List (Text × ℕ)
  -- the random bytes of the i-th certificate: its UUID, and its k-th initialisation vector
  pub uuid : ℕ → Option Text
  pub iv : ℕ → ℕ → Option Text
  -- big.Int.Bytes
  pub int_bytes : ℕ → Text
  -- the point of the transaction key, from the MAC of the index
  pub tx_public_key : Text → Text
  pub now : ℕ
  -- time.Time.Add
  pub add_time : ℕ → ℤ → ℕ
  -- x509.CreateCertificate for the i-th certificate, and its PEM text
  pub create_certificate : ℕ → Template → Option Text
  pub to_pem : Text → Text

-- how many certificates to make
unfoldable pub batch_size : Mgr → ℕ → Result ℕ
batch_size tm count =
    if count == 0
    then ok tm.max_allowed_batch_size
    else if leb count tm.max_allowed_batch_size
    then ok count
    else err library_error

-- the rounds of `for i := 0; i < int(n); i++`: an n past the largest int is negative there
abbrev pub rounds : ℕ → ℕ
rounds n = if leb n max_int then n else 0

-- `vp`: the requested period where it is positive and shorter than the configured one
unfoldable pub validity : Mgr → ℤ → ℤ
validity tm requested =
    if not (leb_ℤ requested (pos 0)) && not (leb_ℤ tm.validity_period requested)
    then requested
    else tm.validity_period

-- tidx: the index, 16 bytes of nonce and the padding
unfoldable pub tcert_index : Text → ℕ → Text
tcert_index nonce i = itoa (2 * i + 1) ++ (nonce ++ padding)

abbrev pub and_then : {A B : Type 0} → Result A → (A → Result B) → Result B
and_then (ok a) f = f a
and_then (err e) f = err e

abbrev pub or_failed : {A : Type 0} → Option A → Result A
or_failed none = err library_error
or_failed (some a) = ok a

module _ (issuer : Issuer) (tm : Mgr) (req : GetBatchRequest)
    (common_name nonce kdf_key : Text) where
  open issuer use {
    hmac, cbc, order, uuid, iv, int_bytes, tx_public_key, now, add_time, create_certificate, to_pem,
  }

  abbrev pub ext_key : Text
  ext_key = take 32 (hmac kdf_key (1 ∷ []))

  abbrev tx_mac : Text → Text
  tx_mac tidx = hmac (hmac kdf_key (2 ∷ [])) tidx

  abbrev template : ℕ → Text → List Extension → Template
  template serial tidx extensions = record {
    not_before = now;
    not_after = add_time now (validity tm req.requested_period);
    public_key = tx_public_key (tx_mac tidx);
    extensions = extensions;
    serial = serial;
  }

  -- one round of the loop
  unfoldable pub issue : ℕ → Result TCert
  issue i =
      let tidx = tcert_index nonce i in
      and_then (generate_int_uuid (uuid i)) λ serial.
        and_then (cbc_pkcs7_encrypt cbc ext_key tidx (iv i 0)) λ encrypted.
          and_then
            (generate_extensions hmac cbc order req.attr_request (int_bytes serial) common_name
              encrypted (λ k. iv i (k + 1)))
            λ (extensions, ks).
              and_then (or_failed (create_certificate i (template serial tidx extensions)))
                λ raw. ok (record { cert = to_pem raw; keys = ks })

  abbrev cons_result : Result TCert → Result (List TCert) → Result (List TCert)
  cons_result (err e) rest = err e
  cons_result (ok t) (err e) = err e
  cons_result (ok t) (ok ts) = ok (t ∷ ts)

  -- `n` rounds from `i` on
  unfoldable pub issue_all : ℕ → ℕ → Result (List TCert)
  issue_all zero i = ok []
  issue_all (suc n) i = cons_result (issue i) (issue_all n (i + 1))

  -- GetBatch; `random` is the number that GenNumber draws
  unfoldable pub get_batch : ℕ → Result GetBatchResponse
  get_batch random = and_then (batch_size tm req.count) λ n.
      and_then (issue_all (rounds n) 0) λ tcerts.
        ok (record { id = gen_number 20 random; ts = now; key = kdf_key; tcerts = tcerts })
