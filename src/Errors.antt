-- ===== src/Errors.antt =====
-- api/error.go: the error codes, and the errors that the modelled functions return. An error keeps
-- what a caller can tell apart (its code, or which `errors.New` made it), and not its message text.
-- Also the two ways the code fails: an error result, and a method that changes state and may fail.
use copfvtci.Prelude.{ℕ, Bool, true, false, ◌≡◌, ◌⊎◌, inl, inr, refl, ap}

-- The constants of api/error.go in their order.
pub data CopCode : Type 0 where
  not_implemented cfssl not_supported too_many_args invalid_provider_name : CopCode
  read_file_error write_file_error marshall_error unmarshall_error invalid_config : CopCode
  not_initialized already_enrolled server_addr_not_set authorization_failure io_error : CopCode
  input output user_store_error enrolling_user_error registering_user_error : CopCode
  database_error tls_error : CopCode

-- 100000 + iota
pub code_of : CopCode → ℕ
code_of not_implemented = 100000
code_of cfssl = 100001
code_of not_supported = 100002
code_of too_many_args = 100003
code_of invalid_provider_name = 100004
code_of read_file_error = 100005
code_of write_file_error = 100006
code_of marshall_error = 100007
code_of unmarshall_error = 100008
code_of invalid_config = 100009
code_of not_initialized = 100010
code_of already_enrolled = 100011
code_of server_addr_not_set = 100012
code_of authorization_failure = 100013
code_of io_error = 100014
code_of input = 100015
code_of output = 100016
code_of user_store_error = 100017
code_of enrolling_user_error = 100018
code_of registering_user_error = 100019
code_of database_error = 100020
code_of tls_error = 100021

-- What the database engine answers instead of a result.
pub data DbFault : Type 0 where
  outage no_rows constraint bad_placeholder null_value : DbFault

pub data Error : Type 0 where
  -- cop.NewError(code, …)
  cop_error : CopCode → Error
  -- an error that the database handle returned
  db_error : DbFault → Error
  -- errors.New and fmt.Errorf, by the call that makes them
  unknown_db max_enrollments_reached state_not_updated not_yet_implemented : Error
  registrar_missing invalid_type group_registered : Error
  not_supported_by_ldap no_ldap_match many_ldap_matches ldap_failure invalid_ldap_config : Error
  no_auth_hdr basic_auth_not_allowed auth_error lacks_attribute : Error
  -- the error of CreateToken, wrapped under the code 1
  token_error : Error
  -- an error of a library function that the code passes on
  library_error : Error

pub data Result {ℓ} (A : Type ℓ) : Type ℓ where
  ok : A → Result A
  err : Error → Result A

abbrev pub is_ok {ℓ} : {A : Type ℓ} → Result A → Bool
is_ok (ok a) = true
is_ok (err e) = false

-- A method of an object with state `S`: what it wrote before it failed stays written.
abbrev pub Method : Type 0 → Type 0 → Type 0
Method S A = S → Result A × S

abbrev pub continue : {S A B : Type 0} → Result A → (A → Method S B) → Method S B
continue (ok a) f s = f a s
continue (err e) f s = (err e, s)

infixl 5 ◌>>=◌ ◌>>◌
abbrev pub ◌>>=◌ : {S A B : Type 0} → Method S A → (A → Method S B) → Method S B
◌>>=◌ m f s = continue (m s).0 f (m s).1

abbrev pub ◌>>◌ : {S A B : Type 0} → Method S A → Method S B → Method S B
m >> n = m >>= λ _. n

abbrev pub pure : {S A : Type 0} → A → Method S A
pure a s = (ok a, s)

abbrev pub raise : {S A : Type 0} → Error → Method S A
raise e s = (err e, s)

abbrev pub lift : {S A : Type 0} → Result A → Method S A
lift r s = (r, s)

-- `if !test { return err }`
abbrev pub require : {S : Type 0} → Bool → Error → Method S (Unit {0})
require true e s = (ok tt, s)
require false e s = (err e, s)

abbrev pub when : {S : Type 0} → Bool → Method S (Unit {0}) → Method S (Unit {0})
when true m s = m s
when false m s = (ok tt, s)

abbrev map_err : {A : Type 0} → (Error → Error) → Result A → Result A
map_err f (ok a) = ok a
map_err f (err e) = err (f e)

-- `if err != nil { return fmt.Errorf(…, err) }`
abbrev pub rename_err : {S A : Type 0} → (Error → Error) → Method S A → Method S A
rename_err f m s = (map_err f (m s).0, (m s).1)

-- `_, err := m(); if err == nil …`: goes on whether or not `m` failed
abbrev pub succeeds : {S A : Type 0} → Method S A → Method S Bool
succeeds m s = (ok (is_ok (m s).0), (m s).1)

pub Result-cases {ℓ} :
    {A : Type ℓ} (r : Result A) → ((a : A) × (r ≡ ok a)) ⊎ ((e : Error) × (r ≡ err e))
Result-cases (ok a) = inl (a, refl)
Result-cases (err e) = inr (e, refl)

-- A call that can also panic, with an index or a slice out of range.
pub data Outcome {ℓ} (A : Type ℓ) : Type ℓ where
  returned : A → Outcome A
  failed : Error → Outcome A
  panicked : Outcome A

pub ok-injective {ℓ} : {A : Type ℓ} {a b : A} → ok a ≡ ok b → a ≡ b
ok-injective h = cc

-- A call that can also end the process (log.Fatal).
pub data Run {ℓ} (A : Type ℓ) : Type ℓ where
  finished : A → Run A
  errored : Error → Run A
  crashed exited : Run A

abbrev pub then_run {ℓ} : {A B : Type ℓ} → Run A → (A → Run B) → Run B
then_run (finished a) rest = rest a
then_run (errored e) rest = errored e
then_run crashed rest = crashed
then_run exited rest = exited

abbrev pub run_of {ℓ} : {A : Type ℓ} → Result A → Run A
run_of (ok a) = finished a
run_of (err e) = errored e

pub finished-injective {ℓ} : {A : Type ℓ} {a b : A} → finished a ≡ finished b → a ≡ b
finished-injective h = cc

pub Run-cases {ℓ} :
    {A : Type ℓ} (r : Run A)
    → ((a : A) × (r ≡ finished a))
      ⊎ (((e : Error) × (r ≡ errored e)) ⊎ ((r ≡ crashed) ⊎ (r ≡ exited)))
Run-cases (finished a) = inl (a, refl)
Run-cases (errored e) = inr (inl (e, refl))
Run-cases crashed = inr (inr (inl refl))
Run-cases exited = inr (inr (inr refl))

pub then_run-finished :
    {A B : Type 0} (r : Run A) (f : A → Run B) (b : B)
    → then_run r f ≡ finished b
    → (a : A) × (r ≡ finished a) × (f a ≡ finished b)
then_run-finished (finished a) f b h = (a, refl, h)
then_run-finished (errored e) f b h = absurd (cc)
then_run-finished crashed f b h = absurd (cc)
then_run-finished exited f b h = absurd (cc)

pub run_of-finished : {A : Type 0} (r : Result A) (a : A) → run_of r ≡ finished a → r ≡ ok a
run_of-finished (ok b) a h = ap ok (finished-injective h)
run_of-finished (err e) a h = absurd (cc)
