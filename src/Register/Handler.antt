-- ===== src/Register/Handler.antt =====
-- registerHandler.Handle of cli/server/register.go, from the body of the request (`none` if reading it
-- fails). The JSON parser is an argument.
use copfvtci.Prelude.{◌≡◌, Option, none, some, List, [], Text, false}
use copfvtci.Prelude.Int.{ℤ}
use copfvtci.Errors.{Method, ok, raise, library_error}
use copfvtci.Spi.{Attribute, UserRegistry}
use copfvtci.Db.{Db, user_is}
use copfvtci.Db.Rows.{find_row}
use copfvtci.Accessor.{Json, db_registry}
use copfvtci.Accessor.Enrollment.{Up}
use copfvtci.Register.{register_user, validate_id, require_group, token_of}
use copfvtci.Register.OnDb.{registered, registration-get_db_user}

-- api.RegisterRequest
pub record RegisterRequest : Type 0 where
  pub user : Text
  pub group : Text
  pub type : Text
  pub attributes : List Attribute
  pub caller_id : Text

module _ {S : Type 0} (reg : UserRegistry S) (max : ℤ) (random : Text) where
  abbrev register_parsed : Option RegisterRequest → Method S Text
  register_parsed none = raise library_error
  register_parsed (some req) =
      register_user reg max random req.user req.type req.group req.attributes req.caller_id []

  -- Handle, up to the response, which is the token
  unfoldable pub handle_register : (Text → Option RegisterRequest) → Option Text → Method S Text
  handle_register parse none = raise library_error
  handle_register parse (some body) = register_parsed (parse body)

-- A body that names no caller registers a user of any type that needs no group, with any attributes: on
-- an engine that answers, for an id that is not taken, the handler returns the random token and the
-- user is stored, whoever sent the request.
pub handle_register_anonymous :
    (json : Json) (max : ℤ) (random : Text) (parse : Text → Option RegisterRequest) (body : Text)
    (req : RegisterRequest) (db : Db)
    → parse body ≡ some req
    → req.caller_id ≡ []
    → require_group req.type ≡ false
    → json.unmarshal (json.marshal req.attributes) ≡ some req.attributes
    → find_row (user_is req.user) db.users ≡ none
    → Up db
    → handle_register (db_registry json) max random parse (some body) (some db) ≡ (
      ok random,
      some (registered json max random req.user req.type req.group req.attributes [] db),
    )
unfolding handle_register register_user validate_id token_of
handle_register_anonymous json max random parse body req db parsed nobody free decodes fresh up =
    rw (parsed, nobody, free)
      (registration-get_db_user json max random req.user req.type req.group req.attributes [] db
        fresh up decodes).0
