-- ===== src/Client/Http.antt =====
-- NewPost and SendPost of lib/client.go. The HTTP client, with the TLS configuration that SendPost loads
-- for it, and JSON are parameters; what the network does is a state.
use copfvtci.Prelude.{
  ℕ, ◌≡◌, sym, ap, inl, inr, arith, Bool-cases, Bool, true, false, Option, none, some, List, [],
  ◌∷◌, ◌++◌, Text, codes, leb, if◌then◌else◌,
}
use copfvtci.Errors.{Result, ok, err, cop_error, cfssl, library_error, Result-cases, ok-injective}
use copfvtci.TCert.Decimal.{itoa}
use copfvtci.Client.Url.{NetLib, get_url}

-- Client
pub record Client : Type 0 where
  pub server_url : Text
  pub home_dir : Text

-- a POST; `authorization` is the header, "" if it is not set
pub record HttpRequest : Type 0 where
  pub url : Text
  pub authorization : Text
  pub body : Text

-- reading the body may fail; no body reads as none of its bytes
pub record HttpResponse : Type 0 where
  pub status : ℕ
  pub body : Option Text

-- what json.Unmarshal into an api.Response leaves: whether it succeeded, and the messages of the errors
pub record ErrorBody : Type 0 where
  pub decoded : Bool
  pub messages : List Text

pub record Network (W : Type 0) : Type 0 where
  -- http.NewRequest accepts the URL
  pub accepts_url : Text → Bool
  -- httpClient.Do
  pub do_request : HttpRequest → W → Option HttpResponse × W
  pub error_body : Text → ErrorBody

-- what SendPost returns; an error from the server with its message
pub data Posted : Type 0 where
  received : Text → Posted
  post_failed read_failed : Posted
  refused : Text → Posted

abbrev pub posted_result : Posted → Result Text
posted_result (received body) = ok body
posted_result post_failed = err library_error
posted_result read_failed = err library_error
posted_result (refused msg) = err library_error

-- HTTP status code=%d; %s
abbrev pub status_message : ℕ → Text → Text
status_message status body = codes "HTTP status code=" ++ itoa status ++ codes "; " ++ body

-- `if err != nil && len(body.Errors) > 0 { … } else { … }`
abbrev first_or : Bool → List Text → Text → Text
first_or false (m ∷ ms) fallback = m
first_or false [] fallback = fallback
first_or true ms fallback = fallback

unfoldable pub error_message : ErrorBody → ℕ → Text → Text
error_message e status body = first_or e.decoded e.messages (status_message status body)

module _ {W : Type 0} (net : Network W) where
  abbrev response_of : ℕ → Text → Posted
  response_of status body =
      if leb 400 status
      then refused (
          codes "Error response from COP server; "
          ++ error_message (net.error_body body) status body)
      else received body

  abbrev pub answered : Option HttpResponse → Posted
  answered none = post_failed
  answered (some r) = elim r.body [ none ↦ read_failed | some body ↦ response_of r.status body ]

  unfoldable pub send_post : HttpRequest → W → Posted × W
  send_post req w = let (r, w') = net.do_request req w in (answered r, w')

  abbrev posting : Text → Result Text → Result HttpRequest
  posting body (err e) = err e
  posting body (ok url) =
      if net.accepts_url url
      then ok (record { url = url; authorization = []; body = body })
      else err (cop_error cfssl)

  -- NewPost
  unfoldable pub new_post : NetLib → Client → Text → Text → Result HttpRequest
  new_post lib client endpoint body = posting body (get_url lib client.server_url endpoint)

  pub new_post-body :
      (lib : NetLib) (client : Client) (endpoint body : Text) (req : HttpRequest)
      → new_post lib client endpoint body ≡ ok req
      → req.body ≡ body
  unfolding new_post
  new_post-body lib client endpoint body req h =
      elim (Result-cases (get_url lib client.server_url endpoint)) [
        | inr (x, e) ↦ absurd (ground arith)
        | inl (url, e) ↦ elim (Bool-cases (net.accepts_url url)) [
          | inr f ↦ absurd (ground arith)
          | inl f ↦ ap (λ (r : HttpRequest). r.body) (sym (ok-injective (rw (e, f) at h)))
        ]
      ]

  -- An error response whose body decodes is reported by its status and its whole body: the message that
  -- the server put into it is not taken out, whatever it is.
  pub send_post_message :
      (req : HttpRequest) (w : W) (status : ℕ) (body : Text)
      → (net.do_request req w).0 ≡ some (record { status = status; body = some body })
      → leb 400 status ≡ true
      → (net.error_body body).decoded ≡ true
      → (send_post req w).0
        ≡ refused (codes "Error response from COP server; " ++ status_message status body)
  unfolding send_post error_message
  send_post_message req w status body answer bad decoded = rw (answer, bad, decoded)
