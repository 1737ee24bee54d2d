-- ===== src/Api.antt =====
-- api/client.go: REST requests, their errors and the page that comes next. The HTTP client, the
-- codings of JSON and the texts of statuses are operations of `HttpLib`; a response is read whole, so
-- reading its body does not fail.
pub mod Requests
use bitbucket_cli.Prelude.{
  ℕ, String, Bool, false, ◌&&◌, not, Option, none, some, List, [], ◌∷◌, ◌++◌, leb, ltb, nat_eq,
  if◌then◌else◌, is_some,
}
use bitbucket_cli.Prelude.Codes.{Text, codes, text_eq, trim_prefix, trim_space, slash}
use bitbucket_cli.Prelude.Result
use bitbucket_cli.Prelude.Result.{Error, wrap, join, http_error, Result, ok, err}
use bitbucket_cli.Action.{Action, pure, raise, lift, ◌>>=◌, ◌>>◌}
use bitbucket_cli.Repo.{rest_prefix}

pub record Request : Type 0 where
  pub method : String
  pub url : Text
  pub headers : List (String × String)
  pub body : Option Text

pub record Response : Type 0 where
  pub status : ℕ
  pub body : Text

-- The values that the program puts into JSON objects.
pub data Scalar : Type 0 where
  text : Text → Scalar
  flag : Bool → Scalar

-- What the program uses of net/http and encoding/json: `new_request` is the error of
-- `http.NewRequest`, `send` the client's `Do`, `error_response` the message and the detail of an
-- ErrorResponse, and `next_page` the field `next`, where the body has the form for it. A Decoder
-- reads `error_message` of the value that a body begins with, and leaves `unread` of the body.
pub record HttpLib : Type 1 where
  pub Server : Type 0
  pub new_request : String → Text → Option Error
  pub send : Request → Server → Result Response × Server
  pub status_text : ℕ → Text
  pub marshal : List (String × Scalar) → Result Text
  pub error_response : Text → Option (Text × Text)
  pub next_page : Text → Option Text
  pub error_message : Text → Option Text
  pub unread : Text → Text

-- A call of `fmt.Fprintf` on a stream: the format and the arguments, without icons and colours.
pub record Line : Type 0 where
  pub format : String
  pub arguments : List Text

-- The state of a command: the server, the requests that were sent to it, and what was printed.
pub record Session (H : HttpLib) : Type 0 where
  pub server : H.Server
  pub sent : List Request
  pub out : List Line
  pub err_out : List Line

abbrev pub accept_json : String × String
accept_json = ("Accept", "application/json")

abbrev pub content_json : String × String
content_json = ("Content-Type", "application/json")

abbrev pub present : Option Error → Result (Unit {0})
present none = ok tt
present (some e) = err e

module _ {H : HttpLib} where
  abbrev pub print_out : String → List Text → Action (Session H) (Unit {0})
  print_out format arguments s =
      (ok tt, record s { out = s.out ++ record { format = format; arguments = arguments } ∷ [] })

  abbrev pub print_err : String → List Text → Action (Session H) (Unit {0})
  print_err format arguments s = (
    ok tt,
    record s { err_out = s.err_out ++ record { format = format; arguments = arguments } ∷ [] },
  )

  -- `client.Do`
  abbrev pub send_request : Request → Action (Session H) Response
  send_request r s =
      ((H.send r s.server).0, record s { server = (H.send r s.server).1; sent = s.sent ++ r ∷ [] })

  -- `http.NewRequest`, the headers, and `client.Do`
  unfoldable pub do_request : Request → Action (Session H) Response
  do_request r = do lift (λ s. present (H.new_request r.method r.url)); send_request r

-- The message of an error response, or else the body, or else the text of the status.
plain_message : (H : HttpLib) → Response → Text
plain_message H r =
    let message = trim_space r.body in
    if text_eq message [] then H.status_text r.status else message

response_message : (H : HttpLib) → Option (Text × Text) → Response → Text
unfolding plain_message
response_message H none r = plain_message H r
response_message H (some (message, detail)) r =
    if text_eq message []
    then plain_message H r
    else if text_eq detail []
    then message
    else message ++ codes ": " ++ detail

-- `HandleHTTPError`
unfoldable pub handle_http_error : (H : HttpLib) → Text → Response → Error
unfolding response_message
handle_http_error H url r =
    http_error r.status (response_message H (H.error_response r.body) r) url r.body

-- The headers of a request: the content has a type where there is content.
unfoldable pub rest_headers : Option Text → List (String × String)
rest_headers body = if is_some body then accept_json ∷ content_json ∷ [] else accept_json ∷ []

abbrev pub is_success : ℕ → Bool
is_success status = leb 200 status && ltb status 300

-- What the caller's variable is set to; `none` leaves it as it is.
abbrev pub decoded : {A : Type 0} → Option (Text → Result A) → Response → Result (Option A)
decoded none r = ok none
decoded (some decode) r = Result.◌>>=◌ (decode r.body) (λ a. ok (some a))

abbrev pub next_of : Option Text → Text
next_of none = []
next_of (some next) = next

module _ {H : HttpLib} {A : Type 0} where
  -- `RESTWithURL`
  unfoldable pub rest_with_url :
      String → Text → Option Text → Option (Text → Result A) → Action (Session H) (Option A)
  rest_with_url method url body data_form = do
    r ← do_request (record { method = method; url = url; headers = rest_headers body; body = body })
    if not (is_success r.status)
        then raise (handle_http_error H url r)
        else if nat_eq r.status 204
        then pure none
        else lift (λ s. decoded data_form r)

  -- `REST`
  unfoldable pub rest :
      Text → String → Text → Option Text → Option (Text → Result A) → Action (Session H) (Option A)
  rest hostname method path body data_form =
      rest_with_url method (rest_prefix hostname ++ trim_prefix path (slash ∷ [])) body data_form

  -- `RESTWithNextURL`: the value and the URL of the next page, empty where there is none.
  unfoldable pub rest_with_next_url :
      String → Text → Option Text → Option (Text → Result A) → Action (Session H) (Option A × Text)
  rest_with_next_url method url body data_form = do
    r ← do_request (record { method = method; url = url; headers = rest_headers body; body = body })
    if not (is_success r.status)
        then raise (handle_http_error H url r)
        else if nat_eq r.status 204
        then pure (none, [])
        else (do a ← lift (λ s. decoded data_form r); pure (a, next_of (H.next_page r.body)))

  -- `RESTWithNext`
  unfoldable pub rest_with_next :
      Text
      → String
      → Text
      → Option Text
      → Option (Text → Result A)
      → Action (Session H) (Option A × Text)
  rest_with_next hostname method path body data_form =
      rest_with_next_url method (rest_prefix hostname ++ trim_prefix path (slash ∷ [])) body
        data_form

  -- `Get` and `Delete`
  unfoldable pub get : Text → Text → (Text → Result A) → Action (Session H) (Option A)
  get hostname path decode = rest hostname "GET" path none (some decode)

  unfoldable pub delete : Text → Text → Action (Session H) (Option A)
  delete hostname path = rest hostname "DELETE" path none none

  -- `Post`, `Put` and `Patch`, which send the body that `jsonBody` makes of the input.
  unfoldable pub send_json :
      String
      → Text
      → Text
      → Option (List (String × Scalar))
      → Option (Text → Result A)
      → Action (Session H) (Option A)
  send_json method hostname path none data_form = rest hostname method path none data_form
  send_json method hostname path (some input) data_form = do
    body ← lift (λ s. H.marshal input)
    rest hostname method path (some body) data_form

-- The status of the first HTTPError among an error and those that it wraps, as `errors.As` finds it.
unfoldable pub http_status : Error → Option ℕ
http_status (http_error status message url body) = some status
http_status (wrap format arguments e) = http_status e
http_status (join e f) =
    let later = http_status f in elim (http_status e) [ none ↦ later | some status ↦ some status ]
http_status other = none

is_status : ℕ → Option ℕ → Bool
is_status n none = false
is_status n (some status) = nat_eq status n

-- `IsNotFoundError` at 404, `IsUnauthorizedError` at 401, `IsForbiddenError` at 403 and
-- `IsConflictError` at 409.
unfoldable pub has_http_status : ℕ → Error → Bool
unfolding is_status
has_http_status n e = is_status n (http_status e)
