-- ===== src/Request/Reply.antt =====
-- The struct `Request` and its methods that reply. A method returns or panics, and in both cases
-- leaves a request behind, as `executeHandler` recovers and goes on with it.
use go_res.Base.{
  ℕ, if◌then◌else◌, ◌==◌, codes, Bytes, Bool, true, ◌&&◌, Option, none, some, List, [], ◌∷◌, ◌++◌,
}
use go_res.Pattern.Valid.{is_nil}

-- errors.go: the struct `Error`, without its data.
pub record Error : Type 0 where
  pub code : Bytes
  pub message : Bytes

abbrev pub internal_error : Bytes → Error
internal_error text = record {
  code = codes "system.internalError";
  message = codes "Internal error: " ++ text;
}

-- codec.go: `metaObject`. Header names stand for the headers.
pub record Meta : Type 0 where
  pub status : ℕ
  pub header : List Bytes

-- The predefined responses.
pub data Static : Type 0 where
  access_denied internal not_found method_not_found invalid_params invalid_query : Static
  missing_response missing_query access_granted no_query_events success : Static

-- What is put in the result of a response. `V` is the type of the values of the service.
pub data Content (V : Type 0) : Type 0 where
  null : Content V
  value : V → Content V
  access : Bool → Bytes → Content V
  model collection : V → Bytes → Content V
  reference : Bytes → Content V

-- codec.go: `successResponse`, `resourceResponse`, `errorResponse`.
pub data Response (V : Type 0) : Type 0 where
  of_success : Content V → Option Meta → Response V
  of_resource : Bytes → Option Meta → Response V
  of_error : Error → Option Meta → Response V

pub data Payload : Type 0 where
  static : Static → Payload
  encoded : Bytes → Payload

-- What `json.Marshal` returns: bytes, or an error with its text.
pub data Marshalled : Type 0 where
  bytes failed : Bytes → Marshalled

-- A Go error: a `*Error`, or another with its text.
pub data Failure : Type 0 where
  res_error : Error → Failure
  plain : Bytes → Failure

-- The value of a panic: an error, a string, or another value with its text.
pub data Raised : Type 0 where
  failure : Failure → Raised
  text other : Bytes → Raised

-- `replies` holds what was published on the reply subject by `reply`, and `notices` all else.
pub record Request : Type 0 where
  pub rtype : Bytes
  pub method : Bytes
  pub is_http : Bool
  pub replied : Bool
  pub rheader : List Bytes
  pub status : ℕ
  pub replies : List Payload
  pub notices : List Bytes

pub data Outcome : Type 0 where
  done : Request → Outcome
  raised : Raised → Request → Outcome

abbrev pub left : Outcome → Request
left (done r) = r
left (raised v r) = r

unfoldable pub reply : Payload → Request → Outcome
reply payload r =
    if r.replied
    then raised (text (codes "res: response already sent on request")) r
    else done (record r { replied = true; replies = r.replies ++ payload ∷ [] })

unfoldable pub meta : Request → Option Meta
meta r =
    if is_nil r.rheader && r.status == 0
    then none
    else some (record { status = r.status; header = r.rheader })

module _ {V : Type 0} (marshal : Response V → Marshalled) where
  error_payload : Marshalled → Payload
  error_payload (bytes b) = encoded b
  error_payload (failed why) = static internal

  -- The method `error`.
  unfoldable pub reply_error : Error → Option Meta → Request → Outcome
  unfolding error_payload reply
  reply_error e m r = reply (error_payload (marshal (of_error e m))) r

  unfoldable pub reply_marshalled : Marshalled → Request → Outcome
  unfolding reply_error
  reply_marshalled (bytes b) r = reply (encoded b) r
  reply_marshalled (failed why) r = reply_error (internal_error why) none r

  -- The method `success`.
  unfoldable pub reply_success : Content V → Option Meta → Request → Outcome
  unfolding reply_marshalled
  reply_success content m r = reply_marshalled (marshal (of_success content m)) r

  -- `if m == nil { r.reply(…) } else { r.error(…) }`
  unfoldable pub reply_static_or_error : Static → Error → Option Meta → Request → Outcome
  unfolding reply reply_error
  reply_static_or_error s e none r = reply (static s) r
  reply_static_or_error s e (some m) r = reply_error e (some m) r

  -- InvalidParams and InvalidQuery, with the predefined response, the code and the default message.
  unfoldable pub reply_invalid : Static → Bytes → Bytes → Bytes → Request → Outcome
  unfolding reply_static_or_error reply_error meta
  reply_invalid s code default message r =
      if is_nil message
      then reply_static_or_error s (record { code = code; message = default }) (meta r) r
      else reply_error (record { code = code; message = message }) (meta r) r

  unfoldable pub reply_ok : Option V → Option Meta → Request → Outcome
  unfolding reply reply_success
  reply_ok none none r = reply (static success) r
  reply_ok none (some m) r = reply_success null (some m) r
  reply_ok (some v) m r = reply_success (value v) m r

  unfoldable pub reply_denied : Request → Outcome
  unfolding reply_static_or_error meta
  reply_denied r =
      reply_static_or_error access_denied
        (record { code = codes "system.accessDenied"; message = codes "Access denied" }) (meta r) r

  unfoldable pub reply_granted : Option Meta → Request → Outcome
  unfolding reply reply_success
  reply_granted none r = reply (static access_granted) r
  reply_granted (some m) r = reply_success (access true (codes "*")) (some m) r
