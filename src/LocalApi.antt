-- ===== src/LocalApi.antt =====
-- internal/ipc/server.go: who may call the HTTP server that the desktop programs use.
pub mod Guarding
use serverkit_agent.Base.{
  ℕ, ltb, leb, if◌then◌else◌, Bool, true, false, ◌&&◌, ◌||◌, not, List, [], ◌∷◌, ◌++◌, Option, none,
  some, Text, codes, text_eq, mem_text, length, take, drop, trim_space, has_prefix,
}
use serverkit_agent.Base.Int.{ℤ}
use serverkit_agent.Base.Decimal.{itoa}
use serverkit_agent.Base.Results.{Result, success, failure, ◌>>=◌, ◌>>◌, require}

-- What the middleware reads of a request; a header that is not there is empty, as in Header.Get.
pub record ApiRequest : Type 0 where
  pub method : Text
  pub path : Text
  pub origin : Text
  pub authorization : Text
  pub query_token : Text

-- What comes of a request: 200 for a preflight, 401, or a call of the handlers.
pub data Served : Type 0 where
  preflight unauthorized handled : Served

-- With the value of Access-Control-Allow-Origin, where the headers of CORS are set.
pub record ApiAnswer : Type 0 where
  pub allow_origin : Option Text
  pub served : Served

abbrev pub local_origins : List Text
local_origins =
    codes "http://localhost"
    ∷ codes "https://localhost"
    ∷ codes "http://127.0.0.1"
    ∷ codes "https://127.0.0.1"
    ∷ []

abbrev pub local_prefixes : List Text
local_prefixes =
    codes "http://localhost:"
    ∷ codes "https://localhost:"
    ∷ codes "http://127.0.0.1:"
    ∷ codes "https://127.0.0.1:"
    ∷ []

unfoldable pub has_some_prefix : Text → List Text → Bool
has_some_prefix s [] = false
has_some_prefix s (p ∷ ps) = has_prefix s p || has_some_prefix s ps

unfoldable pub is_localhost : Text → Bool
is_localhost origin = mem_text origin local_origins || has_some_prefix origin local_prefixes

-- The argument is strings.EqualFold.
unfoldable pub bearer_token : (Text → Text → Bool) → ApiRequest → Text
bearer_token equal_fold r =
    if text_eq r.authorization []
    then r.query_token
    else if ltb 7 (length r.authorization) && equal_fold (take 7 r.authorization) (codes "Bearer ")
    then trim_space (drop 7 r.authorization)
    else []

-- authMiddleware before the handlers; subtle.ConstantTimeCompare is equality.
unfoldable pub auth_middleware : (Text → Text → Bool) → Text → ApiRequest → Served
auth_middleware equal_fold expected r =
    let got = bearer_token equal_fold r in
    if text_eq r.method (codes "OPTIONS")
    then handled
    else if text_eq r.path (codes "/health")
    then handled
    else if text_eq got [] || not (text_eq got expected)
    then unauthorized
    else handled

unfoldable pub cors_middleware : (ApiRequest → Served) → ApiRequest → ApiAnswer
cors_middleware next r = record {
  allow_origin = if text_eq r.origin [] || is_localhost r.origin then some r.origin else none;
  served = if text_eq r.method (codes "OPTIONS") then preflight else next r;
}

-- The handler that Start gives to the server; `no_auth` is SERVERKIT_IPC_NO_AUTH.
unfoldable pub serve : (Text → Text → Bool) → Bool → Text → ApiRequest → ApiAnswer
serve equal_fold no_auth expected =
    cors_middleware (λ r. if no_auth then handled else auth_middleware equal_fold expected r)

abbrev is_local_host : Option Text → Bool
is_local_host none = false
is_local_host (some host) = mem_text host (codes "127.0.0.1" ∷ codes "localhost" ∷ codes "::1" ∷ [])

-- The address that Start listens on; the first argument is the host that net.SplitHostPort finds.
unfoldable pub listen_address : (Text → Option Text) → Text → ℤ → Text
listen_address split_host address port =
    let addr = address ++ (codes ":" ++ itoa port) in
    if is_local_host (split_host addr) then addr else codes "127.0.0.1:" ++ itoa port

-- The file of the token: what is read, whether its directory can be made, 32 random bytes in hexadecimal, and
-- whether the file can be written.
pub record TokenFile : Type 0 where
  pub content : Option Text
  pub makes_dir : Bool
  pub random : Option Text
  pub writes : Bool

pub data TokenError : Type 0 where
  no_directory not_random not_written : TokenError

abbrev pub kept_token : Option Text → Option Text
kept_token none = none
kept_token (some text) = if leb 32 (length (trim_space text)) then some (trim_space text) else none

abbrev pub random_token : Option Text → Result TokenError Text
random_token none = failure not_random
random_token (some tok) = success tok

abbrev pub fresh_token : TokenFile → Result TokenError Text
fresh_token f = do
  require f.makes_dir no_directory
  tok ← random_token f.random
  require f.writes not_written
  success tok

abbrev pub kept_or : Option Text → Result TokenError Text → Result TokenError Text
kept_or none fresh = fresh
kept_or (some tok) fresh = success tok

unfoldable pub load_or_generate_token : TokenFile → Result TokenError Text
load_or_generate_token f = kept_or (kept_token f.content) (fresh_token f)
