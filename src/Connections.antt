-- ===== src/Connections.antt =====
-- internal/connstring/connstring.go and internal/auth/auth.go: the string that a panel gives, and signed messages.
pub mod Decoding
use serverkit_agent.Base.{
  ℕ, zero, suc, ◌*◌, ◌==◌, ltb, leb, if◌then◌else◌, Bool, true, false, ◌&&◌, ◌||◌, not, List, [],
  ◌∷◌, ◌++◌, Option, none, some, Text, codes, text_eq, length, take, trim_space, trim_prefix,
  has_prefix, contains,
}
use serverkit_agent.Base.Int.{ℤ, pos, negsuc, ltb_ℤ, leb_ℤ, ◌+ℤ◌, ◌-ℤ◌, scale, wrap64}
use serverkit_agent.Base.Decimal.{itoa}
use serverkit_agent.Base.Results.{Result, success, failure, ◌>>=◌, ◌>>◌, require}

-- What Decode uses of a parsed url.URL; `insecure` and `exp` are its Query().Get.
pub record ParsedUrl : Type 0 where
  pub scheme : Text
  pub host : Text
  pub path : Text
  pub insecure : Text
  pub exp : Text

pub record Decoded : Type 0 where
  pub url : Text
  pub token : Text
  pub expires_at : Option ℤ
  pub expires_at_raw : Text

pub data DecodeError : Type 0 where
  empty_input unknown_version not_parsed missing_host missing_token slash_in_token : DecodeError

abbrev pub scheme_prefix : Text
scheme_prefix = codes "sk1://"

abbrev pub is_insecure : ParsedUrl → Bool
is_insecure u =
    text_eq u.insecure (codes "1")
    || text_eq u.insecure (codes "true")
    || text_eq u.insecure (codes "yes")

abbrev pub panel_url : ParsedUrl → Text
panel_url u = (if is_insecure u then codes "http" else codes "https") ++ (codes "://" ++ u.host)

abbrev pub token_of : ParsedUrl → Text
token_of u = trim_prefix u.path (codes "/")

-- The arguments are url.Parse and time.Parse with RFC 3339.
abbrev pub decoded_of : (Text → Option ℤ) → ParsedUrl → Decoded
decoded_of parse_time u = record {
  url = panel_url u;
  token = token_of u;
  expires_at = if text_eq u.exp [] then none else parse_time u.exp;
  expires_at_raw = u.exp;
}

abbrev pub parsed_url : Option ParsedUrl → Result DecodeError ParsedUrl
parsed_url none = failure not_parsed
parsed_url (some u) = success u

unfoldable pub decode :
    (Text → Option ParsedUrl) → (Text → Option ℤ) → Text → Result DecodeError Decoded
decode parse_url parse_time text =
    let s = trim_space text in
    do
      require (not (text_eq s [])) empty_input
      require (has_prefix s scheme_prefix) unknown_version
      u ← parsed_url (parse_url s)
      require (text_eq u.scheme (codes "sk1")) unknown_version
      require (not (text_eq u.host [])) missing_host
      require (not (text_eq (token_of u) [])) missing_token
      require (not (contains (token_of u) (codes "/"))) slash_in_token
      success (decoded_of parse_time u)

pub record Authenticator : Type 0 where
  pub agent_id : Text
  pub api_key : Text
  pub api_secret : Text
  pub level : Text

abbrev pub update_credentials : Text → Text → Authenticator → Authenticator
update_credentials key secret a = record a { api_key = key; api_secret = secret }

abbrev pub new_authenticator : Text → Text → Text → Authenticator
new_authenticator id key secret = record {
  agent_id = id;
  api_key = key;
  api_secret = secret;
  level = [];
}

abbrev pub set_permission_level : Text → Authenticator → Authenticator
set_permission_level l a = record a { level = l }

-- A session's token, which is good up to a time.
pub record SessionToken : Type 0 where
  pub token : Text
  pub expires_at : ℤ

unfoldable pub is_expired : ℤ → SessionToken → Bool
is_expired now s = ltb_ℤ s.expires_at now

-- A duration after the time.
unfoldable pub is_expiring_soon : ℤ → ℤ → SessionToken → Bool
is_expiring_soon now within s = ltb_ℤ s.expires_at (now +ℤ within)

unfoldable pub api_key_prefix : Authenticator → Text
api_key_prefix a = if ltb (length a.api_key) 12 then a.api_key else take 12 a.api_key

-- The signatures; the argument is HMAC-SHA256 in hexadecimal.
module _ (hmac : Text → Text → Text) where
  unfoldable pub sign_message : Authenticator → ℤ → Text
  sign_message a timestamp = hmac a.api_secret (a.agent_id ++ (codes ":" ++ itoa timestamp))

  unfoldable pub sign_message_with_nonce : Authenticator → ℤ → Text → Text
  sign_message_with_nonce a timestamp nonce =
      hmac a.api_secret (a.agent_id ++ (codes ":" ++ (itoa timestamp ++ (codes ":" ++ nonce))))

  unfoldable pub sign_command : Authenticator → Text → Text → ℤ → Text
  sign_command a id action timestamp =
      hmac a.api_secret (id ++ (codes ":" ++ (action ++ (codes ":" ++ itoa timestamp))))

  unfoldable pub verify_signature : Authenticator → Text → Text → Bool
  verify_signature a message signature = text_eq (hmac a.api_secret message) signature

-- An int64 negated.
unfoldable pub negated : ℤ → ℤ
negated d = wrap64 (pos 0 -ℤ d)

unfoldable pub absolute : ℤ → ℤ
unfolding negated
absolute (pos n) = pos n
absolute (negsuc n) = negated (negsuc n)

-- VerifyTimestamp, at a time.
unfoldable pub verify_timestamp : ℤ → ℤ → ℤ → Bool
unfolding absolute
verify_timestamp now timestamp max_age_seconds =
    leb_ℤ (absolute (wrap64 (now -ℤ timestamp))) (wrap64 (scale max_age_seconds 1000))
