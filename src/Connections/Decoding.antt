-- ===== src/Connections/Decoding.antt =====
-- What Decode of internal/connstring/connstring.go accepts, and which timestamps internal/auth/auth.go does.
use serverkit_agent.Base.{
  ℕ, suc, ◌+◌, ◌-◌, ◌*◌, ◌^◌, ◌≤◌, ◌<◌, leb, Bool, true, false, not, [], Option, none, some, Text,
  codes, text_eq, trim_space, has_prefix, contains, ◌≡◌, refl, sym, ap, ◌∙◌, ◌↔◌, arith, Bool-cases,
  inl, inr,
}
use serverkit_agent.Base.Int.{ℤ, pos, negsuc, ◌-ℤ◌, scale, wrap64}
use serverkit_agent.Base.Results.{
  success, Ensures, holds, Ensures-bind, Ensures-require, Ensures-success,
}
use serverkit_agent.Connections.{
  ParsedUrl, Decoded, empty_input, unknown_version, missing_host, missing_token, slash_in_token,
  scheme_prefix, token_of, decoded_of, parsed_url, decode, verify_timestamp, negated, absolute,
}

module _ (parse_url : Text → Option ParsedUrl) (parse_time : Text → Option ℤ) (text : Text) where
  -- What an accepted string gives: a host and a token without a slash from a URL with the scheme of this version.
  abbrev pub FromUrl : Decoded → Type 0
  FromUrl d =
      (u : ParsedUrl) × (has_prefix (trim_space text) scheme_prefix ≡ true)
      × (parse_url (trim_space text) ≡ some u)
      × (text_eq u.scheme (codes "sk1") ≡ true)
      × (text_eq u.host [] ≡ false)
      × (text_eq d.token [] ≡ false)
      × (contains d.token (codes "/") ≡ false)
      × (d ≡ decoded_of parse_time u)

  parsed_url-success :
      (o : Option ParsedUrl) (u : ParsedUrl) → parsed_url o ≡ success u → o ≡ some u
  parsed_url-success none u h = absurd (cc h)
  parsed_url-success (some v) u h = cc h

  disproved : (b : Bool) → not b ≡ true → b ≡ false
  disproved true h = sym h
  disproved false h = refl

  decode-Ensures : Ensures FromUrl (decode parse_url parse_time text)
  unfolding decode
  decode-Ensures =
      let s = trim_space text in
      Ensures-require (not (text_eq s [])) empty_input _ (λ given.
        Ensures-require (has_prefix s scheme_prefix) unknown_version _ (λ versioned.
          Ensures-bind (parsed_url (parse_url s)) _ (λ u parsed.
            Ensures-require (text_eq u.scheme (codes "sk1")) unknown_version _ (λ schemed.
              Ensures-require (not (text_eq u.host [])) missing_host _ (λ hosted.
                Ensures-require (not (text_eq (token_of u) [])) missing_token _ (λ tokened.
                  Ensures-require (not (contains (token_of u) (codes "/"))) slash_in_token
                    (success (decoded_of parse_time u))
                    (λ whole. holds (
                      u,
                      versioned,
                      parsed_url-success (parse_url s) u parsed,
                      schemed,
                      disproved (text_eq u.host []) hosted,
                      disproved (text_eq (token_of u) []) tokened,
                      disproved (contains (token_of u) (codes "/")) whole,
                      refl,
                    ))))))))

  -- A connection string that is accepted names a host and one token, under this version's scheme, and its URL is
  -- https unless it asks for http.
  pub decode-FromUrl : (d : Decoded) → decode parse_url parse_time text ≡ success d → FromUrl d
  decode-FromUrl d h = Ensures-success (decode parse_url parse_time text) d decode-Ensures h

wrap64_small : (n : ℕ) → n < 2 ^ 63 → wrap64 (pos n) ≡ pos n
unfolding wrap64
wrap64_small n h = ground arith

wrap64_negative : (n : ℕ) → n < 2 ^ 63 → wrap64 (negsuc n) ≡ negsuc n
unfolding wrap64
wrap64_negative n h = ground arith

past_difference : (now t : ℕ) → t ≤ now → pos now -ℤ pos t ≡ pos (now - t)
unfolding ◌-ℤ◌
past_difference now t h = ground arith

future_difference : (now t : ℕ) → now < t → pos now -ℤ pos t ≡ negsuc (t - now - 1)
unfolding ◌-ℤ◌
future_difference now t h = ground arith

zero_difference : (n : ℕ) → pos 0 -ℤ negsuc n ≡ pos (suc n)
unfolding ◌-ℤ◌
zero_difference n = ground arith

negated_lem : (n : ℕ) → suc n < 2 ^ 63 → negated (negsuc n) ≡ pos (suc n)
unfolding negated
negated_lem n h = ap wrap64 (zero_difference n) ∙ wrap64_small (suc n) h

-- A timestamp that is an int64 of milliseconds and not negative passes exactly when it is at most the age away from the
-- clock, in the past or in the future.
pub verify_timestamp_iff :
    (now t age : ℕ)
    → now < 2 ^ 63
    → t < 2 ^ 63
    → age * 1000 < 2 ^ 63
    → (verify_timestamp (pos now) (pos t) (pos age) ≡ true)
      ↔ ((t ≤ now + age * 1000) × (now ≤ t + age * 1000))
unfolding verify_timestamp absolute
verify_timestamp_iff now t age hn ht ha =
    let limit : wrap64 (scale (pos age) 1000) ≡ pos (age * 1000) = wrap64_small (age * 1000) ha in
    elim (Bool-cases (leb t now)) [
      | inl e ↦
          let past : t ≤ now = ground arith in
          let d : wrap64 (pos now -ℤ pos t) ≡ pos (now - t) =
            ap wrap64 (past_difference now t past) ∙ wrap64_small (now - t) (omega arith) in
          rw (d, limit) (ground arith)
      | inr e ↦
          let later : now < t = ground arith in
          let d : wrap64 (pos now -ℤ pos t) ≡ negsuc (t - now - 1) =
            ap wrap64 (future_difference now t later)
            ∙ wrap64_negative (t - now - 1) (omega arith) in
          let a : negated (negsuc (t - now - 1)) ≡ pos (suc (t - now - 1)) =
            negated_lem (t - now - 1) (omega arith) in
          rw (d, a, limit) (ground arith)
    ]
