-- ===== src/Agent/Rotation.antt =====
-- The rotation of credentials: handleCredentialUpdate of internal/agent/agent.go, and SaveCredentials of
-- internal/config/config.go.
use serverkit_agent.Base.{
  refl, if◌then◌else◌, Bool, true, false, ◌||◌, not, [], ◌∷◌, ◌++◌, Option, none, some, Text, codes,
  text_eq, text_eq_iff, ◌≡◌, ◌≢◌, ◌↔◌, ap, arith, Option-cases, inl, inr,
}
use serverkit_agent.Protocol.{CredentialUpdateMessage}
use serverkit_agent.Agent.{Agent, Credentials, Reply, ok, fail, Sent, ack, send}

-- hex(HMAC-SHA256(payload, secret)): the secret, then the payload.
abbrev pub Signer : Type 0
Signer = Text → Text → Text

-- What the host's calls return: MkdirAll's error, the encryption, WriteFile's error with what the key
-- file holds after it.
pub record Host : Type 0 where
  pub make_dir : Option Text
  pub encrypt : Text → Reply
  pub write_file : Text → Option Text × Option Text

abbrev pub colon : Text
colon = codes ":"

-- The payload that the panel signs.
abbrev pub rotation_payload : Text → CredentialUpdateMessage → Text
rotation_payload agent_id msg =
    msg.rotation_id ++ colon ++ agent_id ++ colon ++ msg.api_key ++ colon ++ msg.api_secret

abbrev is_empty : Text → Bool
is_empty s = text_eq s []

-- verifyCredentialRotation; `none` is nil.
unfoldable pub verify_credential_rotation : Signer → Agent → CredentialUpdateMessage → Option Text
verify_credential_rotation sign a msg =
    if is_empty msg.rotation_id || is_empty msg.api_key || is_empty msg.api_secret
    then some (codes "rotation message missing required fields")
    else if is_empty msg.hmac_sig
    then some (codes "rotation message missing hmac signature")
    else if is_empty a.auth.api_secret
    then some (codes "agent has no current secret; refusing to rotate")
    else if not (text_eq msg.hmac_sig (sign a.auth.api_secret (rotation_payload a.id msg)))
    then some (codes "hmac signature mismatch")
    else none

abbrev written : Option Text × Option Text → Option Text × Option Text
written (some err, file) = (some (codes "failed to write key file: " ++ err), file)
written (none, file) = (none, file)

abbrev write_encrypted : Host → Option Text → Reply → Option Text × Option Text
write_encrypted host file (fail err) = (some (codes "failed to encrypt credentials: " ++ err), file)
write_encrypted host file (ok encrypted) = written (host.write_file encrypted)

-- Config.SaveCredentials: its error, and the key file after it.
pub save_credentials : Host → Credentials → Option Text → Option Text × Option Text
save_credentials host c file =
    if is_empty c.api_key || is_empty c.api_secret then (none, file) else elim host.make_dir [
      | some err ↦ (some (codes "failed to create key directory: " ++ err), file)
      | none ↦ write_encrypted host file (host.encrypt (c.api_key ++ colon ++ c.api_secret))
    ]

abbrev pub ack_of : Text → Option Text → Sent
ack_of rotation (some err) = ack rotation false err
ack_of rotation none = ack rotation true []

unfoldable pub rotate : Host → CredentialUpdateMessage → Agent → Agent
unfolding save_credentials
rotate host msg a =
    let new : Credentials = record { api_key = msg.api_key; api_secret = msg.api_secret } in
    let (err, file) = save_credentials host new a.key_file in
    send (ack_of msg.rotation_id err) (record a { auth = new; config_auth = new; key_file = file })

abbrev by_verdict : Option Text → Host → CredentialUpdateMessage → Agent → Agent
by_verdict (some err) host msg a =
    send (ack msg.rotation_id false err)
      (record a { logged = a.logged ++ (codes "Credential rotation rejected: " ++ err) ∷ [] })
by_verdict none host msg a = rotate host msg a

-- handleCredentialUpdate. `none` is a payload that is no such message.
unfoldable pub handle_credential_update :
    Signer → Host → Option CredentialUpdateMessage → Agent → Agent
unfolding verify_credential_rotation rotate
handle_credential_update sign host none a = a
handle_credential_update sign host (some msg) a =
    by_verdict (verify_credential_rotation sign a msg) host msg a

-- The four fields that a rotation needs are present, and the signature is the one over them that the
-- agent's current secret gives.
abbrev pub IsAuthentic : Signer → Agent → CredentialUpdateMessage → Type 0
IsAuthentic sign a msg =
    (msg.rotation_id ≢ [])
    × (msg.api_key ≢ [])
    × (msg.api_secret ≢ [])
    × (a.auth.api_secret ≢ [])
    × (msg.hmac_sig ≢ [])
    × (msg.hmac_sig ≡ sign a.auth.api_secret (rotation_payload a.id msg))

-- The verification accepts a message exactly if it is authentic.
pub verify_credential_rotation_iff :
    (sign : Signer) (a : Agent) (msg : CredentialUpdateMessage)
    → (verify_credential_rotation sign a msg ≡ none) ↔ IsAuthentic sign a msg
unfolding verify_credential_rotation
verify_credential_rotation_iff sign a msg =
    let expected = sign a.auth.api_secret (rotation_payload a.id msg) in
    ground (
      arith,
      text_eq_iff msg.rotation_id [],
      text_eq_iff msg.api_key [],
      text_eq_iff msg.api_secret [],
      text_eq_iff a.auth.api_secret [],
      text_eq_iff msg.hmac_sig [],
      text_eq_iff msg.hmac_sig expected,
    )

-- The two outcomes of a credential update, by the verification.
pub handle_credential_update_lem :
    (sign : Signer) (host : Host) (msg : CredentialUpdateMessage) (a : Agent)
    → ((err : Text)
        → verify_credential_rotation sign a msg ≡ some err
        → handle_credential_update sign host (some msg) a ≡ record a {
          logged = a.logged ++ (codes "Credential rotation rejected: " ++ err) ∷ [];
          sent = a.sent ++ ack msg.rotation_id false err ∷ [];
        })
      × (verify_credential_rotation sign a msg ≡ none
          → handle_credential_update sign host (some msg) a ≡ record a {
            auth = record { api_key = msg.api_key; api_secret = msg.api_secret };
            config_auth = record { api_key = msg.api_key; api_secret = msg.api_secret };
            key_file =
                (save_credentials host
                  (record { api_key = msg.api_key; api_secret = msg.api_secret })
                  a.key_file).1;
            sent =
                a.sent
                ++ ack_of msg.rotation_id
                    (save_credentials host
                      (record { api_key = msg.api_key; api_secret = msg.api_secret })
                      a.key_file).0
                  ∷ [];
          })
unfolding handle_credential_update
handle_credential_update_lem sign host msg a =
    (λ err e. ap (λ v. by_verdict v host msg a) e, λ e. ap (λ v. by_verdict v host msg a) e)

-- What a credential update may do to the agent. One that is not authentic changes no credential and no
-- file, is logged, and is acknowledged as a failure. An authentic one puts the new credentials into the
-- authenticator and the configuration even if the save fails, and is acknowledged as a success exactly if
-- the save has no error.
pub data Rotated (sign : Signer) (host : Host) (msg : CredentialUpdateMessage) (a : Agent)
    : Agent → Type 0 where
  rejected :
      (err : Text)
      → ¬ IsAuthentic sign a msg
      → Rotated sign host msg a (record a {
        logged = a.logged ++ (codes "Credential rotation rejected: " ++ err) ∷ [];
        sent = a.sent ++ ack msg.rotation_id false err ∷ [];
      })
  saved :
      (new : Credentials) (file : Option Text)
      → IsAuthentic sign a msg
      → new.api_key ≡ msg.api_key
      → new.api_secret ≡ msg.api_secret
      → save_credentials host new a.key_file ≡ (none, file)
      → Rotated sign host msg a (record a {
        auth = new;
        config_auth = new;
        key_file = file;
        sent = a.sent ++ ack msg.rotation_id true [] ∷ [];
      })
  unsaved :
      (new : Credentials) (err : Text) (file : Option Text)
      → IsAuthentic sign a msg
      → new.api_key ≡ msg.api_key
      → new.api_secret ≡ msg.api_secret
      → save_credentials host new a.key_file ≡ (some err, file)
      → Rotated sign host msg a (record a {
        auth = new;
        config_auth = new;
        key_file = file;
        sent = a.sent ++ ack msg.rotation_id false err ∷ [];
      })

rotate-Rotated :
    (sign : Signer) (host : Host) (msg : CredentialUpdateMessage) (a : Agent)
    → IsAuthentic sign a msg
    → (outcome : Option Text × Option Text)
    → save_credentials host
        (record { api_key = msg.api_key; api_secret = msg.api_secret })
        a.key_file
      ≡ outcome
    → Rotated sign host msg a (record a {
      auth = record { api_key = msg.api_key; api_secret = msg.api_secret };
      config_auth = record { api_key = msg.api_key; api_secret = msg.api_secret };
      key_file = outcome.1;
      sent = a.sent ++ ack_of msg.rotation_id outcome.0 ∷ [];
    })
rotate-Rotated sign host msg a h (none, file) e = saved _ file h refl refl e
rotate-Rotated sign host msg a h (some err, file) e = unsaved _ err file h refl refl e

-- Every credential update has one of three outcomes. One that is not authentic changes no credential and
-- no file, is logged, and is acknowledged as a failure. An authentic one puts the new credentials into the
-- authenticator and the configuration, and is acknowledged as a success if they were saved, and as a
-- failure if not.
pub handle_credential_update-Rotated :
    (sign : Signer) (host : Host) (msg : CredentialUpdateMessage) (a : Agent)
    → Rotated sign host msg a (handle_credential_update sign host (some msg) a)
handle_credential_update-Rotated sign host msg a =
    let accepts = verify_credential_rotation_iff sign a msg in
    let (refuse, accept) = handle_credential_update_lem sign host msg a in
    elim (Option-cases (verify_credential_rotation sign a msg)) [
      | inr (err, e) ↦
          let differ : ¬ (verify_credential_rotation sign a msg ≡ none) = λ n. ground arith in
          rw (refuse err e) (rejected err (λ h. differ (accepts.1 h)))
      | inl e ↦ rw (accept e) (rotate-Rotated sign host msg a (accepts.0 e) _ refl)
    ]

-- The credentials that the agent signs with change only on an authentic message.
pub auth_changes :
    (sign : Signer) (host : Host) (msg : CredentialUpdateMessage) (a : Agent)
    → (handle_credential_update sign host (some msg) a).auth ≢ a.auth
    → IsAuthentic sign a msg
auth_changes sign host msg a changed = elim (Option-cases (verify_credential_rotation sign a msg)) [
  | inl e ↦ (verify_credential_rotation_iff sign a msg).0 e
  | inr (err, e) ↦ absurd (
      changed (ap (λ (b : Agent). b.auth) ((handle_credential_update_lem sign host msg a).0 err e)))
]
