-- ===== src/Sessions.antt =====
-- The session credentials of crates/wr-common/src/crypto.rs. HMAC-SHA-256 and the token's encoding
-- come from packages: `hmac` gives a key's tag of a message, `encode` and `decode` are those of the
-- crate jsonwebtoken under a key.
use Prim.Native.String.{String}
use virtual_waiting_room.Prelude.{ℕ, ◌≡◌, Option, some, none, List, leb, if◌then◌else◌, arith}
use virtual_waiting_room.Prelude.Result.{Result, ok, err}
use virtual_waiting_room.Prelude.Text.{codes}
use virtual_waiting_room.GenerateToken.Admit.{Session}

pub record Claims : Type 0 where
  pub aud : String
  pub sub : String
  pub exp : ℕ
  pub iat : Option ℕ
  pub cip : Option String

pub data Kind : Type 0 where
  session : Kind

abbrev pub label : Kind → List ℕ
label session = codes "vwr/jws/session/v1"

abbrev pub ip_tag_label : List ℕ
ip_tag_label = codes "vwr/ip/v1"

pub record SigningKey : Type 0 where
  pub session_key : List ℕ
  pub ip_key : List ℕ

unfoldable pub new_key : (List ℕ → List ℕ → List ℕ) → List ℕ → SigningKey
new_key hmac secret = record {
  session_key = hmac secret (label session);
  ip_key = hmac secret ip_tag_label;
}

abbrev pub for_kind : SigningKey → Kind → List ℕ
for_kind key session = key.session_key

pub data VerifyError : Type 0 where
  malformed bad_signature expired : VerifyError

pub data SignError : Type 0 where
  sign_error : SignError

-- What `decode` refuses a token for.
pub data ErrorKind : Type 0 where
  invalid_signature other : ErrorKind

module _ (encode : List ℕ → Claims → Option String)
    (decode : List ℕ → String → Result Claims ErrorKind) where
  abbrev or_sign_error : Option String → Result String SignError
  or_sign_error none = err sign_error
  or_sign_error (some token) = ok token

  unfoldable pub sign_claims : SigningKey → Kind → Claims → Result String SignError
  sign_claims key kind claims = or_sign_error (encode (for_kind key kind) claims)

  abbrev or_verify_error : Result Claims ErrorKind → Result Claims VerifyError
  or_verify_error (ok claims) = ok claims
  or_verify_error (err invalid_signature) = err bad_signature
  or_verify_error (err other) = err malformed

  unfoldable pub verify_claims : SigningKey → Kind → String → Result Claims VerifyError
  verify_claims key kind credential = or_verify_error (decode (for_kind key kind) credential)

  abbrev claims_of : Session → Claims
  claims_of s = record {
    aud = s.event_id;
    sub = s.request_id;
    exp = s.expires_at;
    iat = some s.issued_at;
    cip = s.ip_tag;
  }

  unfoldable pub sign : Session → SigningKey → Result String SignError
  unfolding sign_claims
  sign s key = sign_claims key session (claims_of s)

  abbrev with_issue : Claims → Option ℕ → Result Session VerifyError
  with_issue claims none = err malformed
  with_issue claims (some issued_at) = ok (record {
    event_id = claims.aud;
    request_id = claims.sub;
    issued_at = issued_at;
    expires_at = claims.exp;
    ip_tag = claims.cip;
  })

  abbrev unexpired : ℕ → Result Claims VerifyError → Result Session VerifyError
  unexpired now (err e) = err e
  unexpired now (ok claims) =
      if leb claims.exp now then err expired else with_issue claims claims.iat

  unfoldable pub verify : String → SigningKey → ℕ → Result Session VerifyError
  unfolding verify_claims
  verify credential key now = unexpired now (verify_claims key session credential)

  encoded_of : (r : Option String) (token : String) → or_sign_error r ≡ ok token → r ≡ some token
  encoded_of none token e = absurd (cc (e))
  encoded_of (some t) token e = cc

  -- A session that was signed is read back under the same key until it expires, and refused as
  -- expired from then on, if a token that was encoded under a key is decoded under it.
  pub verify-sign :
      ((key : List ℕ) (claims : Claims) (token : String)
        → encode key claims ≡ some token
        → decode key token ≡ ok claims)
      → (s : Session) (key : SigningKey) (now : ℕ) (token : String) → sign s key ≡ ok token
      → verify token key now ≡ (if leb s.expires_at now then err expired else ok s)
  unfolding sign verify
  verify-sign law s key now token e =
      let encoded = encoded_of (encode key.session_key (claims_of s)) token e in
      rw (law key.session_key (claims_of s) token encoded) (ground arith)
