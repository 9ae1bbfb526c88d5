-- ===== src/Possession.antt =====
-- The possession half of crates/wr-common/src/crypto.rs: the secret that a visitor keeps, and the
-- digest of it that a registration stores. SHA-256 and base64url come from packages: together they
-- are the parameter `sha256_base64url`, from the secret's text to the digest's.
use Prim.Native.String.{String, len}
use text.Mathlib.Text.{◌==◌ as str_eq}
use text.Mathlib.TextEquality.{eq_iff}
use virtual_waiting_room.Prelude.{ℕ, ◌&&◌, ◌||◌, Bool, true, ◌==◌, if◌then◌else◌, ◌≡◌, ◌↔◌, ap}
use virtual_waiting_room.Prelude.Result.{Result, ok, err}
use virtual_waiting_room.Prelude.Text.{codes, is_ascii_alphanumeric, all}

pub record PossessionSecret : Type 0 where
  pub text : String

pub record SecretDigest : Type 0 where
  pub text : String

pub data MalformedPossession : Type 0 where
  malformed_possession : MalformedPossession

-- `POSSESSION_B64_LEN`.
abbrev pub possession_b64_len : ℕ
possession_b64_len = 43

unfoldable pub is_b64url_32 : String → Bool
is_b64url_32 s =
    len s == possession_b64_len
    && all (λ b. is_ascii_alphanumeric b || b == b'-' || b == b'_') (codes s)

unfoldable pub parse_secret : String → Result PossessionSecret MalformedPossession
parse_secret s = if is_b64url_32 s then ok (record { text = s }) else err malformed_possession

pub parse_digest : String → Result SecretDigest MalformedPossession
parse_digest s = if is_b64url_32 s then ok (record { text = s }) else err malformed_possession

module _ (sha256_base64url : String → String) where
  unfoldable pub digest : PossessionSecret → SecretDigest
  digest secret = record { text = sha256_base64url secret.text }

  unfoldable pub is_digest_of : SecretDigest → PossessionSecret → Bool
  is_digest_of d secret = str_eq d.text (digest secret).text

  pub is_digest_of_iff :
      (d : SecretDigest) (secret : PossessionSecret)
      → (is_digest_of d secret ≡ true) ↔ (d ≡ digest secret)
  unfolding is_digest_of
  is_digest_of_iff d secret = (
    λ h. let same = (eq_iff d.text (digest secret).text).0 h in λ i. record { text = same i },
    λ e. (eq_iff d.text (digest secret).text).1 (ap (λ x. x.text) e),
  )
