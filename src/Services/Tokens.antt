-- ===== src/Services/Tokens.antt =====
-- backend/app/core/security.py: what tokens say, who can read them, and for how long. bcrypt and
-- python-jose are the parameter `Crypto`; a signed token is opaque.
use job_schedular.Prelude.{
  ℕ, zero, suc, ◌+◌, ◌*◌, ◌≤◌, String, Bool, true, Option, none, some, ◌≡◌, ◌⊎◌, opt_str_is,
}
use job_schedular.Model.{Uuid, Time, seconds}
use job_schedular.Services.Access.{Result, ok, err, unauthorized, ◌>>◌, raise_unless}

-- The `sub` of a token: `str(user.id)` and all texts that uuid.UUID reads alike, or another text.
pub data Subject : Type 0 where
  uuid_text : Uuid → Subject
  empty_text : Subject
  malformed : Subject

-- what is signed, and what `jwt.decode` returns: a dictionary in which `type` or `sub` may be missing
pub record Claims : Type 0 where
  pub expires : Time
  pub subject : Subject
  pub token_type : String

pub record Payload : Type 0 where
  pub subject : Option Subject
  pub token_type : Option String

-- core/config.py
pub record Settings : Type 0 where
  pub secret_key : String
  pub access_token_expire_minutes : ℕ
  pub refresh_token_expire_days : ℕ

pub record Crypto (Token : Type 0) : Type 0 where
  pub hashpw : String → String → String
  pub checkpw : String → String → Bool
  pub encode : Claims → String → Token
  pub decode : Token → String → Time → Option Payload

abbrev pub payload_of : Claims → Payload
payload_of c = record { subject = some c.subject; token_type = some c.token_type }

-- What is documented of the two libraries: a password passes against its own hash; with its key a
-- token decodes to what was signed or not at all, surely until it expires, and no longer from the
-- second after.
pub record Lawful {Token : Type 0} (crypto : Crypto Token) : Type 0 where
  pub check_hash :
      (password salt : String) → crypto.checkpw password (crypto.hashpw password salt) ≡ true
  pub decode_cases :
      (c : Claims) (key : String) (now : Time)
      → (crypto.decode (crypto.encode c key) key now ≡ some (payload_of c))
        ⊎ (crypto.decode (crypto.encode c key) key now ≡ none)
  pub decode_encode :
      (c : Claims) (key : String) (now : Time)
      → now ≤ c.expires
      → crypto.decode (crypto.encode c key) key now ≡ some (payload_of c)
  pub decode_expired :
      (c : Claims) (key : String) (now : Time)
      → c.expires + seconds 1 ≤ now
      → crypto.decode (crypto.encode c key) key now ≡ none

-- if expires_delta: now + expires_delta, else the default
abbrev pub expiry : Option Time → Time → Time → Time
expiry none default now = now + default
expiry (some zero) default now = now + default
expiry (some (suc n)) default now = now + suc n

-- the claims of the two kinds of tokens
abbrev pub access_claims : Settings → Uuid → Option Time → Time → Claims
access_claims settings id delta now = record {
  expires = expiry delta (seconds (60 * settings.access_token_expire_minutes)) now;
  subject = uuid_text id;
  token_type = "access";
}

abbrev pub refresh_claims : Settings → Uuid → Option Time → Time → Claims
refresh_claims settings id delta now = record {
  expires = expiry delta (seconds (86400 * settings.refresh_token_expire_days)) now;
  subject = uuid_text id;
  token_type = "refresh";
}

-- not payload or payload.get("type") != …
unfoldable pub typed_payload : Option Payload → String → Result Payload
typed_payload none kind = err unauthorized
typed_payload (some payload) kind = do
  raise_unless (opt_str_is payload.token_type kind) unauthorized
  ok payload

-- uuid.UUID(payload.get("sub")), any failure of which is a malformed subject
abbrev pub subject_uuid : Option Subject → Result Uuid
subject_uuid none = err unauthorized
subject_uuid (some (uuid_text id)) = ok id
subject_uuid (some empty_text) = err unauthorized
subject_uuid (some malformed) = err unauthorized

module _ {Token : Type 0} (crypto : Crypto Token) (settings : Settings) where
  unfoldable pub create_access_token : Uuid → Option Time → Time → Token
  create_access_token id delta now =
      crypto.encode (access_claims settings id delta now) settings.secret_key

  unfoldable pub create_refresh_token : Uuid → Option Time → Time → Token
  create_refresh_token id delta now =
      crypto.encode (refresh_claims settings id delta now) settings.secret_key

  unfoldable pub decode_token : Token → Time → Option Payload
  decode_token token now = crypto.decode token settings.secret_key now
