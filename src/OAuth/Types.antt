-- ===== src/OAuth/Types.antt =====
-- auth/oauth/types.go and auth/oauth/provider.go: the data that flows between the arrows.
use sibyl.Prelude.{
  ℕ, suc, ◌+◌, String, Bool, false, List, Option, Result, ltb, nat_eq, if◌then◌else◌,
}
use sibyl.Prelude.Int.{ℤ, pos, negsuc}
use sibyl.Prelude.Maps.{GoMap}

pub record AuthRequest : Type 0 where
  pub provider : String
  pub scopes : List String
  pub redirect_uri : String
  pub state : String
  pub code_verifier : String
  pub code_challenge : String

pub record AuthorizeRedirect : Type 0 where
  pub url : String
  pub state : String
  pub code_verifier : String

pub record AuthCode : Type 0 where
  pub code : String
  pub state : String

pub record TokenPair (A : Type 0) : Type 0 where
  pub access_token : String
  pub refresh_token : String
  pub token_type : String
  pub expires_at : ℕ
  pub scope : String
  pub raw : GoMap A

pub record Identity (A : Type 0) : Type 0 where
  pub canonical : String
  pub provider : String
  pub provider_id : String
  pub email : String
  pub display_name : String
  pub raw : GoMap A

pub record Session (A : Type 0) : Type 0 where
  pub identity : Identity A
  pub token : TokenPair A
  pub issued_at : ℕ
  pub expires_at : ℕ

-- `FlowInput` and `ExchangeRequest`, which have the same fields.
pub record ExchangeRequest : Type 0 where
  pub code : AuthCode
  pub code_verifier : String
  pub redirect_uri : String

pub record Provider (A F : Type 0) : Type 0 where
  pub name : String
  pub authorize : AuthRequest → Result F AuthorizeRedirect
  pub exchange : ExchangeRequest → Result F (TokenPair A)
  pub refresh : TokenPair A → Result F (TokenPair A)
  pub whoami : TokenPair A → Result F (Identity A)
  pub revoke : Option (TokenPair A → Option F)

abbrev pub is_expired : {A : Type 0} → ℕ → TokenPair A → Bool
is_expired now t = if nat_eq t.expires_at 0 then false else ltb t.expires_at now

-- time.Now().Add(d).After(t.ExpiresAt)
abbrev later_than : ℕ → ℤ → ℕ → Bool
later_than now (pos d) time = ltb time (now + d)
later_than now (negsuc d) time = ltb (time + suc d) now

abbrev pub is_expiring_within : {A : Type 0} → ℕ → ℤ → TokenPair A → Bool
is_expiring_within now d t = if nat_eq t.expires_at 0 then false else later_than now d t.expires_at
