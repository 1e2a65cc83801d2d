-- ===== src/Types.antt =====
-- frontend/src/lib/types.ts: messages, conversations, users and sessions. A timestamp is a natural number of
-- milliseconds; `citations` is kept as the JSON value that the server sent.
pub mod Encode
pub mod Sessions
use axiom_ai.Common.{ℕ, Bool, List, Option, Text}
use axiom_ai.Json.{Json}

pub data Role : Type 0 where
  user assistant : Role

pub record Message : Type 0 where
  pub id : Text
  pub role : Role
  pub content : Text
  pub citations : Option Json
  pub created_at : ℕ
  pub is_error : Bool

pub record Conversation : Type 0 where
  pub id : Text
  pub title : Text
  pub messages : List Message
  pub created_at : ℕ
  pub updated_at : ℕ

-- `id` is `none` where it is missing or `null`.
pub record User : Type 0 where
  pub id : Option Text
  pub email : Text
  pub name : Text
  pub created_at : Text

-- What the gateway sends for a new session. `expires_in`, like `expires_at`, is `none` where it counts
-- as NaN.
pub record Session : Type 0 where
  pub user : Option User
  pub access_token : Text
  pub refresh_token : Text
  pub expires_in : Option ℕ
  pub token_type : Text

-- `user` is `none` where the value is missing, `null` or falsy in another way.
pub record StoredSession : Type 0 where
  pub user : Option User
  pub access_token : Text
  pub refresh_token : Text
  pub expires_at : Option ℕ

pub data Theme : Type 0 where
  light dark system : Theme
