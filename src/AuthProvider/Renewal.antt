-- ===== src/AuthProvider/Renewal.antt =====
-- When the access token is renewed.
use axiom_ai.Common.{ℕ, ◌+◌, ◌*◌, ◌≤◌, some, ◌≡◌, refl, arith, max, ◌-◌}
use axiom_ai.Json.{JsonCodec}
use axiom_ai.Types.{Session}
use axiom_ai.Auth.{to_stored_session}
use axiom_ai.AuthProvider.{Auth, renewal_delay, adopt}

module _ (codec : JsonCodec) where
  -- A session is adopted at the time at which the gateway sent it, and its access token lives for a
  -- minute and a half or more. The renewal timer fires at least half a minute later and exactly one
  -- minute before the token expires.
  renewal_delay-adopt :
      (now : ℕ) (payload : Session) (life : ℕ) (a : Auth)
      → payload.expires_in ≡ some life
      → 90 ≤ life
      → (delay : ℕ) × (renewal_delay now (adopt codec (to_stored_session now payload) a)
          ≡ some delay)
        × (30000 ≤ delay)
        × (delay + 60000 ≡ life * 1000)
  unfolding renewal_delay adopt to_stored_session
  renewal_delay-adopt now payload life a e long =
      (max (now + max (life - 60) 30 * 1000 - now) 5000, rw e refl, omega arith, omega arith)
