-- ===== src/Auth/Laws.antt =====
-- When the client takes a session to expire, and which errors it reports.
use axiom_ai.Common.{ℕ, ◌+◌, ◌*◌, ◌≤◌, ◌<◌, ◌≡◌, ◌⊎◌, arith, some, refl, max, ◌-◌}
use axiom_ai.Types.{Session}
use axiom_ai.Auth.{to_stored_session}

-- An answer that says how long its token lives gets an expiry. It is at least half a minute ahead. For
-- a token that lives a minute and a half or more it is one minute before the token expires; for one
-- that lives half a minute or more it is less than a minute before that and not past it; for every
-- shorter one it is past it.
pub to_stored_session_expiry :
    (now : ℕ) (p : Session) (life : ℕ)
    → p.expires_in ≡ some life
    → (expiry : ℕ) × ((to_stored_session now p).expires_at ≡ some expiry)
      × (now + 30000 ≤ expiry)
      × (((90 ≤ life) × (expiry + 60000 ≡ now + life * 1000))
          ⊎ (((30 ≤ life)
                × (life < 90)
                × (expiry ≤ now + life * 1000)
                × (now + life * 1000 < expiry + 60000))
              ⊎ ((life < 30) × (now + life * 1000 < expiry))))
unfolding to_stored_session
to_stored_session_expiry now p life e =
    (now + max (life - 60) 30 * 1000, rw e refl, omega arith, omega arith)
