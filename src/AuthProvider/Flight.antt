-- ===== src/AuthProvider/Flight.antt =====
-- The purpose of the one refresh in flight: a refresh token is never sent twice.
use axiom_ai.Common.{
  Option, none, some, Text, ◌≡◌, refl, arith, IsDistinct, Option-cases, inl, inr, ◌⊎◌,
}
use axiom_ai.Json.{JsonCodec}
use axiom_ai.Browser.{Browser}
use axiom_ai.Types.{StoredSession}
use axiom_ai.SessionStorage.{session_key, stored_session}
use axiom_ai.AuthProvider.{
  Auth, start, take_flight, refresh, mount, refresh_settled, on_storage, sign_in, sign_out,
}
use axiom_ai.AuthProvider.Steps.{
  IsUnspent, Step, asked, renewed, denied, failed, entered, refused, left, session_elsewhere,
  other_elsewhere, Reach, here, next,
}

pub record IsSingle (a : Auth) : Type 0 where
  pub distinct : IsDistinct a.refreshed
  pub unspent : a.flight ≡ none → IsUnspent a.refreshed a.session

take_flight-IsSingle :
    (s : StoredSession) (o : Option Text) (a : Auth)
    → a.flight ≡ o
    → a.session ≡ some s
    → IsSingle a
    → IsSingle (take_flight s o a)
unfolding take_flight
take_flight-IsSingle s none a idle held h = record {
  distinct = ((rw held at (h.unspent idle)), h.distinct);
  unspent = λ e. cc;
}
take_flight-IsSingle s (some t) a idle held h = h

refresh-IsSingle : (a : Auth) → IsSingle a → IsSingle (refresh a)
unfolding refresh
refresh-IsSingle a h = elim (Option-cases a.session) [
  | inl out ↦ rw (out, refresh) h
  | inr (s, held) ↦ rw (held, refresh) (take_flight-IsSingle s a.flight a refl held h)
]

refresh_shared : (a : Auth) → (a.flight ≡ none) ⊎ ((refresh a).refreshed ≡ a.refreshed)
unfolding refresh
refresh_shared a = ground arith

module _ (codec : JsonCodec) where
  on_storage-IsSingle :
      (a : Auth) (b : Browser)
      → IsUnspent a.refreshed (stored_session codec b)
      → IsSingle a
      → IsSingle (on_storage codec (some session_key) (record a { browser = b }))
  unfolding on_storage
  on_storage-IsSingle a b u h = record { distinct = h.distinct; unspent = λ e. u }

  Step-IsSingle : {a b : Auth} → Step codec a b → IsSingle a → IsSingle b
  unfolding refresh_settled sign_in sign_out
  Step-IsSingle (asked a) h = refresh-IsSingle a h
  Step-IsSingle (renewed a token s flying issued) h = record {
    distinct = h.distinct;
    unspent = λ e. issued.unspent;
  }
  Step-IsSingle (denied a token message flying) h = record {
    distinct = h.distinct;
    unspent = λ e. tt;
  }
  Step-IsSingle (failed a token flying) h = record { distinct = h.distinct; unspent = λ e. tt }
  Step-IsSingle (entered a s issued) h = record {
    distinct = h.distinct;
    unspent = λ e. issued.unspent;
  }
  Step-IsSingle (refused a message) h = h
  Step-IsSingle (left a) h = record { distinct = h.distinct; unspent = λ e. tt }
  Step-IsSingle (session_elsewhere a b ready u) h = on_storage-IsSingle a b u h
  Step-IsSingle (other_elsewhere a b key ready other same) h =
      unfold on_storage in
      rw (other, on_storage) (record { distinct = h.distinct; unspent = h.unspent })

  Reach-IsSingle : {a b : Auth} → IsSingle a → Reach codec a b → IsSingle b
  Reach-IsSingle h here = h
  Reach-IsSingle h (next r step) = Step-IsSingle step (Reach-IsSingle h r)

  mount-IsSingle : (b : Browser) → IsSingle (mount codec (start b))
  unfolding mount start
  mount-IsSingle b = elim (Option-cases (stored_session codec b)) [
    | inl out ↦ rw (out, mount) (record { distinct = tt; unspent = λ e. tt })
    | inr (s, held) ↦ rw (held, mount) (record { distinct = tt; unspent = λ e. tt })
  ]

  -- From the first effect on, in any order of events, no refresh token is sent in two requests; and
  -- unless no refresh is in flight, a call of `refresh` sends nothing.
  pub refreshed_once :
      (b : Browser) {a : Auth}
      → Reach codec (mount codec (start b)) a
      → IsDistinct a.refreshed × ((a.flight ≡ none) ⊎ ((refresh a).refreshed ≡ a.refreshed))
  refreshed_once b {a} r = ((Reach-IsSingle (mount-IsSingle b) r).distinct, refresh_shared a)
