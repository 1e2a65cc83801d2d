-- ===== src/Api/Retry.antt =====
-- The one retry of `authedFetch`.
use axiom_ai.Common.{
  true, false, ◌==◌, Option, none, some, List, [], ◌∷◌, ◌++◌, if◌then◌else◌, Text, codes, text_eq,
  ◌≡◌, ◌≢◌, ◌⊎◌, refl, arith, Bool-cases, inl, inr, ap, ◌∙◌,
}
use axiom_ai.Browser.{lookup}
use axiom_ai.Browser.Laws.{lookup-insert}
use axiom_ai.Stream.{Response, Fetched, rejected, resolved}
use axiom_ai.Auth.{Request}
use axiom_ai.Api.{authorize, with_auth_headers, is_unauthorized, retry, authed_fetch}

-- The request `sent` is `init` with a bearer token: it asks the same of the same place, and its
-- headers are those of `init` but for the one that holds the token.
pub record IsBearing (token : Text) (init sent : Request) : Type 0 where
  pub same_method : sent.method ≡ init.method
  pub same_url : sent.url ≡ init.url
  pub same_body : sent.body ≡ init.body
  pub bearer : lookup (codes "Authorization") sent.headers ≡ some (codes "Bearer " ++ token)
  pub others :
      (name : Text)
      → text_eq (codes "Authorization") name ≡ false
      → lookup name sent.headers ≡ lookup name init.headers

-- With a token that is there and not empty the request bears it, and else it goes out as it is.
abbrev pub IsFirst : Option Text → Request → Request → Type 0
IsFirst none init sent = sent ≡ init
IsFirst (some []) init sent = sent ≡ init
IsFirst (some (x ∷ token)) init sent = IsBearing (x ∷ token) init sent

abbrev pub IsDenied : Fetched → Type 0
IsDenied fetched = (res : Response) × (fetched ≡ resolved res) × (res.status ≡ 401)

abbrev pub IsNoToken : Option Text → Type 0
IsNoToken token = (token ≡ none) ⊎ (token ≡ some [])

-- A header of the request, after the token was put in.
lookup-authorize :
    (token : Text) (init : Request) (name : Text)
    → lookup name (authorize token init).headers ≡ (
        if text_eq (codes "Authorization") name
        then some (codes "Bearer " ++ token)
        else lookup name init.headers)
unfolding authorize
lookup-authorize token init name =
    lookup-insert (codes "Authorization") name (codes "Bearer " ++ token) init.headers

authorize-IsBearing : (token : Text) (init : Request) → IsBearing token init (authorize token init)
unfolding authorize text_eq
authorize-IsBearing token init = record {
  same_method = refl;
  same_url = refl;
  same_body = refl;
  bearer = lookup-authorize token init (codes "Authorization");
  others = λ name other. rw (lookup-authorize token init name, other) refl;
}

with_auth_headers-IsFirst :
    (token : Option Text) (init : Request) → IsFirst token init (with_auth_headers token init)
unfolding with_auth_headers
with_auth_headers-IsFirst none init = refl
with_auth_headers-IsFirst (some []) init = refl
with_auth_headers-IsFirst (some (x ∷ token)) init = authorize-IsBearing (x ∷ token) init

not_unauthorized :
    (res r : Response)
    → resolved res ≡ resolved r
    → r.status ≡ 401
    → (res.status == 401) ≡ false
    → ⊥
not_unauthorized res r same status other =
    let equal : res ≡ r = cc in
    let status' : res.status ≡ 401 = ap (λ (x : Response). x.status) equal ∙ status in ground arith

IsDenied-cases :
    (fetched : Fetched)
    → ((is_unauthorized fetched ≡ true) × IsDenied fetched)
      ⊎ ((is_unauthorized fetched ≡ false) × (IsDenied fetched → ⊥))
IsDenied-cases (rejected name) = inr (refl, λ (res, e, status). cc)
IsDenied-cases (resolved res) = elim (Bool-cases (res.status == 401)) [
  | inl e ↦ inl (e, (res, refl, ground arith))
  | inr e ↦ inr (e, λ (r, same, status). not_unauthorized res r same status e)
]

-- One request, whose answer is returned: it is no 401, or no new token is there.
pub record Once (server : List Request → Fetched) (refreshed : Option Text) (first : Request)
    (sent : List Request) (ended : Fetched × List Request) : Type 0 where
  pub log : ended ≡ (server (first ∷ sent), first ∷ sent)
  pub settled : (IsDenied (server (first ∷ sent)) → ⊥) ⊎ IsNoToken refreshed

-- Two requests: the first one was answered with a 401, and the second one is `init` with the new token.
pub record Twice (server : List Request → Fetched) (refreshed : Option Text) (init first : Request)
    (sent : List Request) (ended : Fetched × List Request) : Type 0 where
  pub fresh : Text
  pub second : Request
  pub issued : refreshed ≡ some fresh
  pub is_there : fresh ≢ []
  pub denied : IsDenied (server (first ∷ sent))
  pub bearing : IsBearing fresh init second
  pub log : ended ≡ (server (second ∷ first ∷ sent), second ∷ first ∷ sent)

retry-Once_or_Twice :
    (server : List Request → Fetched) (refreshed : Option Text) (init first : Request)
    (sent : List Request)
    → IsDenied (server (first ∷ sent))
    → Once server refreshed first sent (retry server refreshed init (first ∷ sent))
      ⊎ Twice server refreshed init first sent (retry server refreshed init (first ∷ sent))
unfolding retry
retry-Once_or_Twice server none init first sent denied =
    inl (record { log = refl; settled = inr (inl refl) })
retry-Once_or_Twice server (some []) init first sent denied =
    inl (record { log = refl; settled = inr (inr refl) })
retry-Once_or_Twice server (some (x ∷ token)) init first sent denied = inr (record {
  fresh = x ∷ token;
  second = authorize (x ∷ token) init;
  issued = refl;
  is_there = λ e. cc;
  denied = denied;
  bearing = authorize-IsBearing (x ∷ token) init;
  log = refl;
})

-- The first request of a call is the caller's, with the held token as its bearer token where one is
-- there. Its answer is returned where it is no 401, or where the refresh gives no token that is not
-- empty. Otherwise a second request is sent, the caller's with the new token as its bearer token, and
-- its answer is returned, whatever it is. No third request is sent.
pub authed_fetch-Once_or_Twice :
    (server : List Request → Fetched) (token refreshed : Option Text) (init : Request)
    (sent : List Request)
    → (first : Request) × IsFirst token init first
      × (Once server refreshed first sent (authed_fetch server token refreshed init sent)
          ⊎ Twice server refreshed init first sent (authed_fetch server token refreshed init sent))
unfolding authed_fetch
authed_fetch-Once_or_Twice server token refreshed init sent =
    let first = with_auth_headers token init in
    (
      first,
      with_auth_headers-IsFirst token init,
      elim (IsDenied-cases (server (first ∷ sent))) [
        | inl (e, denied) ↦
            rw (e, authed_fetch) (retry-Once_or_Twice server refreshed init first sent denied)
        | inr (e, other) ↦ rw (e, authed_fetch) (inl (record { log = refl; settled = inl other }))
      ],
    )
