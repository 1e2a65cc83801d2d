-- ===== src/Status/Watching.antt =====
-- What the poller shows, in any order of ticks and answers.
use axiom_ai.Common.{ℕ, true, none, List, [], ◌∷◌, ◌++◌, Text, codes, ◌≡◌, ◌≢◌, refl, arith}
use axiom_ai.Stream.{Response, rejected, resolved, is_ok}
use axiom_ai.Status.{check}
use axiom_ai.Status.Polling.{Poller, tick, polled, cleanup, backend, backend_polled, banner}

module _ {S : Type 0} where
  -- A tick, an answer to one of the polls under way, or the cleanup.
  pub data Step : Poller S → Poller S → Type 0 where
    ticked : (p : Poller S) → Step p (tick p)
    answered :
        (p : Poller S) (before : List ℕ) (n : ℕ) (after : List ℕ) (result : S)
        → p.waiting ≡ before ++ n ∷ after
        → Step p (polled result (record p { waiting = before ++ after }))
    cleaned : (p : Poller S) → Step p (cleanup p)

  pub data Reach (p : Poller S) : Poller S → Type 0 where
    here : Reach p p
    next : {q r : Poller S} → Reach p q → Step q r → Reach p r

  -- A component that left the screen holds what it held, and its polls are those made before.
  pub record IsFrozen (p q : Poller S) : Type 0 where
    pub off : q.cancelled ≡ true
    pub same : q.shown ≡ p.shown
    pub silent : q.polls ≡ p.polls

  tick-off : (p : Poller S) → p.cancelled ≡ true → tick p ≡ p
  unfolding tick
  tick-off p off = ground arith

  polled-off : (result : S) (p : Poller S) → p.cancelled ≡ true → polled result p ≡ p
  unfolding polled
  polled-off result p off = ground arith

  Step-IsFrozen : (p : Poller S) {q r : Poller S} → Step q r → IsFrozen p q → IsFrozen p r
  unfolding cleanup
  Step-IsFrozen p (ticked q) h = rw (tick-off q h.off) h
  Step-IsFrozen p (answered q before n after result e) h =
      let rest : Poller S = record q { waiting = before ++ after } in
      rw (polled-off result rest h.off) (record { off = h.off; same = h.same; silent = h.silent })
  Step-IsFrozen p (cleaned q) h = record { off = refl; same = h.same; silent = h.silent }

  -- Once the component has left the screen, no poll is sent, and no answer to an earlier one changes
  -- what it held.
  pub cleanup-Reach : (p : Poller S) {q : Poller S} → Reach (cleanup p) q → IsFrozen p q
  unfolding cleanup
  cleanup-Reach p here = record { off = refl; same = refl; silent = refl }
  cleanup-Reach p (next r step) = Step-IsFrozen p step (cleanup-Reach p r)

-- Two polls of the banner are under way. The answer to the second one is a success, and then the
-- first one fails: the banner is shown, though the gateway was there when it was asked last.
older_answer_shown :
    (api_base : Text) (res : Response)
    → is_ok res ≡ true
    → let both = tick backend in
      let newer = backend_polled (resolved res) (record both { waiting = 0 ∷ [] }) in
      let older = backend_polled (rejected (codes "TypeError")) (record newer { waiting = [] }) in
      (both.waiting ≡ 0 ∷ 1 ∷ [])
      × (banner api_base newer.shown ≡ none)
      × (banner api_base older.shown ≢ none)
unfolding tick backend backend_polled banner check
older_answer_shown api_base res good = (refl, rw good refl, λ e. cc)
