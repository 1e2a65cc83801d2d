-- ===== src/UploadPanel/Laws.antt =====
-- How an upload ends.
use axiom_ai.Common.{
  suc, false, none, some, List, [], ◌∷◌, ◌++◌, Text, ◌≡◌, ◌⊎◌, refl, inl, inr, ap, sym, ◌∙◌,
}
use axiom_ai.Json.{Json}
use axiom_ai.Auth.{Result, ok, thrown, runtime_error}
use axiom_ai.UploadPanel.{Panel, listed, upload_files, upload_settled, upload_started, handle_files}

-- The files in the order in which they were sent, the last one first.
unfoldable pub last_first : List Text → List Text → List Text
last_first [] sent = sent
last_first (file ∷ files) sent = last_first files (file ∷ sent)

module _ (server : List Text → Result {0} Unit) where
  -- The server takes these files, sent one after the other behind those of `sent`.
  unfoldable pub AllAccepted : List Text → List Text → Type 0
  AllAccepted [] sent = Unit
  AllAccepted (file ∷ files) sent = (server (file ∷ sent) ≡ ok tt) × AllAccepted files (file ∷ sent)

  -- The server takes all files; the new list is shown, and the chat is told.
  abbrev pub HasIndexed : List Text → Result Json → Panel → Panel × List Text → Type 0
  HasIndexed files listing p ended =
      AllAccepted files []
      × (ended.1 ≡ last_first files [])
      × (ended.0.documents ≡ listed listing p.documents)
      × (ended.0.indexed ≡ suc p.indexed)
      × (ended.0.error_text ≡ none)

  -- The server takes the files of `good` and does not take `bad`: no file behind it is sent, its error
  -- is shown, and the list stays as it was.
  abbrev pub HasFailed : Text → List Text → Panel → Panel × List Text → Type 0
  HasFailed runtime files p ended =
      (good : List Text) × (bad : Text) × (rest : List Text) × (files ≡ good ++ bad ∷ rest)
      × AllAccepted good []
      × (ended.1 ≡ bad ∷ last_first good [])
      × (ended.0.documents ≡ p.documents)
      × (ended.0.indexed ≡ p.indexed)
      × (((message : Text) × (server (bad ∷ last_first good []) ≡ thrown message)
            × (ended.0.error_text ≡ some message))
          ⊎ ((server (bad ∷ last_first good []) ≡ runtime_error)
              × (ended.0.error_text ≡ some runtime)))

  abbrev HasSent : List Text → List Text → Result {0} Unit × List Text → Type 0
  HasSent files sent ended =
      AllAccepted files sent × (ended.0 ≡ ok tt) × (ended.1 ≡ last_first files sent)

  -- The loop ended at a file that was not accepted, with the answer to it.
  record HasStopped (files sent : List Text) (ended : Result {0} Unit × List Text) : Type 0 where
    good : List Text
    bad : Text
    rest : List Text
    all_files : files ≡ good ++ bad ∷ rest
    accepted : AllAccepted good sent
    log : ended.1 ≡ bad ∷ last_first good sent
    answer : ended.0 ≡ server (bad ∷ last_first good sent)
    failure : ((message : Text) × (ended.0 ≡ thrown message)) ⊎ (ended.0 ≡ runtime_error)

  -- One file more at the front.
  abbrev after_file : Result {0} Unit → Text → List Text → List Text → Result {0} Unit × List Text
  after_file (ok _) file files sent = upload_files server files (file ∷ sent)
  after_file (thrown message) file files sent = (thrown message, file ∷ sent)
  after_file runtime_error file files sent = (runtime_error, file ∷ sent)

  after_file_ends :
      (answer : Result {0} Unit) (file : Text) (files sent : List Text)
      → server (file ∷ sent) ≡ answer
      → HasSent files (file ∷ sent) (upload_files server files (file ∷ sent))
        ⊎ HasStopped files (file ∷ sent) (upload_files server files (file ∷ sent))
      → HasSent (file ∷ files) sent (after_file answer file files sent)
        ⊎ HasStopped (file ∷ files) sent (after_file answer file files sent)
  unfolding last_first AllAccepted
  after_file_ends (ok _) file files sent e (inl (accepted, result, log)) =
      inl ((e, accepted), result, log)
  after_file_ends (ok _) file files sent e (inr h) = inr (record {
    good = file ∷ h.good;
    bad = h.bad;
    rest = h.rest;
    all_files = ap (file ∷◌) h.all_files;
    accepted = (e, h.accepted);
    log = h.log;
    answer = h.answer;
    failure = h.failure;
  })
  after_file_ends (thrown message) file files sent e h = inr (record {
    good = [];
    bad = file;
    rest = files;
    all_files = refl;
    accepted = tt;
    log = refl;
    answer = sym e;
    failure = inl (message, refl);
  })
  after_file_ends runtime_error file files sent e h = inr (record {
    good = [];
    bad = file;
    rest = files;
    all_files = refl;
    accepted = tt;
    log = refl;
    answer = sym e;
    failure = inr refl;
  })

  upload_files_cons :
      (answer : Result {0} Unit) (file : Text) (files sent : List Text)
      → server (file ∷ sent) ≡ answer
      → upload_files server (file ∷ files) sent ≡ after_file answer file files sent
  unfolding upload_files
  upload_files_cons (ok _) file files sent e = rw (e, upload_files) refl
  upload_files_cons (thrown message) file files sent e = rw (e, upload_files) refl
  upload_files_cons runtime_error file files sent e = rw (e, upload_files) refl

  upload_files_ends :
      (files sent : List Text)
      → HasSent files sent (upload_files server files sent)
        ⊎ HasStopped files sent (upload_files server files sent)
  unfolding upload_files last_first AllAccepted
  upload_files_ends [] sent = inl (tt, refl, refl)
  upload_files_ends (file ∷ files) sent =
      rw (upload_files_cons (server (file ∷ sent)) file files sent refl) (
        after_file_ends (server (file ∷ sent)) file files sent refl
          (upload_files_ends files (file ∷ sent)))

module _ (runtime : Text) (server : List Text → Result {0} Unit) (listing : Result Json) where
  -- What follows the loop.
  abbrev settled_panel : List Text → Panel → Result {0} Unit × List Text → Panel × List Text
  settled_panel files p uploaded =
      (upload_settled runtime files uploaded.0 listing (upload_started p), uploaded.1)

  settled_panel_ends :
      (files : List Text) (p : Panel) (uploaded : Result {0} Unit × List Text)
      → HasSent server files [] uploaded ⊎ HasStopped server files [] uploaded
      → ((settled_panel files p uploaded).0.is_uploading ≡ false)
        × (HasIndexed server files listing p (settled_panel files p uploaded)
            ⊎ HasFailed server runtime files p (settled_panel files p uploaded))
  unfolding upload_settled upload_started
  settled_panel_ends files p (ok _, log) (inl (accepted, _, sent)) =
      (refl, inl (accepted, sent, refl, refl, refl))
  settled_panel_ends files p (ok _, log) (inr h) = elim h.failure [
    | inl (message, e) ↦ cc
    | inr e ↦ cc
  ]
  settled_panel_ends files p (thrown message, log) (inl (_, e, _)) = cc e
  settled_panel_ends files p (thrown message, log) (inr h) = (
    refl,
    inr (
      h.good,
      h.bad,
      h.rest,
      h.all_files,
      h.accepted,
      h.log,
      refl,
      refl,
      inl (message, sym h.answer, refl),
    ),
  )
  settled_panel_ends files p (runtime_error, log) (inl (_, e, _)) = cc e
  settled_panel_ends files p (runtime_error, log) (inr h) = (
    refl,
    inr (
      h.good,
      h.bad,
      h.rest,
      h.all_files,
      h.accepted,
      h.log,
      refl,
      refl,
      inr (sym h.answer, refl),
    ),
  )

  -- An upload of some files ends, with the panel ready for another one. Either the server takes all
  -- files, sent in their order: the list is the new one, the chat is told, and no error is shown. Or
  -- it does not take one of them: the files up to that one were sent and no file behind it, the error
  -- of the answer to it is shown, the list stays as it was, and the chat is not told.
  pub handle_files_ends :
      (file : Text) (files : List Text) (p : Panel)
      → let ended = handle_files runtime server listing (file ∷ files) p in
        (ended.0.is_uploading ≡ false)
        × (HasIndexed server (file ∷ files) listing p ended
            ⊎ HasFailed server runtime (file ∷ files) p ended)
  unfolding handle_files
  handle_files_ends file files p =
      settled_panel_ends (file ∷ files) p (upload_files server (file ∷ files) [])
        (upload_files_ends server (file ∷ files) [])

  -- Of two files the server accepts the first one and refuses the second. The first one is indexed, but
  -- the panel does not show it: the list is not asked for again, and the chat is not told.
  partial_upload_hidden :
      (one two message : Text) (p : Panel)
      → server (one ∷ []) ≡ ok tt
      → server (two ∷ one ∷ []) ≡ thrown message
      → let ended = handle_files runtime server listing (one ∷ two ∷ []) p in
        (ended.1 ≡ two ∷ one ∷ [])
        × (ended.0.documents ≡ p.documents)
        × (ended.0.indexed ≡ p.indexed)
        × (ended.0.error_text ≡ some message)
  unfolding handle_files
  partial_upload_hidden one two message p accepted refused =
      let uploaded : upload_files server (one ∷ two ∷ []) [] ≡ (thrown message, two ∷ one ∷ []) =
        upload_files_cons server (ok tt) one (two ∷ []) [] accepted
        ∙ upload_files_cons server (thrown message) two [] (one ∷ []) refused in
      unfold upload_settled upload_started in rw (uploaded) (refl, refl, refl, refl)
