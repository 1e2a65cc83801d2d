-- ===== src/Lib.antt =====
-- The frontend of Axiom AI, verified: the client-side logic of frontend/src, a chat over one's own
-- documents.
--
-- The parts and how they interact. `AuthProvider` (frontend/src/context/AuthProvider.tsx) holds the
-- session, keeps its copy in localStorage by frontend/src/lib/session-storage.ts, and renews it by
-- the requests of frontend/src/lib/auth.ts. The page (frontend/src/app/page.tsx) shows the sign-in
-- form or the chat. The chat (frontend/src/components/ChatApp.tsx) keeps the conversations of
-- frontend/src/lib/conversations.ts, sends a question by `streamChat` of frontend/src/lib/api.ts and
-- amends the answer by the callbacks of the stream. The session and the chat share the browser: a
-- change of the session mounts the chat, gives it to another user, or takes it off the screen. The
-- upload panel, the status label, the toasts and the theme stand beside it.
--
-- The files. A module is named for the part that it models, and its children hold the proofs.
--   Common            lists, strings as UTF-16 code units, Boolean tests
--   Json, Types       JSON values, and frontend/src/lib/types.ts with its JSON (Types/Encode,
--                     Types/Sessions)
--   Browser           localStorage: denied, full, or open
--   SessionStorage    frontend/src/lib/session-storage.ts
--   Conversations     frontend/src/lib/conversations.ts
--   Auth, Api         frontend/src/lib/auth.ts and frontend/src/lib/api.ts, requests as values
--   Stream            `streamChat`, `processFrame` and `describeError` of frontend/src/lib/api.ts; Batch
--                     says what the loop computes, without a loop
--   AuthProvider      the session as a state; Steps has its events as a relation, in which another
--                     tab's write and its storage event are one step; in Tabs, two tabs of one
--                     browser, and in Heard, one among others, an event comes at any later time
--   ChatApp           the chat as a state and its handlers; Steps has its events as a relation,
--                     Saving the effects that load and save, Owners whose conversation is
--                     whose, View the texts and buttons shown, Notebook what the chat promises
--                     of its conversations for each action, Requests the JSON that it sends,
--                     Stopping the abort of a run, Races runs whose ends are late
--   Sidebar           frontend/src/components/Sidebar.tsx: the rows, the initials and the footer
--   Bubble            frontend/src/components/MessageBubble.tsx: a message and its sources
--   Home, App         frontend/src/app/page.tsx: which screen is shown, and the page as a whole, with
--                     the session, the chat and the browser that they share
--   AuthScreen, UploadPanel
--                     the components of those names; View is what they show, Steps their events
--   Status            frontend/src/components/StatusIndicator.tsx and BackendStatus.tsx; Polling is
--                     their effects
--   Theme, Toast      frontend/src/context/ThemeProvider.tsx and ToastProvider.tsx
--   Layout            frontend/src/app/layout.tsx: the providers, and the hooks that look for them
--   Examples          concrete inputs to which the theorems are applied
--
-- State and time. A handler is a function from the state of the last render to the next state. Code
-- with an `await` in it is split there: what stands before is one function, what stands behind is
-- another one that is given the answer, and anything may happen in between (the relations `Step`).
-- `Date.now()`, random ids and what `fetch` returns are arguments. Timestamps and lengths are natural
-- numbers without a bound.
--
-- What the runtime does is a parameter with what is relied on as a named hypothesis:
-- `JSON.parse` and `JSON.stringify` (`JsonCodec`, `IsFaithful`), `TextDecoder` (`IsStreaming`), the
-- conversion to a string (`coerce`), `toUpperCase` (`upper`), and the text that the server prints for
-- an event (`IsPrinted`).
-- A body whose signal is aborted fails with an `AbortError` (`stop_keeps_answer`).
-- A parsed value is cast without a check, as in the code. A falsy user is no user, a missing id of a
-- user is told apart from any text, and a missing lifetime counts as NaN, which is stored as `null`;
-- else, where a value lacks the declared shape, its texts read as empty.
--
-- Loops. `streamChat` reads a list of chunks that ends with `done` or a failure, the uploads go over
-- the list of files, and all else is structural recursion. The one fuel is that of `decimal`, which
-- prints a number and is given one more than the number, at least as many steps as it has digits.
--
-- Not modelled: all markup but the texts, fields and buttons of the components above; scrolling,
-- fonts and styles; Markdown; the length of an interval; the Go gateway and the Python service,
-- which are the environment here.
pub mod Common
pub mod Json
pub mod Browser
pub mod Types
pub mod SessionStorage
pub mod Conversations
pub mod Stream
pub mod ChatApp
pub mod Auth
pub mod AuthProvider
pub mod Theme
pub mod Toast
pub mod Api
pub mod App
pub mod Layout
pub mod UploadPanel
pub mod Home
pub mod AuthScreen
pub mod Status
pub mod Sidebar
pub mod Bubble
pub mod Examples
