-- ===== src/AuthProvider/Tabs.antt =====
-- Two tabs of one browser: they share localStorage, and what one of them changes there reaches the
-- `onStorage` of frontend/src/context/AuthProvider.tsx in the other one by an event, at any later time.
use axiom_ai.Common.{Bool, true, false, not, ◌||◌, Option, none, some, Text, text_eq, if◌then◌else◌}
use axiom_ai.Json.{JsonCodec}
use axiom_ai.Browser.{Browser, lookup}
use axiom_ai.SessionStorage.{session_key}
use axiom_ai.AuthProvider.{Auth, start, mount, on_storage}
use axiom_ai.AuthProvider.Steps.{
  Step, asked, renewed, denied, failed, entered, refused, left, session_elsewhere, other_elsewhere,
}

-- `told_one` says that a storage event is on its way to the tab `one`.
pub record Tabs : Type 0 where
  pub one : Auth
  pub other : Auth
  pub told_one : Bool
  pub told_other : Bool

abbrev pub same_item : Option Text → Option Text → Bool
same_item none none = true
same_item none (some v) = false
same_item (some u) none = false
same_item (some u) (some v) = text_eq u v

-- The browser tells the other tabs of a changed item, and of no other one.
unfoldable pub is_changed : Browser → Browser → Bool
unfolding lookup text_eq
is_changed b c = not (same_item (lookup session_key b.stored) (lookup session_key c.stored))

-- The tab `one` comes to the state `a`.
unfoldable pub acted : Auth → Tabs → Tabs
unfolding is_changed
acted a t = record t {
  one = a;
  other = record (t.other) { browser = a.browser };
  told_other = t.told_other || is_changed t.one.browser a.browser;
}

-- The same tabs with their names exchanged.
abbrev pub swap : Tabs → Tabs
swap t = record { one = t.other; other = t.one; told_one = t.told_other; told_other = t.told_one }

module _ (codec : JsonCodec) where
  -- Both tabs are opened.
  unfoldable pub open_both : Browser → Tabs
  unfolding mount start
  open_both b = record {
    one = mount codec (start b);
    other = mount codec (start b);
    told_one = false;
    told_other = false;
  }

  -- The event that is on its way to `one` is delivered.
  unfoldable pub deliver : Tabs → Tabs
  unfolding on_storage
  deliver t =
      if t.told_one
      then record t { one = on_storage codec (some session_key) t.one; told_one = false }
      else t

  -- All events are delivered.
  unfoldable pub settle : Tabs → Tabs
  unfolding deliver
  settle t = swap (deliver (swap (deliver t)))

  -- `one` is closed, and a tab is opened.
  unfoldable pub reopen : Tabs → Tabs
  unfolding mount start
  reopen t = record t { one = mount codec (start t.one.browser); told_one = false }

  -- What a tab does by itself.
  abbrev pub IsOwn : {a b : Auth} → Step codec a b → Type 0
  IsOwn (asked a) = Unit
  IsOwn (renewed a token next flying issued) = Unit
  IsOwn (denied a token message flying) = Unit
  IsOwn (failed a token flying) = Unit
  IsOwn (entered a next issued) = Unit
  IsOwn (refused a message) = Unit
  IsOwn (left a) = Unit
  IsOwn (session_elsewhere a b ready unspent) = ⊥
  IsOwn (other_elsewhere a b key ready other same) = ⊥

  pub data Event : Tabs → Tabs → Type 0 where
    own : (t : Tabs) {a : Auth} (step : Step codec t.one a) → IsOwn step → Event t (acted a t)
    delivered : (t : Tabs) → Event t (deliver t)
    reopened : (t : Tabs) → Event t (reopen t)
    swapped : (t : Tabs) → Event t (swap t)

  pub data Run (t : Tabs) : Tabs → Type 0 where
    here : Run t t
    next : {u v : Tabs} → Run t u → Event u v → Run t v
