-- ===== src/Examples/Lists.antt =====
-- Examples for the list of conversations.
use mathlib.Core.List.{Perm}
use axiom_ai.Common.{ℕ, codes, ◌≡◌}
use axiom_ai.Conversations.{title_from_message, sort_by_recent}
use axiom_ai.Conversations.Titles.{IsTitle, title_from_message-IsTitle}
use axiom_ai.Conversations.Sorting.{IsNewestFirst, at_time, sort_by_recent_sorts}
use axiom_ai.Examples.Fixtures.{two_talks}

title_from_message-IsTitle_example : IsTitle (title_from_message (codes "  what\n is  it "))
title_from_message-IsTitle_example = title_from_message-IsTitle (codes "  what\n is  it ")

sort_by_recent_sorts_example :
    Perm (sort_by_recent two_talks) two_talks
    × IsNewestFirst (sort_by_recent two_talks)
    × ((t : ℕ) → at_time t (sort_by_recent two_talks) ≡ at_time t two_talks)
sort_by_recent_sorts_example = sort_by_recent_sorts two_talks
