-- ===== src/Session/Stream.antt =====
-- The pipeline behind the `session.status` event in the constructor of `WhatsappSession`
-- (waha-plus/src/core/abc/session.abc.ts), and waha-plus/src/utils/StatusTracker.ts.
use aira_relay.Base.{
  ℕ, ◌+◌, Bool, true, false, not, ◌&&◌, if◌then◌else◌, ltb, leb, Option, none, some, List, [], ◌∷◌,
  ◌++◌, length, last_n, Text,
}
use aira_relay.Session.{Status, working, is_working, is_starting}

-- A value that `status$` gets at time `at`. `has_me` tells whether `getSessionMeInfo` has a push
-- name and an id then.
pub record Push : Type 0 where
  pub at : ℕ
  pub status : Status
  pub has_me : Bool

-- `SessionStatusPoint`.
pub record Point : Type 0 where
  pub status : Status
  pub timestamp : ℕ

abbrev due_before : ℕ → List Push → Bool
due_before t [] = true
due_before t (q ∷ _) = leb t q.at

-- `switchMap` with its delay: WORKING with no account information waits two seconds, and is dropped
-- when another status comes first. A tie goes to the timer.
unfoldable pub settle : List Push → List Point
settle [] = []
settle (p ∷ ps) =
    let rest = settle ps in
    if is_working p.status && not p.has_me
    then if due_before (p.at + 2000) ps
      then record { status = p.status; timestamp = p.at + 2000 } ∷ rest
      else rest
    else record { status = p.status; timestamp = p.at } ∷ rest

-- The comparator of `distinctUntilChanged`.
abbrev pub repeats : Option Status → Status → Bool
repeats (some working) working = true
repeats _ _ = false

unfoldable pub distinct_until_changed : Option Status → List Point → List Point
distinct_until_changed prev [] = []
distinct_until_changed prev (x ∷ xs) =
    let skipped = distinct_until_changed prev xs in
    let kept = x ∷ distinct_until_changed (some x.status) xs in
    if repeats prev x.status then skipped else kept

-- The accumulator of `scan`.
unfoldable pub next_window : List Point → Point → List Point
next_window statuses status =
    let next = statuses ++ (status ∷ []) in if ltb 3 (length next) then last_n 3 next else next

unfoldable pub scan : List Point → List Point → List (List Point)
unfolding next_window
scan acc [] = []
scan acc (x ∷ xs) = let next = next_window acc x in next ∷ scan next xs

-- `WASessionStatusBody`.
pub record Body : Type 0 where
  pub name : Text
  pub status : Option Status
  pub statuses : List Point

-- `statuses.at(-1)?.status`.
abbrev pub last_status : List Point → Option Status
last_status [] = none
last_status (x ∷ []) = some x.status
last_status (x ∷ y ∷ xs) = last_status (y ∷ xs)

unfoldable pub bodies : Text → List (List Point) → List Body
bodies name [] = []
bodies name (w ∷ ws) = record { name = name; status = last_status w; statuses = w } ∷ bodies name ws

unfoldable pub session_status : Text → List Push → List Body
session_status name pushes = bodies name (scan [] (distinct_until_changed none (settle pushes)))

-- `StatusTracker.track` on `numberOfStarting`.
unfoldable pub track : Status → ℕ → ℕ
track status n = if is_starting status then n + 1 else 0

unfoldable pub track_all : List Status → ℕ → ℕ
track_all [] n = n
track_all (status ∷ later) n = track_all later (track status n)

unfoldable pub is_stuck_in_starting : ℕ → Bool
is_stuck_in_starting n = leb 60 n
