-- ===== src/Session/Publishing.antt =====
-- What the listeners of `session.status` are told.
use aira_relay.Base.{
  ℕ, zero, suc, ◌+◌, ◌-◌, ◌≡◌, refl, sym, ap, ◌∙◌, Bool, true, false, not, ◌&&◌, if◌then◌else◌, leb,
  ltb, Option, none, some, List, [], ◌∷◌, ◌++◌, map, length, last_n, last_n-append_one, drop,
  drop-append, filter, Text, arith, Bool-cases, inl, inr, ◌≤◌, length-append,
}
use mathlib.Core.Option
use mathlib.Core.List.{reverse, reverse-cons}
use aira_relay.Session.{Status, working, is_working, is_starting}
use aira_relay.Session.Stream.{
  Push, Point, settle, repeats, distinct_until_changed, next_window, scan, Body, last_status,
  bodies, session_status, track, track_all, is_stuck_in_starting,
}

-- The statuses told, and the statuses pushed.
abbrev pub told : List Body → List (Option Status)
told = map (λ b. b.status)

abbrev pub pushed : List Push → List Status
pushed = map (λ p. p.status)

abbrev pub points : List Point → List Status
points = map (λ x. x.status)

-- The last of a list, or what came before it.
abbrev pub final {ℓ} : {A : Type ℓ} → Option A → List A → Option A
final d [] = d
final d (x ∷ xs) = final (some x) xs

settle-final :
    (d : Option Status) (ps : List Push) → final d (points (settle ps)) ≡ final d (pushed ps)
unfolding settle
settle-final d [] = refl
settle-final d (p ∷ []) = ground arith
settle-final d (p ∷ q ∷ ps) =
    ground (arith, settle-final d (q ∷ ps), settle-final (some p.status) (q ∷ ps))

repeats-eq : (prev : Option Status) (v : Status) → repeats prev v ≡ true → prev ≡ some v
repeats-eq none v h = cc
repeats-eq (some working) v h = ground arith
repeats-eq (some u) v h = ground arith

distinct-final :
    (prev : Option Status) (xs : List Point)
    → final prev (points (distinct_until_changed prev xs)) ≡ final prev (points xs)
unfolding distinct_until_changed
distinct-final prev [] = refl
distinct-final prev (x ∷ xs) = elim (Bool-cases (repeats prev x.status)) [
  | inl e ↦
      rw e (distinct-final prev xs ∙ ap (λ o. final o (points xs)) (repeats-eq prev x.status e))
  | inr e ↦ rw e (distinct-final (some x.status) xs)
]

-- The windows are the last three statuses of all that came before.
abbrev pub prefixes : List Point → List Point → List (List Point)
prefixes ys [] = []
prefixes ys (x ∷ xs) = (ys ++ (x ∷ [])) ∷ prefixes (ys ++ (x ∷ [])) xs

next_window-last_n : (acc : List Point) (x : Point) → next_window acc x ≡ last_n 3 (acc ++ (x ∷ []))
unfolding next_window
next_window-last_n acc x = elim (Bool-cases (ltb 3 (length (acc ++ (x ∷ []))))) [
  | inl e ↦ rw e refl
  | inr e ↦
      let none_over : length (acc ++ (x ∷ [])) - 3 ≡ 0 = ground arith in rw (e, none_over) refl
]

next_window_lem :
    (ys : List Point) (x : Point) → next_window (last_n 3 ys) x ≡ last_n 3 (ys ++ (x ∷ []))
next_window_lem ys x = next_window-last_n (last_n 3 ys) x ∙ last_n-append_one 3 ys x

scan-prefixes : (ys xs : List Point) → scan (last_n 3 ys) xs ≡ map (last_n 3) (prefixes ys xs)
unfolding scan
scan-prefixes ys [] = refl
scan-prefixes ys (x ∷ xs) =
    rw (next_window_lem ys x) (ap (λ ws. last_n 3 (ys ++ (x ∷ [])) ∷ ws) (scan-prefixes _ xs))

abbrev pub windows : List Body → List (List Point)
windows = map (λ b. b.statuses)

bodies-windows : (name : Text) (ws : List (List Point)) → windows (bodies name ws) ≡ ws
unfolding bodies
bodies-windows name [] = refl
bodies-windows name (w ∷ ws) = ap (λ r. w ∷ r) (bodies-windows name ws)

-- Each event carries the last three of all the statuses that were told up to it, in order.
pub session_status-windows :
    (name : Text) (pushes : List Push)
    → windows (session_status name pushes)
      ≡ map (last_n 3) (prefixes [] (distinct_until_changed none (settle pushes)))
unfolding session_status
session_status-windows name pushes =
    bodies-windows name _ ∙ scan-prefixes [] (distinct_until_changed none (settle pushes))

last_status-append : (acc : List Point) (x : Point) → last_status (acc ++ (x ∷ [])) ≡ some x.status
last_status-append [] x = refl
last_status-append (a ∷ []) x = refl
last_status-append (a ∷ b ∷ acc) x = last_status-append (b ∷ acc) x

-- A window ends with the status that came last.
last_status-window :
    (acc : List Point) (x : Point) → last_status (next_window acc x) ≡ some x.status
last_status-window acc x =
    let k = length (acc ++ (x ∷ [])) - 3 in
    let fits : k ≤ length acc = omega (arith, length-append acc (x ∷ [])) in
    ap last_status (next_window-last_n acc x ∙ drop-append k acc (x ∷ []) fits)
    ∙ last_status-append (drop k acc) x

told-scan :
    (name : Text) (acc xs : List Point) → told (bodies name (scan acc xs)) ≡ map some (points xs)
unfolding scan bodies
told-scan name acc [] = refl
told-scan name acc (x ∷ xs) =
    rw (last_status-window acc x)
      (ap (λ r. some x.status ∷ r) (told-scan name (next_window acc x) xs))

final-map-some :
    (d : Option Status) (xs : List Status)
    → final (Option.map some d) (map some xs) ≡ Option.map some (final d xs)
final-map-some d [] = refl
final-map-some d (x ∷ xs) = final-map-some (some x) xs

abbrev pub last_push : Push → List Push → Status
last_push p [] = p.status
last_push p (q ∷ ps) = last_push q ps

final-pushed :
    (p : Push) (ps : List Push) → final (some p.status) (pushed ps) ≡ some (last_push p ps)
final-pushed p [] = refl
final-pushed p (q ∷ ps) = final-pushed q ps

-- The last status told is the last one that the session had, WORKING included, whatever was delayed
-- or dropped on the way.
pub session_status-final :
    (name : Text) (p : Push) (ps : List Push)
    → final none (told (session_status name (p ∷ ps))) ≡ some (some (last_push p ps))
unfolding session_status
session_status-final name p ps =
    ap (final none) (told-scan name [] (distinct_until_changed none (settle (p ∷ ps))))
    ∙ final-map-some none (points (distinct_until_changed none (settle (p ∷ ps))))
    ∙ ap (Option.map some)
        (distinct-final none (settle (p ∷ ps)) ∙ settle-final none (p ∷ ps) ∙ final-pushed p ps)

abbrev pub told_other : Option Status → Bool
told_other none = true
told_other (some v) = not (is_working v)

abbrev pub others : List Status → List Status
others = filter (λ v. not (is_working v))

settle-others : (ps : List Push) → others (points (settle ps)) ≡ others (pushed ps)
unfolding settle
settle-others [] = refl
settle-others (p ∷ ps) = ground (arith, settle-others ps)

repeats-working : (prev : Option Status) (v : Status) → repeats prev v ≡ true → is_working v ≡ true
repeats-working none v h = cc
repeats-working (some working) working h = refl
repeats-working (some u) v h = ground arith

distinct-others :
    (prev : Option Status) (xs : List Point)
    → others (points (distinct_until_changed prev xs)) ≡ others (points xs)
unfolding distinct_until_changed
distinct-others prev [] = refl
distinct-others prev (x ∷ xs) = elim (Bool-cases (repeats prev x.status)) [
  | inl e ↦ rw (e, repeats-working prev x.status e) (distinct-others prev xs)
  | inr e ↦ rw e (ground (arith, distinct-others (some x.status) xs))
]

filter-map-some : (xs : List Status) → filter told_other (map some xs) ≡ map some (others xs)
filter-map-some [] = refl
filter-map-some (x ∷ xs) = ground (arith, filter-map-some xs)

-- Every status but WORKING is told, once for each time that it was set, in order.
pub session_status-others :
    (name : Text) (pushes : List Push)
    → filter told_other (told (session_status name pushes)) ≡ map some (others (pushed pushes))
unfolding session_status
session_status-others name pushes =
    ap (filter told_other) (told-scan name [] (distinct_until_changed none (settle pushes)))
    ∙ filter-map-some (points (distinct_until_changed none (settle pushes)))
    ∙ ap (map some) (distinct-others none (settle pushes) ∙ settle-others pushes)

-- The first `n` statuses, newest first, are all STARTING.
abbrev pub all_starting : ℕ → List Status → Bool
all_starting zero vs = true
all_starting (suc n) [] = false
all_starting (suc n) (v ∷ vs) = is_starting v && all_starting n vs

abbrev pub run_length : List Status → ℕ
run_length [] = 0
run_length (v ∷ vs) = if is_starting v then run_length vs + 1 else 0

track_all-append :
    (vs : List Status) (v : Status) (n : ℕ)
    → track_all (vs ++ (v ∷ [])) n ≡ track v (track_all vs n)
unfolding track_all
track_all-append [] v n = refl
track_all-append (u ∷ vs) v n = track_all-append vs v (track u n)

track_all-reverse : (vs : List Status) → track_all (reverse vs) 0 ≡ run_length vs
unfolding track
track_all-reverse [] = unfold track_all in refl
track_all-reverse (v ∷ vs) =
    rw (reverse-cons v vs, track_all-append (reverse vs) v 0, track_all-reverse vs) refl

all_starting-run_length : (n : ℕ) (vs : List Status) → all_starting n vs ≡ leb n (run_length vs)
all_starting-run_length zero vs = ground arith
all_starting-run_length (suc n) [] = ground arith
all_starting-run_length (suc n) (v ∷ vs) = ground (arith, all_starting-run_length n vs)

-- A session counts as stuck exactly when the last sixty statuses tracked were all STARTING.
pub is_stuck_in_starting_iff :
    (newest_first : List Status)
    → is_stuck_in_starting (track_all (reverse newest_first) 0) ≡ all_starting 60 newest_first
unfolding is_stuck_in_starting
is_stuck_in_starting_iff vs =
    ap (leb 60) (track_all-reverse vs) ∙ sym (all_starting-run_length 60 vs)
