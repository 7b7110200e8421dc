-- ===== src/Views/Stream/Window.antt =====
-- The lines that the stream shows.
use atividade_consenso_raft.Base.{
  ℕ, zero, suc, ◌+◌, ◌≤◌, ◌<◌, List, [], ◌∷◌, length, select, ltb, if◌then◌else◌, ◌≡◌, refl, ap,
  sym, ◌∙◌, arith, Bool-cases, inl, inr,
}
use atividade_consenso_raft.Config.{stream_window}
use atividade_consenso_raft.Event.{Event}
use atividade_consenso_raft.Views.Filters.{compose_filters}
use atividade_consenso_raft.Views.Stream.{Stream, without_last, shorten, show_event, show_all}

abbrev pub take : ℕ → List Event → List Event
take zero xs = []
take (suc n) [] = []
take (suc n) (x ∷ xs) = x ∷ take n xs

-- The first list, its last element first, before the second.
abbrev pub rev_onto : List Event → List Event → List Event
rev_onto [] ys = ys
rev_onto (x ∷ xs) ys = rev_onto xs (x ∷ ys)

length-without_last : (x : Event) (xs : List Event) → length (without_last (x ∷ xs)) ≡ length xs
unfolding without_last
length-without_last x [] = refl
length-without_last x (y ∷ xs) = ap suc (length-without_last y xs)

take-without_last : (n : ℕ) (xs : List Event) → n < length xs → take n (without_last xs) ≡ take n xs
unfolding without_last
take-without_last zero xs h = refl
take-without_last (suc n) [] h = refl
take-without_last (suc n) (x ∷ []) h = absurd (omega arith)
take-without_last (suc n) (x ∷ y ∷ xs) h = ap (x ∷◌) (take-without_last n (y ∷ xs) (omega arith))

take_all : (n : ℕ) (xs : List Event) → length xs ≤ n → take n xs ≡ xs
take_all zero [] h = refl
take_all zero (x ∷ xs) h = absurd (omega arith)
take_all (suc n) [] h = refl
take_all (suc n) (x ∷ xs) h = ap (x ∷◌) (take_all n xs (omega arith))

take-take : (n m : ℕ) (xs : List Event) → n ≤ m → take n (take m xs) ≡ take n xs
take-take zero m xs h = refl
take-take (suc n) zero xs h = absurd (omega arith)
take-take (suc n) (suc m) [] h = refl
take-take (suc n) (suc m) (x ∷ xs) h = ap (x ∷◌) (take-take n m xs (omega arith))

take-cons : (n : ℕ) (x : Event) (xs : List Event) → take n (x ∷ take n xs) ≡ take n (x ∷ xs)
take-cons zero x xs = refl
take-cons (suc n) x xs = ap (x ∷◌) (take-take n (suc n) xs (omega arith))

length-take : (n : ℕ) (xs : List Event) → length (take n xs) ≤ n
length-take zero xs = omega arith
length-take (suc n) [] = omega arith
length-take (suc n) (x ∷ xs) = omega (arith, length-take n xs)

take-rev_onto :
    (n : ℕ) (xs ys : List Event) → take n (rev_onto xs (take n ys)) ≡ take n (rev_onto xs ys)
take-rev_onto n [] ys = take-take n n ys (omega arith)
take-rev_onto n (x ∷ xs) ys =
    sym (take-rev_onto n xs (x ∷ take n ys))
    ∙ ap (λ zs. take n (rev_onto xs zs)) (take-cons n x ys)
    ∙ take-rev_onto n xs (x ∷ ys)

length-without_last_fuel :
    (fuel : ℕ) (xs : List Event)
    → length xs ≤ suc fuel + stream_window
    → length (without_last xs) ≤ fuel + stream_window
unfolding without_last
length-without_last_fuel fuel [] h = omega arith
length-without_last_fuel fuel (x ∷ xs) h = omega (arith, length-without_last x xs)

-- With fuel for at least as many lines as there are above 80, the loop that shortens the stream
-- leaves the newest 80 lines, however much more fuel there is.
pub shorten-enough :
    (fuel : ℕ) (xs : List Event)
    → length xs ≤ fuel + stream_window
    → shorten fuel xs ≡ take stream_window xs
unfolding shorten
shorten-enough zero xs h = sym (take_all stream_window xs h)
shorten-enough (suc fuel) xs h = elim (Bool-cases (ltb stream_window (length xs))) [
  | inr fits ↦ rw (fits, shorten) (sym (take_all stream_window xs (ground arith)))
  | inl over ↦
      rw (over, shorten)
        (shorten-enough fuel (without_last xs) (length-without_last_fuel fuel xs h)
          ∙ take-without_last stream_window xs (ground arith))
]

show_event_lem :
    (evt : Event) (s : Stream)
    → show_event evt s ≡ (
        if compose_filters s.active evt
        then record s { lines = take stream_window (evt ∷ s.lines) }
        else s)
unfolding show_event
show_event_lem evt s = elim (Bool-cases (compose_filters s.active evt)) [
  | inr hidden ↦ rw hidden
  | inl kept ↦ rw (kept, shorten-enough (length (evt ∷ s.lines)) (evt ∷ s.lines) (omega arith))
]

-- A stream of at most 80 lines shows after any events, newest first, the newest 80 of the events
-- that pass its filters and of the lines that were there.
pub show_all_lem :
    (evts : List Event) (s : Stream)
    → length s.lines ≤ stream_window
    → (show_all evts s).lines
      ≡ take stream_window (rev_onto (select (compose_filters s.active) evts) s.lines)
unfolding show_all
show_all_lem [] s h = sym (take_all stream_window s.lines h)
show_all_lem (evt ∷ evts) s h =
    ap (λ r. (show_all evts r).lines) (show_event_lem evt s)
    ∙ elim (Bool-cases (compose_filters s.active evt)) [
      | inr hidden ↦ rw hidden (show_all_lem evts s h)
      | inl kept ↦ rw kept (
          show_all_lem evts (record s { lines = newer }) (length-take stream_window (evt ∷ s.lines))
          ∙ take-rev_onto stream_window (select (compose_filters s.active) evts) (evt ∷ s.lines))
    ]
  where
    newer : List Event
    newer = take stream_window (evt ∷ s.lines)
