-- ===== src/Research/Windows/Cover.antt =====
-- research_lab/walkforward.py, `build_windows`: which windows there are.
use btc_bot.Prelude.{
  ◌≡◌, refl, sym, ap, ◌∙◌, arith, ℕ, zero, suc, ◌+◌, ◌-◌, ◌*◌, ◌≤◌, ◌<◌, true, false, Option, none,
  some, List, [], ◌∷◌, inl, inr, ◌⊎◌, Bool-cases, ltb, leb, if◌then◌else◌, get_elem?,
}
use btc_bot.Core.Models.{Time}
use btc_bot.Research.Windows.{
  WindowMode, Protocol, WalkForwardWindow, Built, days, train_start_of, window_of, append_first,
  window_loop, build_windows,
}

-- Where the training of a supported mode starts
abbrev trained : WindowMode → Time → Time → Time
trained WindowMode.rolling start cursor = cursor
trained _ start cursor = start

-- The window of the round `i`: its training ends `i` steps after the first one's, and starts `i`
-- steps after it too if the windows roll.
abbrev pub round : Protocol → Time → ℕ → WalkForwardWindow
round p start i =
    let cursor = start + i * days p.step_days in
    let train_end = cursor + days p.train_days in
    record {
      train_start = trained p.window_mode start cursor;
      train_end = train_end;
      validation_start = train_end;
      validation_end = train_end + days p.validation_days;
    }

-- It, if its validation ends in time
abbrev pub fitting : Protocol → Time → Time → ℕ → Option WalkForwardWindow
fitting p start end i = let w = round p start i in if leb w.validation_end end then some w else none

abbrev at_cursor : Protocol → Time → Time → Time → Option WalkForwardWindow
at_cursor p start end cursor =
    let train_end = cursor + days p.train_days in
    let validation_end = train_end + days p.validation_days in
    if leb validation_end end
    then some (window_of p (trained p.window_mode start cursor) cursor)
    else none

later_cursor : (c s i : ℕ) → c + s + i * s ≡ c + suc i * s
later_cursor c s i = omega arith

same_cursor : (c s : ℕ) → c ≡ c + zero * s
same_cursor c s = omega arith

ends : (p : Protocol) → Time → Time
ends p cursor = cursor + days p.train_days + days p.validation_days

at_cursor-none :
    (p : Protocol) (start end cursor c : Time)
    → ltb end (ends p cursor) ≡ true
    → cursor ≤ c
    → at_cursor p start end c ≡ none
unfolding ends
at_cursor-none p start end cursor c e le = ground arith

at_cursor-some :
    (p : Protocol) (start end c : Time)
    → ltb end (ends p c) ≡ false
    → at_cursor p start end c ≡ some (window_of p (trained p.window_mode start c) c)
unfolding ends
at_cursor-some p start end c e = ground arith

supported_mode :
    (m : WindowMode)
    → (m ≡ WindowMode.other)
      ⊎ ((start c : Time) → train_start_of m start c ≡ some (trained m start c))
unfolding train_start_of
supported_mode WindowMode.anchored_expanding = inr (λ start c. refl)
supported_mode WindowMode.rolling = inr (λ start c. refl)
supported_mode WindowMode.other = inl refl

module _ (p : Protocol) (start end : Time)
    (supported : (c : Time)
      → train_start_of p.window_mode start c ≡ some (trained p.window_mode start c))
    (steps : 1 ≤ days p.step_days) where
  -- The windows of the loop from the cursor
  abbrev IsBuilt : Time → Built → Type 0
  IsBuilt cursor b =
      (ws : List WalkForwardWindow) × (b ≡ Built.built ws)
      × ((i : ℕ) → get_elem? ws i ≡ at_cursor p start end (cursor + i * days p.step_days))

  stopped_loop :
      (k : ℕ) (cursor : Time)
      → ltb end (ends p cursor) ≡ true
      → IsBuilt cursor (window_loop (suc k) p start end cursor)
  unfolding window_loop window_of ends
  stopped_loop k cursor e = (
    [],
    rw (window_loop, supported cursor, e) refl,
    (λ i. sym (at_cursor-none p start end cursor _ e (omega arith))),
  )

  window_loop_lem :
      (k : ℕ) (cursor : Time)
      → end < cursor + k
      → IsBuilt cursor (window_loop (suc k) p start end cursor)
  unfolding window_loop window_of append_first ends
  window_loop_lem zero cursor h = stopped_loop zero cursor (ground arith)
  window_loop_lem (suc k) cursor h = elim (Bool-cases (ltb end (ends p cursor))) [
    | inl e ↦ stopped_loop (suc k) cursor e
    | inr e ↦
        let s = days p.step_days in
        let (ws, same, all) = window_loop_lem k (cursor + s) (omega (arith, steps, h)) in
        (
          window_of p (trained p.window_mode start cursor) cursor ∷ ws,
          rw (window_loop, supported cursor, e, same) refl,
          elim [
            | zero ↦
                sym (at_cursor-some p start end cursor e)
                ∙ ap (at_cursor p start end) (same_cursor cursor s)
            | suc i ↦ all i ∙ ap (at_cursor p start end) (later_cursor cursor s i)
          ],
        )
  ]

refused_loop :
    (k : ℕ) (p : Protocol) (start end cursor : Time)
    → p.window_mode ≡ WindowMode.other
    → window_loop (suc k) p start end cursor ≡ Built.unsupported
unfolding window_loop train_start_of
refused_loop k p start end cursor e = rw (window_loop, e) refl

-- The mode is refused, or the windows are built, whatever the length of the data is, if a step is a
-- day or longer: the entry `i` of the list is the window of the round `i` if that window's
-- validation ends by the end of the data, and there is no entry `i` otherwise.
pub build_windows_lem :
    (p : Protocol) (start end : Time)
    → 1 ≤ p.step_days
    → let b = build_windows p start end in
      ((p.window_mode ≡ WindowMode.other) × (b ≡ Built.unsupported))
      ⊎ ((ws : List WalkForwardWindow) × (b ≡ Built.built ws)
          × ((i : ℕ) → get_elem? ws i ≡ fitting p start end i))
unfolding build_windows window_of
build_windows_lem p start end h = elim (supported_mode p.window_mode) [
  | inl e ↦ inl (e, refused_loop _ p start end start e)
  | inr f ↦ inr (
      window_loop_lem p start end (f start) (omega (arith, h)) (suc (end - start)) start
        (omega arith))
]
