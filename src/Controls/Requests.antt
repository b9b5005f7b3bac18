-- ===== src/Controls/Requests.antt =====
-- Dashboard.tsx: the requests of the start and stop button.
use pumpy_v.Common.{
  ℕ, suc, ◌+◌, ◌≤◌, ◌<◌, ◌≡◌, refl, ap, true, false, List, [], ◌∷◌, ◌++◌, ◌||◌, ltb, length, arith,
  by_if,
}
use pumpy_v.Controls.{
  Controls, to_start, to_stop, Event, polls, clicks, start_settles, stop_settles, click,
  start_settled, stop_settled, start_toast, stop_toast, ctrl_pending, is_running, step, run,
  initial,
}

length-snoc : {A : Type 0} (xs : List A) (x : A) → length (xs ++ x ∷ []) ≡ suc (length xs)
length-snoc [] x = refl
length-snoc (y ∷ xs) x = ap suc (length-snoc xs x)

idle : (a b : ℕ) → (ltb 0 a || ltb 0 b) ≡ false → a + b ≡ 0
idle a b h = ground arith

some_open : (a : ℕ) → ltb 0 a ≡ true → 0 < a
some_open a h = ground arith

-- Each request that was sent is under way or was told of, and one at most is under way.
record IsAccounted (c : Controls) : Type 0 where
  single : c.starts + c.stops ≤ 1
  told : length c.sent ≡ length c.toasts + (c.starts + c.stops)

click-IsAccounted : (c : Controls) → IsAccounted c → IsAccounted (click c)
unfolding click
click-IsAccounted c h =
    by_if IsAccounted (ctrl_pending c) (λ e. h)
      (λ e.
        by_if IsAccounted (is_running c)
          (λ r. record {
            single = omega (arith, idle c.starts c.stops e);
            told = omega (arith, length-snoc c.sent to_stop, h.told);
          })
          (λ r. record {
            single = omega (arith, idle c.starts c.stops e);
            told = omega (arith, length-snoc c.sent to_start, h.told);
          }))

step-IsAccounted : (e : Event) (c : Controls) → IsAccounted c → IsAccounted (step e c)
unfolding step start_settled stop_settled
step-IsAccounted (polls s) c h = record { single = h.single; told = h.told }
step-IsAccounted clicks c h = click-IsAccounted c h
step-IsAccounted (start_settles o) c h =
    by_if IsAccounted (ltb 0 c.starts)
      (λ e. record {
        single = omega (arith, h.single);
        told = omega (arith, length-snoc c.toasts (start_toast o), h.told, some_open c.starts e);
      })
      (λ e. h)
step-IsAccounted (stop_settles o) c h =
    by_if IsAccounted (ltb 0 c.stops)
      (λ e. record {
        single = omega (arith, h.single);
        told = omega (arith, length-snoc c.toasts (stop_toast o), h.told, some_open c.stops e);
      })
      (λ e. h)

run-IsAccounted : (es : List Event) (c : Controls) → IsAccounted c → IsAccounted (run es c)
unfolding run
run-IsAccounted [] c h = h
run-IsAccounted (e ∷ es) c h = run-IsAccounted es (step e c) (step-IsAccounted e c h)

-- However often the button is clicked and whatever the polls and the engine answer, at most one start or stop is under
-- way, and each one that was sent and is no longer under way has been told of by one toast.
pub run-initial-single :
    (es : List Event)
    → let c = run es initial in
      (c.starts + c.stops ≤ 1) × (length c.sent ≡ length c.toasts + (c.starts + c.stops))
run-initial-single es =
    let h = run-IsAccounted es initial (record { single = omega arith; told = refl }) in
    (h.single, h.told)
