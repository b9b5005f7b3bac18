-- ===== src/Toast/Tests.antt =====
-- use-toast.ts: runs of the store, and the theorems at concrete histories.
use pumpy_v.Common.{
  ℕ, ◌≡◌, refl, ◌==◌, String, true, false, none, some, List, [], ◌∷◌, not, keep, str_eq,
  if◌then◌else◌, length,
}
use pumpy_v.Toast.{
  Toast, dismiss_toast, Store, Event, calls_toast, dispatches, expires, dispatch, expire, step, run,
  initial, has,
}
use pumpy_v.Toast.Dismiss.{expire-dispatch_dismiss}

abbrev print : ℕ → String
print n = if n == 1 then "1" else if n == 2 then "2" else "n"

abbrev history : List (Event ℕ)
history =
    calls_toast (λ k. none) ∷ calls_toast (λ k. none) ∷ dispatches (dismiss_toast (some "2")) ∷ []

shown : (run print (initial ℕ) history).timeouts ≡ "2" ∷ []
unfolding run step
shown = refl

gone :
    length
      (run print
        (initial ℕ)
        (calls_toast (λ k. none) ∷ dispatches (dismiss_toast none) ∷ expires "1" ∷ [])).toasts
    ≡ 0
unfolding run step
gone = refl

abbrev two : Store ℕ
two = record (initial ℕ) {
  toasts =
      record { id = "1"; open_ = some true; props = λ k. none }
      ∷ record { id = "2"; open_ = none; props = λ k. none }
      ∷ [];
}

expire-dispatch_dismiss_example :
    let s' = expire "2" (dispatch (dismiss_toast (some "2")) two) in
    (s'.toasts ≡ keep (λ (t : Toast ℕ). not (str_eq t.id "2")) two.toasts)
    × (has "2" s'.timeouts ≡ false)
expire-dispatch_dismiss_example = expire-dispatch_dismiss ℕ "2" two refl
