-- ===== src/Toast/Reducer.antt =====
-- use-toast.ts: what holds of the store between two actions.
use pumpy_v.Common.{
  ℕ, ◌≤◌, ◌≡◌, refl, String, Bool, false, none, some, List, [], ◌∷◌, ◌++◌, not, arith, str_eq,
  eq_iff, length, keep, length-map, length-take-le, Bool-cases, inl, inr,
}
use pumpy_v.Toast.{
  Toast, Action, add_toast, update_toast, dismiss_toast, remove_toast, Store, Event, calls_toast,
  dispatches, expires, mounts, subscribes, unsubscribes, toast_limit, has, add_to_remove_queue,
  queue_all, updated, dismissed, reducer, dispatch, expire, toast, step, run, initial,
}

-- No id is queued twice.
abbrev pub IsUnique : List String → Type 0
IsUnique [] = Unit
IsUnique (i ∷ is) = (has i is ≡ false) × IsUnique is

has-append :
    (i : String) (xs : List String) (j : String)
    → has i xs ≡ false
    → str_eq j i ≡ false
    → has i (xs ++ j ∷ []) ≡ false
has-append i [] j h k = ground arith
has-append i (x ∷ xs) j h k = ground (arith, has-append i xs j)

str_eq_sym : (i j : String) → str_eq i j ≡ str_eq j i
str_eq_sym i j = ground (arith, eq_iff i j, eq_iff j i)

append-IsUnique :
    (i : String) (xs : List String) → has i xs ≡ false → IsUnique xs → IsUnique (xs ++ i ∷ [])
append-IsUnique i [] h u = (refl, tt)
append-IsUnique i (x ∷ xs) h u = (
  has-append x xs i u.0 (ground (arith, str_eq_sym x i)),
  append-IsUnique i xs (ground arith) u.1,
)

pub add_to_remove_queue-IsUnique :
    (i : String) (q : List String) → IsUnique q → IsUnique (add_to_remove_queue i q)
unfolding add_to_remove_queue
add_to_remove_queue-IsUnique i q u = ground (arith, append-IsUnique i q)

keep-has :
    (p : String → Bool) (i : String) (q : List String) → has i q ≡ false → has i (keep p q) ≡ false
keep-has p i [] h = refl
keep-has p i (x ∷ xs) h = ground (arith, keep-has p i xs)

pub keep-IsUnique : (p : String → Bool) (q : List String) → IsUnique q → IsUnique (keep p q)
keep-IsUnique p [] u = tt
keep-IsUnique p (x ∷ xs) u = ground (arith, keep-IsUnique p xs u.1, keep-has p x xs u.0)

module _ {V : Type 0} where
  queue_all-IsUnique :
      (ts : List (Toast V)) (q : List String) → IsUnique q → IsUnique (queue_all ts q)
  unfolding queue_all
  queue_all-IsUnique [] q u = u
  queue_all-IsUnique (t ∷ ts) q u =
      queue_all-IsUnique ts (add_to_remove_queue t.id q) (add_to_remove_queue-IsUnique t.id q u)

  length-keep-le : (p : Toast V → Bool) (ts : List (Toast V)) → length (keep p ts) ≤ length ts
  length-keep-le p [] = omega arith
  length-keep-le p (t ∷ ts) = ground (arith, length-keep-le p ts)

  pub record IsValid (s : Store V) : Type 0 where
    pub bounded : length s.toasts ≤ toast_limit
    pub unique : IsUnique s.timeouts

  pub dispatch-IsValid : (a : Action V) (s : Store V) → IsValid s → IsValid (dispatch a s)
  unfolding dispatch reducer
  dispatch-IsValid (add_toast t) s v = record {
    bounded = length-take-le 1 (t ∷ s.toasts);
    unique = v.unique;
  }
  dispatch-IsValid (update_toast p) s v = record {
    bounded = omega (arith, length-map (updated p) s.toasts, v.bounded);
    unique = v.unique;
  }
  dispatch-IsValid (dismiss_toast none) s v = record {
    bounded = omega (arith, length-map (dismissed none) s.toasts, v.bounded);
    unique = queue_all-IsUnique s.toasts s.timeouts v.unique;
  }
  dispatch-IsValid (dismiss_toast (some i)) s v = record {
    bounded = omega (arith, length-map (dismissed (some i)) s.toasts, v.bounded);
    unique = ground (
      arith,
      queue_all-IsUnique s.toasts s.timeouts v.unique,
      add_to_remove_queue-IsUnique i s.timeouts v.unique,
    );
  }
  dispatch-IsValid (remove_toast none) s v = record { bounded = omega arith; unique = v.unique }
  dispatch-IsValid (remove_toast (some i)) s v = record {
    bounded =
        omega (arith, length-keep-le (λ (t : Toast V). not (str_eq t.id i)) s.toasts, v.bounded);
    unique = v.unique;
  }

  expire-IsValid : (i : String) (s : Store V) → IsValid s → IsValid (expire i s)
  unfolding expire
  expire-IsValid i s v = elim (Bool-cases (has i s.timeouts)) [
    | inl e ↦
        rw (e, expire)
          (dispatch-IsValid (remove_toast (some i)) _ (record {
            bounded = v.bounded;
            unique = keep-IsUnique (λ j. not (str_eq j i)) s.timeouts v.unique;
          }))
    | inr e ↦ rw (e, expire) v
  ]

  pub step-IsValid :
      (print : ℕ → String) (s : Store V) (e : Event V) → IsValid s → IsValid (step print s e)
  unfolding step toast
  step-IsValid print s (calls_toast props) v =
      dispatch-IsValid (add_toast _) _ (record { bounded = v.bounded; unique = v.unique })
  step-IsValid print s (dispatches a) v = dispatch-IsValid a s v
  step-IsValid print s (expires i) v = expire-IsValid i s v
  step-IsValid print s (mounts k) v = record { bounded = v.bounded; unique = v.unique }
  step-IsValid print s (subscribes k) v = record { bounded = v.bounded; unique = v.unique }
  step-IsValid print s (unsubscribes k) v = record { bounded = v.bounded; unique = v.unique }

  run-IsValid :
      (print : ℕ → String) (s : Store V) (es : List (Event V))
      → IsValid s
      → IsValid (run print s es)
  unfolding run
  run-IsValid print s [] v = v
  run-IsValid print s (e ∷ es) v = run-IsValid print (step print s e) es (step-IsValid print s e v)

-- After any history of calls, timers and subscriptions, the store shows at most one toast
-- (`TOAST_LIMIT`) and holds at most one removal timer for an id.
pub run-initial-IsValid :
    (V : Type 0) (print : ℕ → String) (es : List (Event V)) → IsValid (run print (initial V) es)
run-initial-IsValid V print es =
    run-IsValid print (initial V) es (record { bounded = omega arith; unique = tt })
