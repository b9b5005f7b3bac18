-- ===== src/Toast/Dismiss.antt =====
-- use-toast.ts: a dismissed toast closes at once and is removed when its timer fires.
use pumpy_v.Common.{
  ◌≡◌, refl, String, true, false, none, some, List, [], ◌∷◌, ◌++◌, map, not, arith, str_eq, eq_refl,
  keep, All, truthy, ap,
}
use pumpy_v.Toast.{
  Toast, dismiss_toast, Store, has, add_to_remove_queue, queue_all, close, dismissed, reducer,
  dispatch, expire,
}

has-append_self : (i : String) (q : List String) → has i (q ++ i ∷ []) ≡ true
has-append_self i [] = ground (arith, eq_refl i)
has-append_self i (j ∷ q) = ground (arith, has-append_self i q)

has-append_of : (i j : String) (q : List String) → has i q ≡ true → has i (q ++ j ∷ []) ≡ true
has-append_of i j [] h = cc
has-append_of i j (k ∷ q) h = ground (arith, has-append_of i j q)

pub has-add_to_remove_queue :
    (i : String) (q : List String) → has i (add_to_remove_queue i q) ≡ true
unfolding add_to_remove_queue
has-add_to_remove_queue i q = ground (arith, has-append_self i q)

has-add_to_remove_queue_of :
    (i j : String) (q : List String) → has i q ≡ true → has i (add_to_remove_queue j q) ≡ true
unfolding add_to_remove_queue
has-add_to_remove_queue_of i j q h = ground (arith, has-append_of i j q h)

has-keep_ne : (i : String) (q : List String) → has i (keep (λ j. not (str_eq j i)) q) ≡ false
has-keep_ne i [] = refl
has-keep_ne i (j ∷ q) = ground (arith, has-keep_ne i q)

module _ {V : Type 0} where
  keep-dismissed :
      (i : String) (ts : List (Toast V))
      → keep (λ (t : Toast V). not (str_eq t.id i)) (map (dismissed (some i)) ts)
        ≡ keep (λ (t : Toast V). not (str_eq t.id i)) ts
  keep-dismissed i [] = refl
  keep-dismissed i (t ∷ ts) = ground (arith, keep-dismissed i ts)

  has-queue_all_of :
      (i : String) (ts : List (Toast V)) (q : List String)
      → has i q ≡ true
      → has i (queue_all ts q) ≡ true
  unfolding queue_all
  has-queue_all_of i [] q h = h
  has-queue_all_of i (t ∷ ts) q h =
      has-queue_all_of i ts (add_to_remove_queue t.id q) (has-add_to_remove_queue_of i t.id q h)

  queue_all-All :
      (ts : List (Toast V)) (q : List String)
      → All (λ (t : Toast V). has t.id (queue_all ts q) ≡ true) ts
  unfolding queue_all
  queue_all-All [] q = tt
  queue_all-All (t ∷ ts) q = (
    has-queue_all_of t.id ts (add_to_remove_queue t.id q) (has-add_to_remove_queue t.id q),
    queue_all-All ts (add_to_remove_queue t.id q),
  )

  map-dismissed-none : (ts : List (Toast V)) → map (dismissed none) ts ≡ map close ts
  map-dismissed-none [] = refl
  map-dismissed-none (t ∷ ts) = ap (◌∷◌ (close t)) (map-dismissed-none ts)

-- Dismissing a toast by a nonempty id and then letting its timer fire removes exactly the toasts
-- with that id, leaves the others as they were and in order, and leaves no timer for the id.
pub expire-dispatch_dismiss :
    (V : Type 0) (i : String) (s : Store V)
    → truthy i ≡ true
    → let s' = expire i (dispatch (dismiss_toast (some i)) s) in
      (s'.toasts ≡ keep (λ (t : Toast V). not (str_eq t.id i)) s.toasts)
      × (has i s'.timeouts ≡ false)
unfolding expire dispatch reducer
expire-dispatch_dismiss V i s h =
    rw (h, has-add_to_remove_queue i s.timeouts)
      (keep-dismissed i s.toasts, has-keep_ne i (add_to_remove_queue i s.timeouts))

-- Dismissing without an id closes every toast, and starts or keeps a removal timer for each.
pub dismiss_every :
    (V : Type 0) (s : Store V)
    → let s' = dispatch (dismiss_toast none) s in
      (s'.toasts ≡ map close s.toasts) × All (λ (t : Toast V). has t.id s'.timeouts ≡ true) s.toasts
unfolding dispatch reducer
dismiss_every V s = (map-dismissed-none s.toasts, queue_all-All s.toasts s.timeouts)
