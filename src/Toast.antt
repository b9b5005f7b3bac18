-- ===== src/Toast.antt =====
-- artifacts/dashboard/src/hooks/use-toast.ts: the toast store of the dashboard. The mockup sandbox
-- carries the same file, less one comment. `V` is the type of a toast's other properties (titles,
-- actions and styles). A store holds the module's variables: `memoryState.toasts`, the keys of
-- `toastTimeouts`, `count`, `listeners`, and the React state of each mounted component.
pub mod Reducer
pub mod Dismiss
mod Tests
use pumpy_v.Common.{
  ℕ, ◌+◌, ◌-◌, ◌%◌, ◌^◌, String, Bool, true, false, ◌||◌, not, Option, none, some, List, [], ◌∷◌,
  ◌++◌, map, if◌then◌else◌, ◌==◌, str_eq, truthy, is_some, take, keep, any,
}

abbrev pub toast_limit : ℕ
toast_limit = 1

-- Number.MAX_SAFE_INTEGER
abbrev pub max_safe_integer : ℕ
max_safe_integer = 2 ^ 53 - 1

pub record Toast (V : Type 0) : Type 0 where
  pub id : String
  pub open_ : Option Bool
  pub props : String → Option V

-- A `Partial<ToasterToast>`: `none` is a key that is absent.
pub record Patch (V : Type 0) : Type 0 where
  pub id : Option String
  pub open_ : Option (Option Bool)
  pub props : String → Option V

pub data Action (V : Type 0) : Type 0 where
  add_toast : Toast V → Action V
  update_toast : Patch V → Action V
  dismiss_toast : Option String → Action V
  remove_toast : Option String → Action V

pub record Store (V : Type 0) : Type 0 where
  pub toasts : List (Toast V)
  pub timeouts : List String
  pub count : ℕ
  pub listeners : List ℕ
  pub views : ℕ → List (Toast V)

abbrev pub or_keep {ℓ} : {A : Type ℓ} → Option A → A → A
or_keep none a = a
or_keep (some b) a = b

abbrev pub or_old {ℓ} : {A : Type ℓ} → Option A → Option A → Option A
or_old none a = a
or_old (some b) a = some b

-- `t.id === id`, where `id` may be undefined
abbrev pub same_id : Option String → String → Bool
same_id none i = false
same_id (some j) i = str_eq i j

abbrev pub truthy_id : Option String → Bool
truthy_id none = false
truthy_id (some i) = truthy i

abbrev pub has : String → List String → Bool
has i = any (λ j. str_eq j i)

unfoldable pub add_to_remove_queue : String → List String → List String
add_to_remove_queue i queue = if has i queue then queue else queue ++ i ∷ []

abbrev pub listens : List ℕ → ℕ → Bool
listens ls k = any (λ j. j == k) ls

abbrev pub remove_first : ℕ → List ℕ → List ℕ
remove_first k [] = []
remove_first k (j ∷ js) = if j == k then js else j ∷ remove_first k js

abbrev pub next_count : ℕ → ℕ
next_count n = (n + 1) % max_safe_integer

pub data Event (V : Type 0) : Type 0 where
  calls_toast : (String → Option V) → Event V
  dispatches : Action V → Event V
  expires : String → Event V
  mounts subscribes unsubscribes : ℕ → Event V

module _ {V : Type 0} where
  -- `{ ...t, ...patch }`
  abbrev pub spread : Toast V → Patch V → Toast V
  spread t p = record {
    id = or_keep p.id t.id;
    open_ = or_keep p.open_ t.open_;
    props = λ k. or_old (p.props k) (t.props k);
  }

  abbrev pub close : Toast V → Toast V
  close t = record t { open_ = some false }

  unfoldable pub queue_all : List (Toast V) → List String → List String
  unfolding add_to_remove_queue
  queue_all [] queue = queue
  queue_all (t ∷ ts) queue = queue_all ts (add_to_remove_queue t.id queue)

  abbrev pub updated : Patch V → Toast V → Toast V
  updated p t = if same_id p.id t.id then spread t p else t

  abbrev pub dismissed : Option String → Toast V → Toast V
  dismissed i t = if same_id i t.id || not (is_some i) then close t else t

  -- `reducer`, with the timers that it starts: the queue, then the new list of toasts.
  unfoldable pub reducer : List (Toast V) → List String → Action V → List String × List (Toast V)
  unfolding queue_all add_to_remove_queue
  reducer ts queue (add_toast t) = (queue, take toast_limit (t ∷ ts))
  reducer ts queue (update_toast p) = (queue, map (updated p) ts)
  reducer ts queue (dismiss_toast none) = (queue_all ts queue, map (dismissed none) ts)
  reducer ts queue (dismiss_toast (some i)) = (
    if truthy i then add_to_remove_queue i queue else queue_all ts queue,
    map (dismissed (some i)) ts,
  )
  reducer ts queue (remove_toast none) = (queue, [])
  reducer ts queue (remove_toast (some i)) = (queue, keep (λ t. not (str_eq t.id i)) ts)

  -- The new state, which every listener is handed.
  unfoldable pub dispatch : Action V → Store V → Store V
  unfolding reducer
  dispatch a s =
      let (queue, ts) = reducer s.toasts s.timeouts a in
      record s {
        toasts = ts;
        timeouts = queue;
        views = λ k. if listens s.listeners k then ts else s.views k;
      }

  -- `useState(memoryState)` at the first render
  abbrev pub mount : ℕ → Store V → Store V
  mount k s = record s { views = λ j. if j == k then s.toasts else s.views j }

  -- The effect of `useToast` and its clean-up.
  abbrev pub subscribe : ℕ → Store V → Store V
  subscribe k s = record s { listeners = s.listeners ++ k ∷ [] }

  abbrev pub unsubscribe : ℕ → Store V → Store V
  unsubscribe k s = record s { listeners = remove_first k s.listeners }

  -- The timer of `addToRemoveQueue`; a timer that is not pending does not fire.
  unfoldable pub expire : String → Store V → Store V
  unfolding dispatch
  expire i s =
      if has i s.timeouts
      then dispatch (remove_toast (some i))
          (record s { timeouts = keep (λ j. not (str_eq j i)) s.timeouts })
      else s

  -- `toast(props)`: the new store and the id. `n.toString()` is the parameter `print`.
  unfoldable pub toast : (ℕ → String) → (String → Option V) → Store V → Store V × String
  unfolding dispatch
  toast print props s =
      let n = next_count s.count in
      let i = print n in
      let t : Toast V = record { id = i; open_ = some true; props = props } in
      (dispatch (add_toast t) (record s { count = n }), i)

  unfoldable pub step : (ℕ → String) → Store V → Event V → Store V
  unfolding toast dispatch expire
  step print s (calls_toast props) = (toast print props s).0
  step print s (dispatches a) = dispatch a s
  step print s (expires i) = expire i s
  step print s (mounts k) = mount k s
  step print s (subscribes k) = subscribe k s
  step print s (unsubscribes k) = unsubscribe k s

  pub run : (ℕ → String) → Store V → List (Event V) → Store V
  run print s [] = s
  run print s (e ∷ es) = run print (step print s e) es

abbrev pub initial : (V : Type 0) → Store V
initial V = record { toasts = []; timeouts = []; count = 0; listeners = []; views = λ k. [] }
