-- ===== src/Calls.antt =====
-- A queue or a stack whose calls act at once: what the lock-free containers of ServerCore/Memory are
-- compared with. `add` puts an item in.
use mmoserver.Shared.{ℕ, ◌<◌, ◌≡◌, List, [], ◌∷◌, ◌++◌, refl}
use mmoserver.Families.{assign}

-- Where a thread stands in a call.
pub data Call (A : Type 0) : Type 0 where
  outside : Call A
  putting : A → Call A
  put : Call A
  taking : Call A
  took : A → Call A
  refused : Call A
  crashed : Call A

-- What a call does to the items: at one moment between its begin and its end the item is put in, or
-- the one at the front is taken. A call may also find too few or too many items, or crash.
pub data Act {A : Type 0} (add : List A → A → List A) (items : List A)
    : Call A → List A → Call A → Type 0 where
  begin_put : {d : A} → Act add items outside items (putting d)
  put_in : {d : A} → Act add items (putting d) (add items d) put
  end_put : Act add items put items outside
  begin_take : Act add items outside items taking
  take_front : {v : A} {rest : List A} → items ≡ v ∷ rest → Act add items taking rest (took v)
  end_take : {v : A} → Act add items (took v) items outside
  refuse : Act add items outside items refused
  end_refuse : Act add items refused items outside
  full : Act add items outside items crashed
  crash_put : {d : A} → Act add items (putting d) items crashed
  crash_take : Act add items taking items crashed
  wait : {c : Call A} → Act add items c items c

-- At the back, and on top.
abbrev pub snoc : {A : Type 0} → List A → A → List A
snoc items d = items ++ d ∷ []

abbrev pub cons : {A : Type 0} → List A → A → List A
cons items d = d ∷ items

-- The container with its threads.
pub record Atomic (A : Type 0) : Type 0 where
  pub held : List A
  pub calls : ℕ → Call A

pub data AtomicStep {A : Type 0} (add : List A → A → List A) (n : ℕ) (s : Atomic A)
    : Atomic A → Type 0 where
  act :
      {l : List A} {c : Call A} (i : ℕ)
      → i < n
      → Act add s.held (s.calls i) l c
      → AtomicStep add n s (record { held = l; calls = assign s.calls i c })

-- The items that a step of a call puts in.
abbrev pub gained : {A : Type 0} → Call A → Call A → List A
gained (putting d) put = d ∷ []
gained (putting d) c = []
gained c c' = []

pub gained_same : {A : Type 0} (c : Call A) → gained c c ≡ []
gained_same (putting d) = refl
gained_same c = refl
