-- ===== src/LockFreeQ/Shape.antt =====
-- The nodes of a LockFreeQ from the front to the rear, and their tags
-- (ServerCore/Memory/LockFreeQ.h).
use mmoserver.Shared.{
  ℕ, ◌+◌, ◌≤◌, ◌<◌, ◌≡◌, none, some, List, [], ◌∷◌, ◌++◌, ◌==◌, if◌then◌else◌, arith, Option, refl,
  ap, ◌≢◌, ◌⊎◌, inl, inr,
}
use mmoserver.Families.{assign, occurrences}
use mmoserver.LockFreeQ.Defs.{Link, null, tag, node, Memory}
use mmoserver.LockFreeQ.System.{stands_behind}

-- The nodes `l`, linked by `next` behind `f`, the last of all is `r`.
abbrev pub IsPath : (ℕ → Link) → ℕ → ℕ → List ℕ → Type 0
IsPath next r f [] = f ≡ r
IsPath next r f (a ∷ l) = (next f ≡ node a) × IsPath next r a l

abbrev pub contents {ℓ} : {A : Type ℓ} → (ℕ → A) → List ℕ → Option ℕ → List A
contents c [] none = []
contents c [] (some x) = c x ∷ []
contents c (a ∷ l) e = c a ∷ contents c l e

abbrev pub IsSeen : List ℕ → Link → Type 0
IsSeen seen null = ⊥
IsSeen seen (tag k) = 0 < occurrences k seen
IsSeen seen (node q) = ⊥

abbrev pub IsFreshTag : (ℕ → Link) → List ℕ → ℕ → Type 0
IsFreshTag next seen x = (k : ℕ) × (next x ≡ tag k) × (occurrences k seen ≡ 0)

-- The rear node, and the one behind it.
abbrev pub IsTail : (ℕ → Link) → List ℕ → ℕ → Link → Option ℕ → Type 0
IsTail next seen r c none = next r ≡ c
IsTail next seen r c (some x) = (next r ≡ node x) × IsFreshTag next seen x

-- How often node `y` is in the queue.
abbrev pub in_queue : ℕ → ℕ → List ℕ → Option ℕ → ℕ
in_queue y f l e = (if f == y then 1 else 0) + occurrences y l + stands_behind y e

pub record Shape {A : Type 0} (m : Memory A) : Type 0 where
  pub path : IsPath m.next m.rear_ptr m.front_ptr m.nodes
  pub tail : IsTail m.next m.seen m.rear_ptr m.rear_check m.extra
  pub rear_seen : IsSeen m.seen m.rear_check
  pub tails :
      (p k : ℕ) → m.next p ≡ tag k → 0 < occurrences k m.seen → (m.rear_ptr ≡ p) × (m.extra ≡ none)
  pub unique : (p q k : ℕ) → m.next p ≡ tag k → m.next q ≡ tag k → p ≡ q
  pub bounded : (p k : ℕ) → m.next p ≡ tag k → k ≤ m.rear_id
  pub seen_bounded : (k : ℕ) → 0 < occurrences k m.seen → k ≤ m.rear_id
  pub fifo : m.enqueued ≡ m.dequeued ++ contents m.content m.nodes m.extra

pub last_in :
    (next : ℕ → Link) (r f y : ℕ) (l : List ℕ)
    → IsPath next r f l
    → (if r == y then 1 else 0) ≤ (if f == y then 1 else 0) + occurrences y l
last_in next r f y [] h = ground arith
last_in next r f y (a ∷ l) h = omega (arith, last_in next r a y l h.1)

pub IsPath-assign :
    (next : ℕ → Link) (r f y : ℕ) (w : Link) (l : List ℕ)
    → IsPath next r f l
    → (if f == y then 1 else 0) + occurrences y l ≤ (if r == y then 1 else 0)
    → IsPath (assign next y w) r f l
IsPath-assign next r f y w [] h few = h
IsPath-assign next r f y w (a ∷ l) h few = (
  ground (arith, last_in next r a y l h.1),
  IsPath-assign next r a y w l h.1 (omega (arith, last_in next r a y l h.1)),
)

pub IsPath-append :
    (next : ℕ → Link) (r f q : ℕ) (l : List ℕ)
    → IsPath next r f l
    → next r ≡ node q
    → IsPath next q f (l ++ q ∷ [])
IsPath-append next r f q [] h e = (rw h e, refl)
IsPath-append next r f q (a ∷ l) h e = (h.0, IsPath-append next r a q l h.1 e)

module _ {ℓ} {A : Type ℓ} (c : ℕ → A) (x : ℕ) (d : A) where
  pub contents-assign :
      (l : List ℕ) (e : Option ℕ)
      → occurrences x l + stands_behind x e ≡ 0
      → contents (assign c x d) l e ≡ contents c l e
  contents-assign [] none h = refl
  contents-assign [] (some y) h = ground arith
  contents-assign (a ∷ l) e h = ground (arith, contents-assign l e)

  pub contents-some : (l : List ℕ) → c x ≡ d → contents c l (some x) ≡ contents c l none ++ d ∷ []
  contents-some [] h = cc
  contents-some (a ∷ l) h = ap (λ t. c a ∷ t) (contents-some l h)

pub contents-append {ℓ} :
    {A : Type ℓ} (c : ℕ → A) (q : ℕ) (l : List ℕ)
    → contents c (l ++ q ∷ []) none ≡ contents c l (some q)
contents-append c q [] = refl
contents-append c q (a ∷ l) = ap (λ t. c a ∷ t) (contents-append c q l)

pub IsTail-assign :
    (next : ℕ → Link) (seen : List ℕ) (r : ℕ) (c : Link) (x : ℕ) (w : Link) (e : Option ℕ)
    → IsTail next seen r c e
    → x ≢ r
    → stands_behind x e ≡ 0
    → IsTail (assign next x w) seen r c e
IsTail-assign next seen r c x w none h ne aside = ground arith
IsTail-assign next seen r c x w (some y) (at, (k, tagged, fresh)) ne aside =
    (ground arith, (k, ground arith, fresh))

pub List-cases {ℓ} : {A : Type ℓ} (l : List A) → (l ≡ []) ⊎ ((a : A) × (t : List A) × (l ≡ a ∷ t))
List-cases [] = inl refl
List-cases (a ∷ l) = inr (a, l, refl)
