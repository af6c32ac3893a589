-- ===== src/PointerStack/Tests.antt =====
-- Pushes to a stack of one pointer.
use mmoserver.Shared.{ℕ, ◌≡◌, none, some, refl}
use mmoserver.PointerStack.{PointerStack, push}
use mmoserver.Families.{assign}

abbrev one : PointerStack ℕ
one = record { top = 1; stack = λ i. 9 }

pushed : push 2 one 5 ≡ some (record { top = 2; stack = assign one.stack 1 5 })
unfolding push
pushed = refl

full_push : push 1 one 5 ≡ none
unfolding push
full_push = refl
