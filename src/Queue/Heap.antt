-- ===== src/Queue/Heap.antt =====
-- Rust's `BinaryHeap<QueueItem>`: its elements in some order, `push`, and the `pop` of a greatest
-- one by `Ord`.
use mathlib.Core.List.{Perm}
use serverust_less.Prelude.{
  extract_max, Bool, false, All, extract_max-fails, ◌≡◌, refl, Option, none, some, List, [], ◌∷◌,
  length, extract_max, extract_max-perm, extract_max-none, length-extract_max, suc,
  extract_max-Greatest, Greatest,
}
use serverust_less.Model.QueueItem.{QueueItem, cmp, cmp-IsOrder}

abbrev pub push : QueueItem → List QueueItem → List QueueItem
push item heap = item ∷ heap

unfoldable pub pop : List QueueItem → Option (QueueItem × List QueueItem)
unfolding extract_max
pop heap = extract_max cmp heap

pub pop-nil : pop [] ≡ none
unfolding pop
pop-nil = refl

pub pop-none : (heap : List QueueItem) → pop heap ≡ none → heap ≡ []
unfolding pop
pop-none heap e = extract_max-none cmp heap e

module _ (heap : List QueueItem) {item : QueueItem} {rest : List QueueItem}
    (popped : pop heap ≡ some (item, rest)) where
  pub pop-perm : Perm heap (item ∷ rest)
  unfolding pop
  pop-perm = extract_max-perm cmp heap popped

  pub pop-Greatest : Greatest cmp item heap
  unfolding pop
  pop-Greatest = extract_max-Greatest cmp-IsOrder heap popped

  pub length-pop : length heap ≡ suc (length rest)
  unfolding pop
  length-pop = length-extract_max cmp heap popped

pub pop-one : (item : QueueItem) → pop (item ∷ []) ≡ some (item, [])
unfolding pop extract_max
pop-one item = refl

pub pop-fails :
    (p : QueueItem → Bool) (heap : List QueueItem) {item : QueueItem} {rest : List QueueItem}
    → pop heap ≡ some (item, rest)
    → All (λ i. p i ≡ false) heap
    → p item ≡ false
unfolding pop
pop-fails p heap popped h = extract_max-fails cmp p heap popped h
