-- ===== src/Uses/Store.antt =====
-- Set, AddToList and RemoveFromList of Src/Use.cpp, and AddUse of Include/Dilithium/Value.hpp, over a
-- store of uses and values, which numbers stand for.
use dilithium.Base.{ℕ, if◌then◌else◌, ◌==◌, Option, none, some}

-- What a Use** points to: the `use_list_` of a value, or the `next_` of a use.
pub data Slot : Type 0 where
  head_of : ℕ → Slot
  next_of : ℕ → Slot

-- The fields of the values and the uses.
pub record Store : Type 0 where
  pub use_list : ℕ → Option ℕ
  pub val : ℕ → Option ℕ
  pub next : ℕ → Option ℕ
  pub prev_ptr : ℕ → Slot

abbrev pub assign_at {ℓ} : {A : Type ℓ} → (ℕ → A) → ℕ → A → ℕ → A
assign_at f k a n = if n == k then a else f n

-- *slot
abbrev pub read_slot : Store → Slot → Option ℕ
read_slot h (head_of v) = h.use_list v
read_slot h (next_of u) = h.next u

abbrev pub write_slot : Store → Slot → Option ℕ → Store
write_slot h (head_of v) o = record h { use_list = assign_at h.use_list v o }
write_slot h (next_of u) o = record h { next = assign_at h.next u o }

-- if (next_) next_->prev_ptr_ = slot
abbrev pub set_prev : Store → Option ℕ → Slot → Store
set_prev h none slot = h
set_prev h (some n) slot = record h { prev_ptr = assign_at h.prev_ptr n slot }

unfoldable pub add_to_list : Store → ℕ → Slot → Store
add_to_list h u node =
    let first = read_slot h node in
    let h1 = record h { next = assign_at h.next u first } in
    let h2 = set_prev h1 first (next_of u) in
    let h3 = record h2 { prev_ptr = assign_at h2.prev_ptr u node } in write_slot h3 node (some u)

unfoldable pub remove_from_list : Store → ℕ → Store
remove_from_list h u =
    let stripped_prev = h.prev_ptr u in
    let after = h.next u in set_prev (write_slot h stripped_prev after) after stripped_prev

unfoldable pub add_use : Store → ℕ → ℕ → Store
unfolding add_to_list
add_use h v u = add_to_list h u (head_of v)

-- The part of Set that unlinks the use.
abbrev pub unlink : Store → ℕ → Store
unlink h u = elim (h.val u) [ none ↦ h | some _ ↦ remove_from_list h u ]

unfoldable pub set_use : Store → ℕ → Option ℕ → Store
unfolding remove_from_list add_use
set_use h u v =
    let unlinked = unlink h u in
    let h' = record unlinked { val = assign_at unlinked.val u v } in
    elim v [ none ↦ h' | some value ↦ add_use h' value u ]
