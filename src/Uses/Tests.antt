-- ===== src/Uses/Tests.antt =====
-- Runs of the code of Src/Use.cpp.
use dilithium.Base.{ℕ, ◌+◌, ◌/◌, ◌≡◌, refl, arith, none, some, Bool, ltb, List, [], ◌∷◌}
use dilithium.Uses.{Memory, one_digit, init_tags, implied_user}
use dilithium.Uses.Sort.{sort_use_list}
use dilithium.Uses.Sorted.{insertion_sort, sort_use_list-insertion_sort}
use dilithium.Uses.Implied.{implied_user-init_tags}
use dilithium.Uses.Store.{Store, head_of, set_use, read_slot}
use dilithium.Uses.Stored.{IsStore, none≢some}
use dilithium.Uses.Moved.{moved, set_use-IsStore}

abbrev ones : Memory
ones p = one_digit

-- Forty uses are more than the table has.
last_use : implied_user 40 100 (init_tags 100 40 ones) ≡ some 140
unfolding implied_user init_tags
last_use = refl

middle_use : implied_user 40 117 (init_tags 100 40 ones) ≡ some 140
unfolding implied_user init_tags
middle_use = refl

implied_user-init_tags_example : implied_user 40 (100 + 3) (init_tags 100 40 ones) ≡ some (100 + 40)
implied_user-init_tags_example = implied_user-init_tags 100 40 3 ones (omega arith)

-- The tens are the keys.
abbrev tens : ℕ → ℕ
tens n = n / 10

abbrev by_tens : ℕ → ℕ → Bool
by_tens x y = ltb (tens x) (tens y)

abbrev five_uses : List ℕ
five_uses = 31 ∷ 12 ∷ 30 ∷ 11 ∷ 25 ∷ []

sort_runs : sort_use_list by_tens five_uses ≡ 12 ∷ 11 ∷ 25 ∷ 31 ∷ 30 ∷ []
unfolding sort_use_list
sort_runs = refl

sort_use_list-insertion_sort_example :
    sort_use_list by_tens five_uses ≡ insertion_sort by_tens five_uses
sort_use_list-insertion_sort_example =
    sort_use_list-insertion_sort by_tens tens (λ x y. refl) five_uses

-- No use has a value.
abbrev unused : Store
unused = record {
  use_list = λ v. none;
  val = λ u. none;
  next = λ u. none;
  prev_ptr = λ u. head_of 0;
}

unused-IsStore : IsStore unused (λ v. [])
unused-IsStore = record {
  chain = λ v. refl;
  distinct = λ v. tt;
  owned = λ v. tt;
  listed = λ y v has. absurd (none≢some v has);
}

-- Uses 5 and 6 of value 1.
abbrev two_uses : Store
two_uses = set_use (set_use unused 5 (some 1)) 6 (some 1)

abbrev lists_of_two : ℕ → List ℕ
lists_of_two = moved 6 (some 1) (moved 5 (some 1) (λ v. []))

two_uses-IsStore : IsStore two_uses lists_of_two
two_uses-IsStore =
    set_use-IsStore (set_use unused 5 (some 1)) (moved 5 (some 1) (λ v. [])) 6 (some 1)
      (set_use-IsStore unused (λ v. []) 5 (some 1) unused-IsStore)

first_after_move : read_slot (set_use two_uses 6 (some 2)) (head_of 1) ≡ some 5
unfolding set_use
first_after_move = refl

set_use-IsStore_example : IsStore (set_use two_uses 5 (some 2)) (moved 5 (some 2) lists_of_two)
set_use-IsStore_example = set_use-IsStore two_uses lists_of_two 5 (some 2) two_uses-IsStore
