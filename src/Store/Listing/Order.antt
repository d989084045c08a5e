-- ===== src/Store/Listing/Order.antt =====
-- The page that `list` of src/store.cpp cuts out, and its order.
use mathlib.Core.List.{Perm}
use mathlib.Core.List.Perm
use shrt_cpp.Prelude.{
  Option, none, some, ℕ, zero, suc, ◌+◌, ◌-◌, ◌<◌, Bool, false, List, [], ◌∷◌, ◌≡◌, arith, inl, inr,
  Bool-cases, lt64, length, take, drop, leb,
}
use shrt_cpp.Store.State.{Link}
use shrt_cpp.Store.Listing.{sort_key, insert_link, sort_links, min_size, page}

-- No link stands before one with a larger key.
unfoldable pub IsFirst : Bool → Link → List Link → Type 0
IsFirst by_hits l [] = Unit
IsFirst by_hits l (m ∷ ms) = lt64 (sort_key by_hits l) (sort_key by_hits m) ≡ false

unfoldable pub IsSorted : Bool → List Link → Type 0
IsSorted by_hits [] = Unit
IsSorted by_hits (l ∷ ls) = IsFirst by_hits l ls × IsSorted by_hits ls

length-insert_link :
    (b : Bool) (l : Link) (ls : List Link) → length (insert_link b l ls) ≡ suc (length ls)
unfolding insert_link
length-insert_link b l [] = omega arith
length-insert_link b l (m ∷ ms) = ground (arith, length-insert_link b l ms)

length-sort_links : (b : Bool) (ls : List Link) → length (sort_links b ls) ≡ length ls
unfolding sort_links
length-sort_links b [] = omega arith
length-sort_links b (l ∷ ls) =
    omega (arith, length-insert_link b l (sort_links b ls), length-sort_links b ls)

take-IsSorted : (b : Bool) (n : ℕ) (ls : List Link) → IsSorted b ls → IsSorted b (take n ls)
unfolding IsSorted IsFirst
take-IsSorted b zero ls h = tt
take-IsSorted b (suc n) [] h = tt
take-IsSorted b (suc zero) (l ∷ ls) h = (tt, tt)
take-IsSorted b (suc (suc n)) (l ∷ []) h = (tt, tt)
take-IsSorted b (suc (suc n)) (l ∷ m ∷ ls) h = (h.0, take-IsSorted b (suc n) (m ∷ ls) h.1)

drop-IsSorted : (b : Bool) (n : ℕ) (ls : List Link) → IsSorted b ls → IsSorted b (drop n ls)
unfolding IsSorted
drop-IsSorted b zero ls h = h
drop-IsSorted b (suc n) [] h = tt
drop-IsSorted b (suc n) (l ∷ ls) h = drop-IsSorted b n ls h.1

page-IsSorted :
    (b : Bool) (limit offset : ℕ) (ls : List Link)
    → IsSorted b ls
    → IsSorted b (page limit offset ls)
unfolding page
page-IsSorted b limit offset ls h = elim (Bool-cases (leb (length ls) offset)) [
  | inl e ↦ rw e (unfold IsSorted in tt)
  | inr e ↦ rw e (take-IsSorted b _ _ (drop-IsSorted b offset ls h))
]

-- The element at an index.
unfoldable pub get_elem? : {A : Type 0} → List A → ℕ → Option A
get_elem? [] k = none
get_elem? (x ∷ xs) zero = some x
get_elem? (x ∷ xs) (suc k) = get_elem? xs k

-- The page of a list, by the places of its elements.
unfoldable pub AtPlaces : ℕ → ℕ → List Link → List Link → Type 0
AtPlaces limit offset all ls =
    (length ls ≡ min_size limit (length all - offset))
    × ((k : ℕ) → k < limit → get_elem? ls k ≡ get_elem? all (offset + k))
