-- ===== src/Store/Listing/Matches.antt =====
-- Which links `list` of src/store.cpp collects.
use mathlib.Core.Path.{subst}
use shrt_cpp.Prelude.{
  ==_iff, sym, ap, ◌∙◌, ℕ, zero, suc, ◌+◌, ◌≤◌, ◌<◌, true, List, [], ◌∷◌, ◌++◌, ◌≡◌, ◌⊎◌, inl, inr,
  refl, arith, Bool-cases, Bytes, Dict, ◌==◌, if◌then◌else◌,
}
use shrt_cpp.Store.State.{Link, Entry, Inner}
use shrt_cpp.Store.Listing.{matches, to_link, shard_links, links_from}

-- The value stands in the list.
unfoldable pub In : {A : Type 0} → A → List A → Type 0
In a [] = ⊥
In a (x ∷ xs) = (a ≡ x) ⊎ In a xs

In-append : {A : Type 0} (a : A) (xs ys : List A) → In a (xs ++ ys) → In a xs ⊎ In a ys
unfolding In
In-append a [] ys h = inr h
In-append a (x ∷ xs) ys (inl e) = inl (inl e)
In-append a (x ∷ xs) ys (inr h) = elim (In-append a xs ys h) [ inl p ↦ inl (inr p) | inr p ↦ inr p ]

In-append_left : {A : Type 0} (a : A) (xs ys : List A) → In a xs → In a (xs ++ ys)
unfolding In
In-append_left a [] ys h = absurd h
In-append_left a (x ∷ xs) ys (inl e) = inl e
In-append_left a (x ∷ xs) ys (inr h) = inr (In-append_left a xs ys h)

In-append_right : {A : Type 0} (a : A) (xs ys : List A) → In a ys → In a (xs ++ ys)
unfolding In
In-append_right a [] ys h = h
In-append_right a (x ∷ xs) ys h = inr (In-append_right a xs ys h)

-- A link of one of the `n` shards from the shard `i` on whose code or url contains the search text, or any
-- of them where that is empty, as a listing shows it.
unfoldable pub IsMatch : ℕ → ℕ → Bytes → Inner → Link → Type 0
IsMatch n i q s l =
    (k : ℕ) × (code : Bytes) × (e : Entry) × (i ≤ k)
    × (k < i + n)
    × In (code, e) (s.shards k).entries
    × (matches q code e ≡ true)
    × (l ≡ to_link code e)

InShard : Bytes → Dict Entry → Link → Type 0
InShard q m l =
    (code : Bytes) × (e : Entry) × In (code, e) m × (matches q code e ≡ true) × (l ≡ to_link code e)

kept_link :
    (q : Bytes) (l : Link) (code : Bytes) (e : Entry) (m : Dict Entry)
    → matches q code e ≡ true
    → In l (shard_links q ((code, e) ∷ m))
    → (l ≡ to_link code e) ⊎ In l (shard_links q m)
unfolding shard_links In
kept_link q l code e m p h =
    subst (λ b. In l (if b then to_link code e ∷ shard_links q m else shard_links q m)) p h

shard_links-InShard :
    (q : Bytes) (l : Link) (m : Dict Entry) → In l (shard_links q m) → InShard q m l
unfolding shard_links In InShard
shard_links-InShard q l [] h = absurd h
shard_links-InShard q l ((code, e) ∷ m) h = elim (Bool-cases (matches q code e)) [
  | inl p ↦ elim (kept_link q l code e m p h) [
    | inl r ↦ (code, e, inl refl, p, r)
    | inr r ↦ let (c, x, i, y, z) = shard_links-InShard q l m r in (c, x, inr i, y, z)
  ]
  | inr p ↦
      let (c, x, i, y, z) =
        shard_links-InShard q l m (
          subst (λ b. In l (if b then to_link code e ∷ shard_links q m else shard_links q m)) p
            h) in
      (c, x, inr i, y, z)
]

InShard-shard_links :
    (q : Bytes) (l : Link) (m : Dict Entry) → InShard q m l → In l (shard_links q m)
unfolding shard_links In InShard
InShard-shard_links q l [] (c, x, i, p, r) = absurd i
InShard-shard_links q l ((code, e) ∷ m) (c, x, inl i, p, r) =
    let p' = ap (λ (z : Bytes × Entry). matches q z.0 z.1) (sym i) ∙ p in
    rw p' (inl (r ∙ ap (λ (z : Bytes × Entry). to_link z.0 z.1) i))
InShard-shard_links q l ((code, e) ∷ m) (c, x, inr i, y, r) = elim (Bool-cases (matches q code e)) [
  | inl p ↦ rw p (inr (InShard-shard_links q l m (c, x, i, y, r)))
  | inr p ↦ rw p (InShard-shard_links q l m (c, x, i, y, r))
]

-- The loop over the shards collects just the links that match.
pub links_from-IsMatch :
    (n i : ℕ) (q : Bytes) (s : Inner) (l : Link) → In l (links_from n i q s) → IsMatch n i q s l
unfolding links_from IsMatch In InShard
links_from-IsMatch zero i q s l h = absurd h
links_from-IsMatch (suc n) i q s l h =
    elim (In-append l (shard_links q (s.shards i).entries) (links_from n (i + 1) q s) h) [
      | inl p ↦
          let (c, x, y, z, r) = shard_links-InShard q l (s.shards i).entries p in
          (i, c, x, omega arith, omega arith, y, z, r)
      | inr p ↦
          let (k, c, x, a, b, y, z, r) = links_from-IsMatch n (i + 1) q s l p in
          (k, c, x, omega (arith, a), omega (arith, b), y, z, r)
    ]

pub IsMatch-links_from :
    (n i : ℕ) (q : Bytes) (s : Inner) (l : Link) → IsMatch n i q s l → In l (links_from n i q s)
unfolding links_from IsMatch InShard
IsMatch-links_from zero i q s l (k, c, x, a, b, y, z, r) = absurd (omega (arith, a, b))
IsMatch-links_from (suc n) i q s l (k, c, x, a, b, y, z, r) = elim (Bool-cases (i == k)) [
  | inl e ↦
      let p = (==_iff i k).0 e in
      In-append_left l _ _ (
        InShard-shard_links q l (s.shards i).entries (
          subst
            (λ j.
              (c : Bytes) × (x : Entry) × In (c, x) (s.shards j).entries
              × (matches q c x ≡ true)
              × (l ≡ to_link c x))
            (sym p) (c, x, y, z, r)))
  | inr e ↦ In-append_right l (shard_links q (s.shards i).entries) _ (
      IsMatch-links_from n (i + 1) q s l (k, c, x, ground (arith, e, a), omega (arith, b), y, z, r))
]
