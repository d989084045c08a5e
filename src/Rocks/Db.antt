-- ===== src/Rocks/Db.antt =====
-- The calls of RocksDB that src/store_rocks.cpp makes, as an interface, and the two callbacks that the
-- database gets from it: the merge operator of the counters and the compaction filter of the links.
use shrt_cpp.Prelude.{
  ℕ, zero, suc, ◌+◌, ◌*◌, ◌/◌, ◌%◌, Bool, true, false, ◌&&◌, not, List, [], ◌∷◌, Option, none, some,
  ◌≡◌, Bytes, bytes_eq, Int64, add64, le64, length, take, leb, ◌==◌, if◌then◌else◌,
}
use shrt_cpp.Kv.Value.{dec}

-- A write of a batch: on the family "links" or on the family "hits".
pub data Write : Type 0 where
  put_link : Bytes → Bytes → Write
  delete_link : Bytes → Write
  delete_hits : Bytes → Write
  merge_hits : Bytes → Bytes → Write

-- The least significant `n` bytes of a number, and the number of a byte string: memcpy on a machine
-- that stores the least significant byte first.
unfoldable pub le_bytes : ℕ → ℕ → Bytes
le_bytes zero x = []
le_bytes (suc n) x = x % 256 ∷ le_bytes n (x / 256)

unfoldable pub le_value : Bytes → ℕ
le_value [] = 0
le_value (b ∷ s) = b + 256 * le_value s

-- The first eight bytes as a number where there are as many, else 0.
unfoldable pub u64_at : Bytes → Int64
u64_at s = if leb 8 (length s) then le_value (take 8 s) else 0

unfoldable pub u64_of : Option Bytes → Int64
u64_of none = 0
u64_of (some s) = u64_at s

-- U64AddMerge::Merge
unfoldable pub merge : Option Bytes → Bytes → Bytes
merge existing value = le_bytes 8 (add64 (u64_of existing) (u64_at value))

-- An expiry that has passed; 0 is none.
abbrev pub has_expired : Int64 → Int64 → Bool
has_expired now e = not (e == 0) && le64 e now

-- ExpiryFilter::Filter: the rows that a compaction may drop.
unfoldable pub filter : Int64 → Bytes → Bool
filter now value = elim (dec value) [ none ↦ false | some x ↦ has_expired now x.e ]

-- A read gives the value where the status is ok; a write gives whether its status is ok, and the
-- database behind it. `links` is what the iterator over "links" runs through.
pub record Db (D : Type 0) : Type 0 where
  pub get_link : Bytes → D → Option Bytes
  pub get_hits : Bytes → D → Option Bytes
  pub write : List Write → D → Bool × D
  pub put : Bytes → Bytes → D → Bool × D
  pub links : D → List (Bytes × Bytes)
  pub compact : (Bytes → Bool) → D → D

-- What a write does to the row of `k` in either family.
unfoldable pub link_after : Bytes → Write → Option Bytes → Option Bytes
link_after k (put_link j v) o = if bytes_eq j k then some v else o
link_after k (delete_link j) o = if bytes_eq j k then none else o
link_after k (delete_hits j) o = o
link_after k (merge_hits j v) o = o

unfoldable pub hits_after : Bytes → Write → Option Bytes → Option Bytes
hits_after k (put_link j v) o = o
hits_after k (delete_link j) o = o
hits_after k (delete_hits j) o = if bytes_eq j k then none else o
hits_after k (merge_hits j v) o = if bytes_eq j k then some (merge o v) else o

unfoldable pub link_after_all : Bytes → List Write → Option Bytes → Option Bytes
link_after_all k [] o = o
link_after_all k (x ∷ xs) o = link_after_all k xs (link_after k x o)

unfoldable pub hits_after_all : Bytes → List Write → Option Bytes → Option Bytes
hits_after_all k [] o = o
hits_after_all k (x ∷ xs) o = hits_after_all k xs (hits_after k x o)

-- A batch whose status is ok is applied as a whole, in its order, with the merge operator that the
-- family was opened with; one whose status is not ok has no effect. A compaction keeps the rows that
-- its filter does not name and makes none.
pub record DbLaws {D : Type 0} (db : Db D) : Type 0 where
  pub written_links :
      (ws : List Write) (k : Bytes) (d : D)
      → (db.write ws d).0 ≡ true
      → db.get_link k (db.write ws d).1 ≡ link_after_all k ws (db.get_link k d)
  pub written_hits :
      (ws : List Write) (k : Bytes) (d : D)
      → (db.write ws d).0 ≡ true
      → db.get_hits k (db.write ws d).1 ≡ hits_after_all k ws (db.get_hits k d)
  pub refused : (ws : List Write) (d : D) → (db.write ws d).0 ≡ false → (db.write ws d).1 ≡ d
  pub put_write : (k v : Bytes) (d : D) → db.put k v d ≡ db.write (put_link k v ∷ []) d
  pub compact_keeps :
      (f : Bytes → Bool) (k v : Bytes) (d : D)
      → db.get_link k d ≡ some v
      → f v ≡ false
      → db.get_link k (db.compact f d) ≡ some v
  pub compact_makes :
      (f : Bytes → Bool) (k v : Bytes) (d : D)
      → db.get_link k (db.compact f d) ≡ some v
      → db.get_link k d ≡ some v
