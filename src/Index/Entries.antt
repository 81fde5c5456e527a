-- ===== src/Index/Entries.antt =====
-- crates/nova-index/src/hash.rs and ordered.rs: the entries of an index and their operations.
-- A `HashMap` finds a key by its hash and `==`; a `BTreeMap` by `cmp`, in a list that is kept in the order of the
-- keys. The sets of ids are lists without repetition.
use Prim.Native.Nat.{Ordering}
use nova_db.Base.{
  ℕ, ◌+◌, Bool, true, false, not, ◌&&◌, ◌||◌, List, [], ◌∷◌, ◌++◌, if◌then◌else◌, length,
}
use nova_db.Base.Text.{text_eq, text_cmp}
use nova_db.Core.DocumentId.{DocumentId}
use nova_db.Core.Value.{Value, Float, value_eq, value_cmp, is_less, is_equal, is_greater}
use nova_db.Core.Value.Hash.{hash_eq, hash_value}
use nova_db.Index.{IndexType, hash, Bound, included, excluded, unbounded, IndexRange}

abbrev pub Ids : Type 0
Ids = List DocumentId

unfoldable pub has : DocumentId → Ids → Bool
has id [] = false
has id (j ∷ ids) = text_eq j id || has id ids

-- `HashSet::insert`, `BTreeSet::insert` and `remove`
abbrev pub set_insert : DocumentId → Ids → Ids
set_insert id ids = if has id ids then ids else ids ++ id ∷ []

unfoldable pub sorted_insert : DocumentId → Ids → Ids
sorted_insert id [] = id ∷ []
sorted_insert id (j ∷ ids) =
    let rest = sorted_insert id ids in
    elim (text_cmp id j) [
      | Ordering.lt ↦ id ∷ j ∷ ids
      | Ordering.eq ↦ j ∷ ids
      | Ordering.gt ↦ j ∷ rest
    ]

unfoldable pub set_remove : DocumentId → Ids → Ids
set_remove id [] = []
set_remove id (j ∷ ids) = let rest = set_remove id ids in if text_eq j id then rest else j ∷ rest

abbrev pub Entries : Type 0 → Type 0
Entries F = List (Value F × Ids)

-- A set that became empty is taken out of the map.
abbrev pub put_back : {F : Type 0} → Value F → Ids → Entries F → Entries F
put_back k [] rest = rest
put_back k (id ∷ ids) rest = (k, id ∷ ids) ∷ rest

module _ {F : Type 0} (fl : Float F) where
  -- How a map of each kind finds a key: a `HashMap` looks among those that hash alike only. Values
  -- that feed the hasher different bytes are taken to hash differently.
  abbrev pub same : IndexType → Value F → Value F → Bool
  same hash a b = hash_eq fl a b && value_eq fl a b
  same _ a b = is_equal (value_cmp fl a b)

  -- `entries.get(key)`, as `lookup` uses it: no ids for a key that is not there
  unfoldable pub lookup : IndexType → Value F → Entries F → Ids
  unfolding has hash_value
  lookup t key [] = []
  lookup t key ((k, ids) ∷ rest) = if same t k key then ids else lookup t key rest

  -- `HashIndex::insert`
  unfoldable pub hash_insert : Value F → DocumentId → Entries F → Entries F
  unfolding has hash_value
  hash_insert key id [] = (key, id ∷ []) ∷ []
  hash_insert key id ((k, ids) ∷ rest) =
      if same hash k key then (k, set_insert id ids) ∷ rest else (k, ids) ∷ hash_insert key id rest

  -- `OrderedIndex::insert`
  unfoldable pub ordered_insert : Value F → DocumentId → Entries F → Entries F
  unfolding sorted_insert
  ordered_insert key id [] = (key, id ∷ []) ∷ []
  ordered_insert key id ((k, ids) ∷ rest) =
      let later = ordered_insert key id rest in
      elim (value_cmp fl key k) [
        | Ordering.lt ↦ (key, id ∷ []) ∷ (k, ids) ∷ rest
        | Ordering.eq ↦ (k, sorted_insert id ids) ∷ rest
        | Ordering.gt ↦ (k, ids) ∷ later
      ]

  -- `remove` of either index
  unfoldable pub remove : IndexType → Value F → DocumentId → Entries F → Entries F
  unfolding set_remove hash_value
  remove t key id [] = []
  remove t key id ((k, ids) ∷ rest) =
      if same t k key then put_back k (set_remove id ids) rest else (k, ids) ∷ remove t key id rest

  -- `len`: the sum of the sizes of the sets
  unfoldable pub len : Entries F → ℕ
  len [] = 0
  len ((k, ids) ∷ rest) = length ids + len rest

  -- A key against the bounds of a range.
  abbrev pub above : Bound F → Value F → Bool
  above (included lo) v = not (is_less (value_cmp fl v lo))
  above (excluded lo) v = is_greater (value_cmp fl v lo)
  above unbounded v = true

  abbrev pub below : Bound F → Value F → Bool
  below (included hi) v = not (is_greater (value_cmp fl v hi))
  below (excluded hi) v = is_less (value_cmp fl v hi)
  below unbounded v = true

  abbrev pub in_range : IndexRange F → Value F → Bool
  in_range r v = above r.start v && below r.end v

  -- `BTreeMap::range` panics if the start lies behind the end, or is excluded at both.
  abbrev pub bounds_panic : Bound F → Bound F → Bool
  bounds_panic (included a) (included b) = is_greater (value_cmp fl a b)
  bounds_panic (included a) (excluded b) = is_greater (value_cmp fl a b)
  bounds_panic (excluded a) (included b) = is_greater (value_cmp fl a b)
  bounds_panic (excluded a) (excluded b) = not (is_less (value_cmp fl a b))
  bounds_panic _ _ = false

  -- the ids of the keys in the range, in the order of the keys
  unfoldable pub range_ids : IndexRange F → Entries F → Ids
  range_ids r [] = []
  range_ids r ((k, ids) ∷ rest) =
      let later = range_ids r rest in if in_range r k then ids ++ later else later

pub data Scan : Type 0 where
  scanned : Ids → Scan
  scan_not_supported : Scan
  range_panic : Scan

module _ {F : Type 0} (fl : Float F) where
  abbrev scan_keys : IndexRange F → Entries F → Scan
  scan_keys r [] = scanned []
  scan_keys r (e ∷ entries) =
      if bounds_panic fl r.start r.end then range_panic else scanned (range_ids fl r (e ∷ entries))

  -- `scan`: a hash index supports none; an empty ordered index answers before it looks at the range.
  unfoldable pub scan : IndexType → IndexRange F → Entries F → Scan
  unfolding range_ids
  scan hash r entries = scan_not_supported
  scan _ r entries = scan_keys r entries
