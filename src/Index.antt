-- ===== src/Index.antt =====
-- crates/nova-index: index types, ranges and the index structures.
pub mod Entries
pub mod Manager
pub mod Laws
pub mod Covering
pub mod Kept
pub mod Values
pub mod Followed
pub mod Held
use nova_db.Core.Value.{Value}

pub data IndexType : Type 0 where
  primary_key hash ordered : IndexType

-- `std::ops::Bound`
pub data Bound (F : Type 0) : Type 0 where
  included : Value F → Bound F
  excluded : Value F → Bound F
  unbounded : Bound F

pub record IndexRange (F : Type 0) : Type 0 where
  pub start : Bound F
  pub end : Bound F

module _ {F : Type 0} where
  abbrev pub all : IndexRange F
  all = record { start = unbounded; end = unbounded }

  abbrev pub exact : Value F → IndexRange F
  exact v = record { start = included v; end = included v }

  abbrev pub from_inclusive : Value F → IndexRange F
  from_inclusive v = record { start = included v; end = unbounded }

  abbrev pub to_inclusive : Value F → IndexRange F
  to_inclusive v = record { start = unbounded; end = included v }

  abbrev pub between_inclusive : Value F → Value F → IndexRange F
  between_inclusive a b = record { start = included a; end = included b }
