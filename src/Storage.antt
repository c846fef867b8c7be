-- ===== src/Storage.antt =====
-- internal/queue/storage/storage.go and internal/queue/configuration: what a storage is asked for.
-- A projection and a comment do not reach the memory storage's result and are left out.
use deckard.Common.{Option, List, Bool, Str}
use deckard.Common.Int.{ℤ}
use deckard.Dtime.{Time}

-- The empty string and an absent pointer stand for no restriction.
pub record InternalFilter : Type 0 where
  pub internal_id_breakpoint_gt : Str
  pub internal_id_breakpoint_lte : Str
  pub ids : Option (List Str)
  pub queue : Str
  pub queue_prefix : Str
  pub expiry_date : Option Time

-- `sort` holds the keys in their order, each with its direction.
pub record FindOptions : Type 0 where
  pub sort : Option (List (Str × ℤ))
  pub limit : ℤ
  pub internal_filter : Option InternalFilter
  pub retry : Bool

pub record QueueConfiguration : Type 0 where
  pub queue : Str
  pub max_elements : ℤ
