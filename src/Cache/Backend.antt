-- ===== src/Cache/Backend.antt =====
-- crates/tr-cache/src/backend.rs: the storage behind the cache, a store of objects by name.
pub mod Memory
use tr_infer.Prelude.{ℕ, Option, List}
use tr_infer.Cache.Result.{Result}
use tr_infer.Cache.Object.{ObjectMeta}

-- The trait `Backend`: an operation takes the state of the backend to the next one.
pub record Backend : Type 1 where
  pub State : Type 0
  pub put : State → ObjectMeta → List ℕ → State × Result (Unit {0})
  -- the buffer of `get` is given by its length, and comes back filled
  pub get : State → List ℕ → ℕ → State × Result (ObjectMeta × List ℕ)
  pub delete : State → List ℕ → State × Result (Unit {0})
  pub list : State → State × Result (List ObjectMeta)
  pub put_index : State → List ℕ → State × Result (Unit {0})
  pub get_index : State → State × Result (Option (List ℕ))
