-- ===== src/Cache/Policy.antt =====
-- crates/tr-cache/src/policy.rs: what happens to objects of each role.
use tr_infer.Prelude.{ℕ, Bool, true, false, Option, none, some, any, ◌≡◌, refl, arith}
use tr_infer.Cache.Role.{Role, system, user, reasoning, tool, assistant, all}

pub record RolePolicy : Type 0 where
  pub persist : Bool
  pub priority : ℕ
  pub ttl : Option ℕ
  pub snapshot : Bool

abbrev pub priority_max : ℕ
priority_max = 9

abbrev pub default_policy : RolePolicy
default_policy = record { persist = true; priority = 5; ttl = none; snapshot = true }

pub record Policies : Type 0 where
  pub for_system : RolePolicy
  pub for_user : RolePolicy
  pub for_reasoning : RolePolicy
  pub for_tool : RolePolicy
  pub for_assistant : RolePolicy

abbrev pub default_policies : Policies
default_policies = record {
  for_system = default_policy;
  for_user = default_policy;
  for_reasoning = default_policy;
  for_tool = default_policy;
  for_assistant = default_policy;
}

unfoldable pub get : Policies → Role → RolePolicy
get p system = p.for_system
get p user = p.for_user
get p reasoning = p.for_reasoning
get p tool = p.for_tool
get p assistant = p.for_assistant

-- `Policies::get_mut` with the value that is written through it.
unfoldable pub set : Policies → Role → RolePolicy → Policies
set p system r = record p { for_system = r }
set p user r = record p { for_user = r }
set p reasoning r = record p { for_reasoning = r }
set p tool r = record p { for_tool = r }
set p assistant r = record p { for_assistant = r }

-- `Policies::of`
unfoldable pub policy_of : Policies → Option Role → RolePolicy
unfolding get
policy_of p none = default_policy
policy_of p (some r) = get p r

abbrev has_ttl : Option ℕ → Bool
has_ttl none = false
has_ttl (some t) = true

unfoldable pub any_ttl : Policies → Bool
unfolding get
any_ttl p = any (λ r. has_ttl (get p r).ttl) all

-- Where `any_ttl` says no, no role has a time to live.
pub ttl_of_no_ttl :
    (p : Policies) (r : Option Role) → any_ttl p ≡ false → (policy_of p r).ttl ≡ none
unfolding policy_of any_ttl
ttl_of_no_ttl p none h = refl
ttl_of_no_ttl p (some system) h = ground arith
ttl_of_no_ttl p (some user) h = ground arith
ttl_of_no_ttl p (some reasoning) h = ground arith
ttl_of_no_ttl p (some tool) h = ground arith
ttl_of_no_ttl p (some assistant) h = ground arith
