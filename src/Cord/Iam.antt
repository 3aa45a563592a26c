-- ===== src/Cord/Iam.antt =====
-- src/cord/iam.ts: users, groups, permissions, commands and grants, kept in the coordination store.
-- Each method is a function on the store; what may throw is in `Exec`.
pub mod Groups
pub mod Users
pub mod Commands
pub mod Keys
pub mod Calls
pub mod Runs
mod Tests
use netab.Common.{ℕ, String, ◌⋅◌}

pub data IamError : Type 0 where
  -- A group of a namespace that is not there, and a subgroup that would close a cycle.
  no_group : String → String → IamError
  would_cycle : String → String → IamError
  -- A recursion that does not come to an end.
  endless : String → IamError

-- `iam/${ns}/groups/` and the other prefixes.
unfoldable pub group_prefix : String → String
group_prefix ns = "iam/" ⋅ ns ⋅ "/groups/"

unfoldable pub group_key : String → String → String
group_key ns group_id = group_prefix ns ⋅ group_id

unfoldable pub user_key : String → String → String
user_key ns user_id = "iam/" ⋅ ns ⋅ "/users/" ⋅ user_id

unfoldable pub cred_key : String → String → String
cred_key ns user_id = "iam/" ⋅ ns ⋅ "/creds/" ⋅ user_id

unfoldable pub permission_prefix : String → String
permission_prefix ns = "iam/" ⋅ ns ⋅ "/permissions/"

unfoldable pub perm_key : String → String → String
perm_key ns perm_id = permission_prefix ns ⋅ perm_id

unfoldable pub command_key : String → String → String
command_key ns command_id = "iam/" ⋅ ns ⋅ "/commands/" ⋅ command_id

unfoldable pub grant_key : String → String → String → String
grant_key ns subject command_id = "iam/" ⋅ ns ⋅ "/grants/" ⋅ subject ⋅ "/" ⋅ command_id
