-- ===== src/Sessions.antt =====
-- The calls that open and close sessions: those of apps/api/src/auth/auth.service.ts, and
-- `setStatus` of apps/api/src/users/users.service.ts, in any order.
pub mod Samples
pub mod Registry
pub mod Opening
pub mod Indexed
pub mod Refinement
pub mod Rotation
pub mod Reuse
pub mod Lockout
pub mod Blocking
mod Tests
use fredoomeaxima.Common.{ℕ, String}
use fredoomeaxima.Database.{Db, UserStatus}
use fredoomeaxima.Auth.{Credentials, Draw, register, login, refresh, logout}
use fredoomeaxima.Users.{set_status}

pub data Call : Type 0 where
  registers : Draw → ℕ → String → ℕ → Call
  logs_in : Draw → ℕ → String → ℕ → Call
  refreshes : Draw → (now token : ℕ) → Call
  logs_out : ℕ → Call
  sets_status : ℕ → UserStatus → Call

-- The state that a call leaves, whether it succeeds or throws.
abbrev pub after : Credentials → Call → Db → Db
after c (Call.registers draw now email password) db = (register c draw now email password db).1
after c (Call.logs_in draw now email password) db = (login c draw now email password db).1
after c (Call.refreshes draw now token) db = (refresh c draw now token db).1
after c (Call.logs_out token) db = (logout c token db).1
after c (Call.sets_status user_id status) db = (set_status user_id status db).1

-- What sequences of calls that `Allowed` lets through lead to.
pub data Reaches (c : Credentials) (Allowed : Call → Type 0) : Db → Db → Type 0 where
  here : (db : Db) → Reaches c Allowed db db
  there :
      (before last : Db) (call : Call)
      → Allowed call
      → Reaches c Allowed (after c call before) last
      → Reaches c Allowed before last
