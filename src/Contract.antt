-- ===== src/Contract.antt =====
-- ui/src/types/api.gen.ts: `paths` and `operations`, the description of the HTTP API that is generated
-- from the server's. An operation is data: how it is asked for and what it may answer.
mod Defs
pub mod Admin
pub mod Sessions
pub mod Auth
pub mod Matches
pub mod Conforms
pub mod Streams
use codespace_operator.Prelude.{List, ◌++◌}
unfoldable pub use Defs.*

-- Every operation of `paths`.
abbrev pub description : List Operation
description = Admin.operations ++ (Sessions.operations ++ Auth.operations)
