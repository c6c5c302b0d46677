-- ===== src/Agent/History.antt =====
-- sanitizeHistory, withUserMessage and trimHistory of internal/agent/main/agent.go.
pub mod Pairing
pub mod Bound
use miss_raspberry_agent.Prelude.{
  leb, ◌==◌, if◌then◌else◌, length, drop, ℕ, ◌-◌, Bool, false, ◌||◌, List, [], ◌∷◌, ◌++◌, Text,
  text_eq,
}

-- schema.RoleType
pub data Role : Type 0 where
  system user assistant tool : Role

-- The fields of schema.Message that the source reads or sets; a tool call is its ID.
pub record Message : Type 0 where
  pub role : Role
  pub content : Text
  pub tool_calls : List Text
  pub tool_call_id : Text

-- `pendingIDs[id]`, where the set is the list of its members
unfoldable pub pending : Text → List Text → Bool
pending id [] = false
pending id (p ∷ ps) = text_eq p id || pending id ps

-- `delete(pendingIDs, id)`
unfoldable pub without : Text → List Text → List Text
without id [] = []
without id (p ∷ ps) = let rest = without id ps in if text_eq p id then rest else p ∷ rest

-- The loop of sanitizeHistory, with the pending ids.
unfoldable pub sanitize_from : List Text → List Message → List Message
sanitize_from ids [] = []
sanitize_from ids (m ∷ ms) = elim m.role [
  | assistant ↦ m ∷ sanitize_from m.tool_calls ms
  | tool ↦
      let kept = sanitize_from (without m.tool_call_id ids) ms in
      let dropped = sanitize_from ids ms in if pending m.tool_call_id ids then m ∷ kept else dropped
  | _ ↦ m ∷ sanitize_from ids ms
]

-- sanitizeHistory
unfoldable pub sanitize_history : List Message → List Message
sanitize_history messages = sanitize_from [] messages

-- withUserMessage
unfoldable pub with_user_message : List Message → Message → List Message
with_user_message history user_msg = history ++ user_msg ∷ []

-- trimHistory, for the `max` that is not negative
unfoldable pub trim_history : List Message → ℕ → List Message
trim_history messages max =
    if (max == 0) || leb (length messages) max
    then messages
    else drop (length messages - max) messages
