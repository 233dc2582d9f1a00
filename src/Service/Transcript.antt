-- ===== src/Service/Transcript.antt =====
-- internal/transcript/transcript.go, ToMessages, and toLLMMessages of internal/service/service.go. The
-- JSON decoder is a parameter, and so are the roles of my-agent-core, which is another module.
pub mod Rendered
use interest_memory.Prelude.{
  ℕ, String, string_eq, text_eq, Bool, ◌||◌, Option, none, some, List, [], ◌∷◌, Eq, ◌==◌,
  if◌then◌else◌, Text, codes, trim_space, to_lower,
}
use interest_memory.Fork.Message.{Message}
use interest_memory.Fork.Windows.{◌>>=◌}

pub record RawTurn : Type 0 where
  pub role : Text
  pub content : Text

-- types.Role, with its constants for the user, the assistant and the result of a tool.
pub record Roles : Type 1 where
  pub Role : Type 0
  pub role_eq : Eq Role
  pub role_user : Role
  pub role_assistant : Role
  pub role_tool_result : Role

-- types.Message: the fields that are used.
pub record AgentMessage (R : Type 0) : Type 0 where
  pub role : R
  pub text : Text

module _ (roles : Roles) (lower : ℕ → ℕ) (parse : Text → Option (List RawTurn)) where
  open roles use {Role, role_eq, role_user, role_assistant, role_tool_result}

  -- The switch on the role, in lower case; `none` is the default case.
  abbrev pub role_of : Text → Option Role
  role_of role =
      if role == codes "user"
      then some role_user
      else if role == codes "assistant"
      then some role_assistant
      else if role == codes "tool" || (role == codes "toolresult" || role == codes "tool_result")
      then some role_tool_result
      else none

  abbrev pub with_message : Option Role → Text → List (AgentMessage Role) → List (AgentMessage Role)
  with_message none content out = out
  with_message (some role) content out = record { role = role; text = content } ∷ out

  unfoldable pub messages_of : List RawTurn → List (AgentMessage Role)
  messages_of [] = []
  messages_of (t ∷ turns) =
      let rest = messages_of turns in
      if trim_space t.content == []
      then rest
      else with_message (role_of (to_lower lower t.role)) (trim_space t.content) rest

  -- `none` is an error of the decoder.
  unfoldable pub to_messages : Text → Option (List (AgentMessage Role))
  to_messages raw =
      if trim_space raw == [] then some [] else (do turns ← parse raw; some (messages_of turns))

  abbrev pub llm_role : Role → String
  llm_role role =
      if role_eq.beq role role_assistant
      then "assistant"
      else if role_eq.beq role role_tool_result
      then "tool"
      else "user"

  unfoldable pub to_llm_messages : List (AgentMessage Role) → List Message
  to_llm_messages [] = []
  to_llm_messages (m ∷ msgs) =
      record { role = llm_role m.role; content = m.text } ∷ to_llm_messages msgs
