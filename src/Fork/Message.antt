-- ===== src/Fork/Message.antt =====
-- internal/llm/llm.go, Message: the role and the text, which stands as a list of code points.
use interest_memory.Prelude.{
  Text, String, Bool, true, ◌&&◌, ◌≡◌, ◌↔◌, Eq, ◌==◌, nat_eq, string_eq, list_beq, list_beq_iff,
  arith,
}

pub record Message : Type 0 where
  pub role : String
  pub content : Text

-- Go's `==` on the struct.
abbrev pub message_beq : Message → Message → Bool
message_beq a b = a.role == b.role && list_beq a.content b.content

pub message_beq_iff : (a b : Message) → (message_beq a b ≡ true) ↔ (a ≡ b)
message_beq_iff a b =
    ground (arith, string_eq.beq_iff a.role b.role, list_beq_iff a.content b.content)

instance abbrev pub message_eq : Eq Message
message_eq = record { beq = message_beq; beq_iff = message_beq_iff }
