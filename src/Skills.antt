-- ===== src/Skills.antt =====
-- skills: which skills the rules on paths enable.
pub mod Rules
pub mod Winner
