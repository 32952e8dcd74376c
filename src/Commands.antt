-- ===== src/Commands.antt =====
-- thaum/handlers.py: the chat commands. Patterns are the regular expressions of the commands, Card the
-- card that asks for a summary, and Handlers what each command does and how they are registered.
pub mod Patterns
pub mod Card
pub mod Handlers
mod Tests
