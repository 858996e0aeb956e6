-- ===== src/Markdown.antt =====
-- packages/markdown: the prompts of questions.
pub mod Url
mod Tests
