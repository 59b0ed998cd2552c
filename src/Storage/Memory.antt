-- ===== src/Storage/Memory.antt =====
-- A frontmatter package that keeps posts as they are but for the trimming.
use plain_text_gtd.Prelude.{refl, some, text_eq}
use plain_text_gtd.Text.{strip}
use plain_text_gtd.Frontmatter.{Post, Frontmatter, IsLawful}

abbrev pub memory_frontmatter : Frontmatter
memory_frontmatter = record {
  File = Post;
  loads = λ p. some (record p { content = strip p.content });
  dumps = λ p. p;
}

pub memory_frontmatter-IsLawful : IsLawful memory_frontmatter
memory_frontmatter-IsLawful = record {
  loads-dumps = λ p clean. (record p { content = strip p.content }, refl, clean.trimmed, λ k. refl);
}
