-- ===== src/Tests/Bands.antt =====
-- Runs of the bands.
use plain_text_gtd.Prelude.{text_eq}
