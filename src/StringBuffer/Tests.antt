-- ===== src/StringBuffer/Tests.antt =====
-- The theorem on src/strings/strings.c at a concrete buffer.
use cleric.Common.{some}
use cleric.Common.Text.{codes}
use cleric.StringBuffer.{StringBuffer}

-- It has to grow for the appended text.
abbrev a_buffer : StringBuffer
a_buffer = record {
  content = codes "movl";
  capacity = 8;
  arena = record { start = some 4096; total_size = 64; offset = 8 };
}
