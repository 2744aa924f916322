-- ===== src/TagFilter.antt =====
-- TagFilter: src/include/speckit/log/tag_filter.h and src/src/tag_filter.cpp. Each method holds the
-- mutex for its whole body, so a call is one step.
mod Laws
use app_simple_log.Prelude.{Bool, true, List, [], none, some, Bytes}
use app_simple_log.Level.{LogLevel}
use app_simple_log.Disk.{lookup, put}

pub record TagFilter : Type 0 where
  pub enabled : List (Bytes × Bool)
  pub levels : List (Bytes × LogLevel)

abbrev pub create : TagFilter
create = record { enabled = []; levels = [] }

unfoldable pub set_tag_enabled : Bytes → Bool → TagFilter → TagFilter
set_tag_enabled tag enabled f = record f { enabled = put tag enabled f.enabled }

-- A tag that was never set is enabled.
unfoldable pub is_tag_enabled : Bytes → TagFilter → Bool
is_tag_enabled tag f = elim (lookup tag f.enabled) [ none ↦ true | some enabled ↦ enabled ]

unfoldable pub set_tag_level : Bytes → LogLevel → TagFilter → TagFilter
set_tag_level tag level f = record f { levels = put tag level f.levels }

-- A tag that was never set has the lowest level.
unfoldable pub get_tag_level : Bytes → TagFilter → LogLevel
get_tag_level tag f = elim (lookup tag f.levels) [ none ↦ LogLevel.debug | some level ↦ level ]
