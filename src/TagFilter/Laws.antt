-- ===== src/TagFilter/Laws.antt =====
-- What a setting of the tag filter changes, and what it leaves.
use app_simple_log.Prelude.{◌≡◌, Bool, Bytes, bytes_eq, if◌then◌else◌, refl, arith}
use app_simple_log.Level.{LogLevel}
use app_simple_log.Disk.Laws.{lookup-put}
use app_simple_log.TagFilter.{
  TagFilter, set_tag_enabled, is_tag_enabled, set_tag_level, get_tag_level,
}

-- A setting is read back for its own tag, and changes no other tag and not the other kind of
-- setting.
set_tag_lem :
    (tag other : Bytes) (enabled : Bool) (level : LogLevel) (f : TagFilter)
    → (is_tag_enabled other (set_tag_enabled tag enabled f)
        ≡ (if bytes_eq tag other then enabled else is_tag_enabled other f))
      × (get_tag_level other (set_tag_enabled tag enabled f) ≡ get_tag_level other f)
      × (get_tag_level other (set_tag_level tag level f)
          ≡ (if bytes_eq tag other then level else get_tag_level other f))
      × (is_tag_enabled other (set_tag_level tag level f) ≡ is_tag_enabled other f)
unfolding set_tag_enabled is_tag_enabled set_tag_level get_tag_level
set_tag_lem tag other enabled level f = (
  ground (arith, lookup-put tag other enabled f.enabled),
  refl,
  ground (arith, lookup-put tag other level f.levels),
  refl,
)
