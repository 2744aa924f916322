-- ===== src/Build/Tests.antt =====
-- Compilers, by what they predefine.
use app_simple_log.Prelude.{◌≡◌, refl, true, false, none, some}
use app_simple_log.FileManager.Ownership.{macos}
use app_simple_log.Build.{
  apple, target_os_mac, aarch64, clang, clang_major, win64, m_x64, msc_ver, cpp_lib_format,
  Compiler, platform_header, platform_definitions, arm64, detect_platform, detect_architecture,
  features,
}

abbrev apple_silicon : Compiler
apple_silicon apple = some 1
apple_silicon target_os_mac = some 1
apple_silicon aarch64 = some 1
apple_silicon clang = some 1
apple_silicon clang_major = some 15
apple_silicon m = none

abbrev visual_studio : Compiler
visual_studio win64 = some 1
visual_studio m_x64 = some 100
visual_studio msc_ver = some 1929
visual_studio cpp_lib_format = some 201907
visual_studio m = none

apple_silicon-platform_header :
    platform_header apple_silicon ≡ some (platform_definitions arm64 macos)
unfolding platform_header detect_platform detect_architecture
apple_silicon-platform_header = refl

visual_studio-features : features visual_studio ≡ record {
  has_format = true;
  has_jthread = false;
  has_source_location = false;
  has_atomic_ref = false;
  msvc_2022_or_later = some false;
  clang_14_or_later = none;
}
unfolding features
visual_studio-features = refl
